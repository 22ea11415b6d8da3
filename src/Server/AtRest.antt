-- ===== src/Server/AtRest.antt =====
-- What the server answers while the controller rests.
use drift_sentinel.Base.{
  ℕ, List, Option, none, some, Bool-cases, ◌≡◌, ◌≢◌, ◌↔◌, ◌⊎◌, refl, sym, ap, ◌∙◌, inl, inr,
}
use drift_sentinel.Base.Text.{Text, Unicode, codes, text_eq}
use drift_sentinel.Base.Sort.{In}
use drift_sentinel.Base.Result.{Result, ok, err, out_of_fuel}
use drift_sentinel.Http.{Response}
use drift_sentinel.Metrics.Registry.{Float64, Registry}
use drift_sentinel.Rules.Types.{MatchInput, Resolved, Rule}
use drift_sentinel.Rules.Store.{Store, new_store, replace}
use drift_sentinel.Rules.Matcher.{store_match}
use drift_sentinel.Rules.Matcher.Priority.{store_match-replace}
use drift_sentinel.Rules.Watcher.{
  CoreConfigMap, NamespaceAnswer, World, new_world, resolve_mode, valid_rules,
}
use drift_sentinel.Rules.Watcher.System.{State, Steps}
use drift_sentinel.Rules.Watcher.Tracked.{IsQuiet, IsTracked}
use drift_sentinel.Rules.Watcher.Rebuilt.{HaveUniqueNames, quiet-match}
use drift_sentinel.Admission.Review.{AdmissionRequest, AdmissionReview, Json, decode_review}
use drift_sentinel.Admission.Flow.{Unmarshalled, Validator, go, run, new_validator, ◌>>=◌, ◌>>◌}
use drift_sentinel.Admission.Validator.{
  check_bypass, check_operation, check_users, decode_new, decode_old, effective_mode, input_of,
  judge, rule_or_stop, select, validate,
}
use drift_sentinel.Admission.Handler.{
  Request, serve_body, serve_decoded, serve_http, serve_review, answer, write_admission_response,
}
use drift_sentinel.Config.{Config}
use drift_sentinel.Server.{
  Endpoint, Mux, endpoints, health_endpoint, metrics_endpoint, serve, serve_dispatched,
  serve_endpoint, validate_endpoint, validator_of,
}

-- The two stores match every input with the same rule.
abbrev pub MatchSame : Store → Store → Type 0
MatchSame a b = (input : MatchInput) → store_match a input ≡ store_match b input

module _ ⦃u : Unicode⦄ (unmarshal : Text → Unmarshalled) (resolver : Text → Resolved) where
  abbrev validator : Store → Validator
  validator store = record { store = store; resolver = some resolver }

  select-MatchSame :
      (a b : Store) (req : AdmissionRequest)
      → MatchSame a b
      → select unmarshal (validator a) req ≡ select unmarshal (validator b) req
  unfolding select
  select-MatchSame a b req same = λ i. do
    check_operation req
    old ← decode_old unmarshal req
    new ← decode_new unmarshal req
    rule ← rule_or_stop (same (input_of req new) i)
    check_users req rule
    check_bypass new rule
    go (old, new, rule)

  validate-MatchSame :
      (a b : Store) (req : AdmissionRequest)
      → MatchSame a b
      → validate unmarshal (validator a) req ≡ validate unmarshal (validator b) req
  unfolding validate effective_mode
  validate-MatchSame a b req same = λ i. run (do
    (old, new, rule) ← select-MatchSame a b req same i
    mode ← effective_mode (validator a) rule req.namespace
    judge rule mode old new)

  module _ ⦃f : Float64⦄ (json : Json) (a b : Store) (same : MatchSame a b) (duration : ℕ)
      (r s : Registry) where
    serve_review-MatchSame :
        (o : Option AdmissionRequest)
        → (serve_review unmarshal json (validator a) o duration r).0
          ≡ (serve_review unmarshal json (validator b) o duration s).0
    unfolding serve_review
    serve_review-MatchSame none = refl
    serve_review-MatchSame (some req) =
        λ i. write_admission_response json (answer req (validate-MatchSame a b req same i))

    serve_decoded-MatchSame :
        (m : Result AdmissionReview)
        → (serve_decoded unmarshal json (validator a) m duration r).0
          ≡ (serve_decoded unmarshal json (validator b) m duration s).0
    serve_decoded-MatchSame (ok review) = serve_review-MatchSame review.request
    serve_decoded-MatchSame (err e) = refl
    serve_decoded-MatchSame out_of_fuel = refl

    serve_body-MatchSame :
        (m : Result Text)
        → (serve_body unmarshal json (validator a) m duration r).0
          ≡ (serve_body unmarshal json (validator b) m duration s).0
    serve_body-MatchSame (ok content) = serve_decoded-MatchSame (decode_review json content)
    serve_body-MatchSame (err e) = refl
    serve_body-MatchSame out_of_fuel = refl

    serve_http-MatchSame :
        (request : Request)
        → (serve_http unmarshal json (validator a) request duration r).0
          ≡ (serve_http unmarshal json (validator b) request duration s).0
    unfolding serve_http
    serve_http-MatchSame request = elim (Bool-cases (text_eq request.method (codes "POST"))) [
      | inl e ↦ rw e (serve_body-MatchSame request.body)
      | inr e ↦ rw e refl
    ]

module _ ⦃u : Unicode⦄ ⦃f : Float64⦄ (unmarshal : Text → Unmarshalled) (json : Json)
    (lister : Text → NamespaceAnswer) where
  serve_endpoint-MatchSame :
      (endpoint : Endpoint) (request : Request) (duration : ℕ) (w x : World)
      → endpoint ≢ metrics_endpoint
      → MatchSame w.store x.store
      → (serve_endpoint unmarshal json lister endpoint request duration w).0
        ≡ (serve_endpoint unmarshal json lister endpoint request duration x).0
  unfolding serve_endpoint validator_of new_validator
  serve_endpoint-MatchSame health_endpoint request duration w x other same = refl
  serve_endpoint-MatchSame metrics_endpoint request duration w x other same = absurd (other refl)
  serve_endpoint-MatchSame validate_endpoint request duration w x other same =
      serve_http-MatchSame unmarshal (resolve_mode lister) json w.store x.store same duration
        w.metrics x.metrics request

  serve_dispatched-MatchSame :
      (d : Response ⊎ Endpoint) (request : Request) (duration : ℕ) (w x : World)
      → ◌≢◌ {A = Response ⊎ Endpoint} d (inr metrics_endpoint)
      → MatchSame w.store x.store
      → (serve_dispatched unmarshal json lister d request duration w).0
        ≡ (serve_dispatched unmarshal json lister d request duration x).0
  serve_dispatched-MatchSame (inl response) request duration w x other same = refl
  serve_dispatched-MatchSame (inr endpoint) request duration w x other same =
      serve_endpoint-MatchSame endpoint request duration w x (λ e. other (ap inr e)) same

  -- A new controller into whose store those rules were put.
  abbrev pub holding : List Rule → World
  holding rules = record new_world { store = replace new_store rules }

  -- While a controller that was tracked is at rest, the server answers each request, but those for the
  -- metrics, as it would with a new controller that holds the rules of the config maps of the cache, in
  -- whatever order and number these are listed: status, headers and body are the same. No two config
  -- maps have the same namespace and name.
  pub quiet-serve :
      {s t : State}
      → IsTracked s
      → Steps s t
      → IsQuiet t
      → (configs : List CoreConfigMap) → HaveUniqueNames configs
      → ((c : CoreConfigMap) → In c configs ↔ In c t.world.cache)
      → (mux : Mux) (config : Config) (path : Text) (request : Request) (duration : ℕ)
      → mux.dispatch (endpoints config) path ≢ inr metrics_endpoint
      → (serve unmarshal json lister mux config path request duration t.world).0
        ≡ (serve unmarshal json lister mux config path request duration
            (holding (valid_rules configs))).0
  unfolding serve
  quiet-serve {s} {t} k steps quiet configs unique same mux config path request duration other =
      serve_dispatched-MatchSame (mux.dispatch (endpoints config) path) request duration t.world
        (holding (valid_rules configs)) other
        λ input.
          quiet-match k steps quiet configs unique same input
          ∙ sym (store_match-replace new_store (valid_rules configs) input)
