-- ===== src/Admission/Validator/Stops.antt =====
-- With which decisions the steps of `Validate` stop.
use drift_sentinel.Base.{
  ℕ, Bool, true, false, [], ◌++◌, Option, none, some, if-both, ◌≡◌, ◌⊎◌, refl, inl, inr,
}
use drift_sentinel.Base.Text.{Text, codes, Unicode, text_eq}
use drift_sentinel.Base.Result.{Result, ok, err, out_of_fuel}
use drift_sentinel.Rules.Matcher.{store_match}
use drift_sentinel.Rules.Types.{Resolved, unset, found, unresolved, Rule, Mode}
use drift_sentinel.Admission.Review.{AdmissionRequest, Decision}
use drift_sentinel.Admission.Validator.{
  rule_or_stop, resolved_mode, resolve_with, effective_mode, select, no_matching_rule,
  check_operation, decode_old, decode_new, input_of, check_users, check_bypass,
}
use drift_sentinel.Admission.Flow.{
  Unmarshalled, malformed, nothing, decoded, Validator, Flow, go, stop, ◌>>=◌, stop_if, run,
  or_stop, map_or_stop, decode_object, error_decision, allow,
}

-- A flow that stops only with decisions of which `P` holds.
abbrev pub Stops {ℓ} : (Decision → Type 0) → {A : Type ℓ} → Flow A → Type 0
Stops P (go a) = Unit
Stops P (stop d) = P d

abbrev pub Decides : (Decision → Type 0) → Flow Decision → Type 0
Decides P m = P (run m)

module _ (P : Decision → Type 0) where
  pub Stops-bind {ℓ κ} :
      {A : Type ℓ} {B : Type κ} (m : Flow A) (f : A → Flow B)
      → Stops P m
      → ((a : A) → Stops P (f a))
      → Stops P (m >>= f)
  Stops-bind (go a) f h k = k a
  Stops-bind (stop d) f h k = h

  pub Decides-bind {ℓ} :
      {A : Type ℓ} (m : Flow A) (f : A → Flow Decision)
      → Stops P m
      → ((a : A) → Decides P (f a))
      → Decides P (m >>= f)
  Decides-bind (go a) f h k = k a
  Decides-bind (stop d) f h k = h

  pub Stops-stop_if : (b : Bool) (d : Decision) → P d → Stops P (stop_if b d)
  Stops-stop_if true d h = h
  Stops-stop_if false d h = tt

  pub Stops-or_stop {ℓ} :
      {A : Type ℓ} (f : Text → Decision) (r : Result A)
      → ((e : Text) → P (f e))
      → Stops P (or_stop f r)
  Stops-or_stop f (ok a) h = tt
  Stops-or_stop f (err e) h = h e
  Stops-or_stop f out_of_fuel h = h []

  Stops-map_or_stop :
      (f : Text → Decision) (r : Unmarshalled) → ((e : Text) → P (f e)) → Stops P (map_or_stop f r)
  Stops-map_or_stop f (malformed e) h = h e
  Stops-map_or_stop f nothing h = tt
  Stops-map_or_stop f (decoded fs) h = tt

  Stops-decode_object :
      (unmarshal : Text → Unmarshalled) (f : Text → Decision) (raw : Text)
      → ((e : Text) → P (f e))
      → Stops P (decode_object unmarshal f raw)
  unfolding decode_object
  Stops-decode_object unmarshal f raw h =
      if-both (Stops P) (text_eq raw []) tt (Stops-map_or_stop f (unmarshal raw) h)

  Stops-rule_or_stop : (r : Option Rule) → P no_matching_rule → Stops P (rule_or_stop r)
  Stops-rule_or_stop none h = h
  Stops-rule_or_stop (some rule) h = tt

  module _ ⦃u : Unicode⦄ (passes : (reason name : Text) (mode : Mode) → P (allow reason name mode))
      (fails : (rule : Option Rule) (code : ℕ) (e : Text)
        → (code ≡ 400) ⊎ (code ≡ 500)
        → P (error_decision rule code e)) where
    Stops-resolved_mode : (rule : Rule) (r : Resolved) → Stops P (resolved_mode rule r)
    Stops-resolved_mode rule unset = tt
    Stops-resolved_mode rule (found mode) = tt
    Stops-resolved_mode rule (unresolved e) = fails (some rule) 500 _ (inr refl)

    Stops-resolve_with :
        (rule : Rule) (resolver : Option (Text → Resolved)) (namespace : Text)
        → Stops P (resolve_with rule resolver namespace)
    Stops-resolve_with rule none namespace = tt
    Stops-resolve_with rule (some resolve) namespace =
        if-both (Stops P) (text_eq namespace []) tt (Stops-resolved_mode rule (resolve namespace))

    pub Stops-effective_mode :
        (v : Validator) (rule : Rule) (namespace : Text) → Stops P (effective_mode v rule namespace)
    unfolding effective_mode
    Stops-effective_mode v rule namespace = Stops-resolve_with rule v.resolver namespace

    pub Stops-select :
        (unmarshal : Text → Unmarshalled) (v : Validator) (req : AdmissionRequest)
        → Stops P (select unmarshal v req)
    unfolding select
    Stops-select unmarshal v req =
        Stops-bind (check_operation req) _ (Stops-stop_if _ _ (passes _ _ _)) λ _.
          Stops-bind (decode_old unmarshal req) _
            (Stops-decode_object unmarshal _ req.old_object
              λ e. fails none 400 (codes "invalid oldObject: " ++ e) (inl refl))
            λ old.
              Stops-bind (decode_new unmarshal req) _
                (Stops-decode_object unmarshal _ req.object
                  λ e. fails none 400 (codes "invalid object: " ++ e) (inl refl))
                λ new.
                  Stops-bind (rule_or_stop (store_match v.store (input_of req new))) _
                    (Stops-rule_or_stop (store_match v.store (input_of req new)) (passes _ _ _))
                    λ rule.
                      Stops-bind (check_users req rule) _ (Stops-stop_if _ _ (passes _ _ _)) λ _.
                        Stops-bind (check_bypass new rule) _ (Stops-stop_if _ _ (passes _ _ _))
                          λ _. tt
