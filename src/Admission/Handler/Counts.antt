-- ===== src/Admission/Handler/Counts.antt =====
-- What the handler counts.
pub mod Decisions
use drift_sentinel.Base.{
  ℕ, ◌+◌, ◌%◌, List, [], ◌∷◌, ◌++◌, Option, none, some, if◌then◌else◌, Bool-cases, ◌≡◌, refl, ap,
  ◌∙◌, inl, inr, arith,
}
use native.Mathlib.Nat.{zero-add}
use drift_sentinel.Base.Text.{Text, Unicode, codes, text_eq}
use drift_sentinel.Base.Result.{wrap, Result, ok, err, out_of_fuel}
use drift_sentinel.Metrics.Labels.{uint64_size}
use drift_sentinel.Metrics.Registry.{Registry, Float64, new_registry}
use drift_sentinel.Metrics.Counters.{Violation}
use drift_sentinel.Admission.Review.{AdmissionRequest, AdmissionReview, Json, decode_review}
use drift_sentinel.Admission.Flow.{Unmarshalled, Validator}
use drift_sentinel.Admission.Validator.{validate}
use drift_sentinel.Admission.Handler.{
  Request, record_decision, serve_review, serve_http, serve_decoded, serve_body,
}
pub use Decisions.{denials}
use Decisions.{record_decision-count}

-- The admission request that an HTTP request carries.
abbrev pub review_request : Result AdmissionReview → Option AdmissionRequest
review_request (ok review) = review.request
review_request (err e) = none
review_request out_of_fuel = none

abbrev pub body_request : Json → Result Text → Option AdmissionRequest
body_request json (ok content) = review_request (json.unmarshal content)
body_request json (err e) = none
body_request json out_of_fuel = none

abbrev pub admission_request : Json → Request → Option AdmissionRequest
admission_request json request =
    if text_eq request.method (codes "POST") then body_request json request.body else none

-- A call of the handler: the request, and the time that it takes.
pub record Call : Type 0 where
  pub request : Request
  pub duration : ℕ

module _ ⦃u : Unicode⦄ ⦃f : Float64⦄ (unmarshal : Text → Unmarshalled) (json : Json)
    (v : Validator) where
  -- The calls one after the other.
  abbrev pub serve_all : List Call → Registry → Registry
  serve_all [] r = r
  serve_all (c ∷ cs) r = serve_all cs (serve_http unmarshal json v c.request c.duration r).1

  abbrev denials_of : Option AdmissionRequest → List Violation
  denials_of none = []
  denials_of (some req) = denials req (validate unmarshal v req)

  -- The violations of a call.
  abbrev pub violations_of : Request → List Violation
  violations_of request = denials_of (admission_request json request)

  abbrev pub all_violations : List Call → List Violation
  all_violations [] = []
  all_violations (c ∷ cs) = violations_of c.request ++ all_violations cs

  abbrev carried : Option AdmissionRequest → ℕ
  carried none = 0
  carried (some req) = 1

  -- How many calls carry an admission request.
  abbrev pub count_carried : List Call → ℕ
  count_carried [] = 0
  count_carried (c ∷ cs) = carried (admission_request json c.request) + count_carried cs

  -- The metrics after a call, by the admission request alone.
  abbrev pub record_request : Option AdmissionRequest → ℕ → Registry → Registry
  record_request none duration r = r
  record_request (some req) duration r = record_decision req (validate unmarshal v req) duration r

  serve_review-metrics :
      (o : Option AdmissionRequest) (duration : ℕ) (r : Registry)
      → (serve_review unmarshal json v o duration r).1 ≡ record_request o duration r
  unfolding serve_review
  serve_review-metrics none duration r = refl
  serve_review-metrics (some req) duration r = refl

  serve_decoded-metrics :
      (g : Text → Text) (m : Result AdmissionReview) (duration : ℕ) (r : Registry)
      → (serve_decoded unmarshal json v (wrap g m) duration r).1
        ≡ record_request (review_request m) duration r
  serve_decoded-metrics g (ok review) duration r = serve_review-metrics review.request duration r
  serve_decoded-metrics g (err e) duration r = refl
  serve_decoded-metrics g out_of_fuel duration r = refl

  serve_body-metrics :
      (m : Result Text) (duration : ℕ) (r : Registry)
      → (serve_body unmarshal json v m duration r).1
        ≡ record_request (body_request json m) duration r
  unfolding decode_review
  serve_body-metrics (ok content) duration r =
      serve_decoded-metrics _ (json.unmarshal content) duration r
  serve_body-metrics (err e) duration r = refl
  serve_body-metrics out_of_fuel duration r = refl

  pub serve_http-metrics :
      (request : Request) (duration : ℕ) (r : Registry)
      → (serve_http unmarshal json v request duration r).1
        ≡ record_request (admission_request json request) duration r
  unfolding serve_http
  serve_http-metrics request duration r =
      elim (Bool-cases (text_eq request.method (codes "POST"))) [
        | inl e ↦ rw e (serve_body-metrics request.body duration r)
        | inr e ↦ rw e
      ]

  record_request-count :
      (o : Option AdmissionRequest) (duration : ℕ) (r : Registry) (n : ℕ)
      → r.duration_count ≡ n % uint64_size
      → (record_request o duration r).duration_count ≡ (n + carried o) % uint64_size
  record_request-count none duration r n h = omega arith
  record_request-count (some req) duration r n h =
      record_decision-count req (validate unmarshal v req) duration r ∙ rw h (omega arith)

  serve_all-count :
      (cs : List Call) (r : Registry) (n : ℕ)
      → r.duration_count ≡ n % uint64_size
      → (serve_all cs r).duration_count ≡ (n + count_carried cs) % uint64_size
  serve_all-count [] r n h = omega arith
  serve_all-count (c ∷ cs) r n h =
      let rest =
        serve_all-count cs (serve_http unmarshal json v c.request c.duration r).1
          (n + carried (admission_request json c.request))
          (ap (λ r. r.duration_count) (serve_http-metrics c.request c.duration r)
            ∙ record_request-count (admission_request json c.request) c.duration r n h) in
      omega arith

  -- After any calls of the handler on new metrics, the counter of the durations is the number of the
  -- calls that carried an admission request (a POST with a body that decodes to one), modulo 2^64:
  -- no other call is counted.
  pub serve_all-duration_count :
      (cs : List Call) → (serve_all cs new_registry).duration_count ≡ count_carried cs % uint64_size
  serve_all-duration_count cs =
      serve_all-count cs new_registry 0 refl
      ∙ ap (λ n. n % uint64_size) (zero-add (count_carried cs))
