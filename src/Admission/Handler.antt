-- ===== src/Admission/Handler.antt =====
-- pkg/admission/handler.go: the HTTP handler of the webhook.
pub mod Answer
pub mod Counts
pub mod Served
use drift_sentinel.Base.{
  ℕ, Bool, true, false, not, List, [], ◌∷◌, ◌++◌, Option, none, some, if◌then◌else◌, ◌==◌,
}
use drift_sentinel.Base.Text.{Text, Unicode, codes, text_eq}
use drift_sentinel.Base.Result.{Result, ok, err, out_of_fuel}
use drift_sentinel.Http.{Response, http_error}
use drift_sentinel.Metrics.Registry.{Registry, Float64, record_admission, record_violation}
use drift_sentinel.Admission.Review.{
  GroupVersionResource, AdmissionRequest, AdmissionReview, Decision, Json, new_response,
  decode_review, encode_review,
}
use drift_sentinel.Admission.Flow.{Unmarshalled, Validator}
use drift_sentinel.Admission.Validator.{validate}

-- What the handler reads of an `http.Request`: the method, and the body with the error of its reading.
pub record Request : Type 0 where
  pub method : Text
  pub body : Result Text

unfoldable pub format_resource : GroupVersionResource → Text
format_resource resource =
    if text_eq resource.group []
    then resource.version ++ b'/' ∷ resource.resource
    else resource.group ++ b'/' ∷ (resource.version ++ b'/' ∷ resource.resource)

abbrev pub payload_response : Result Text → Response
payload_response (ok payload) = record {
  status = 200;
  headers = (codes "Content-Type", codes "application/json") ∷ [];
  body = payload;
}
payload_response (err e) = http_error [] (codes "failed to encode admission response") 500
payload_response out_of_fuel = http_error [] (codes "failed to encode admission response") 500

unfoldable pub write_admission_response : Json → AdmissionReview → Response
unfolding encode_review
write_admission_response json review = payload_response (encode_review json review)

-- The loop over the denied paths.
unfoldable pub record_denied : Text → Text → Text → Registry → List Text → Registry
record_denied namespace resource mode r [] = r
record_denied namespace resource mode r (path ∷ paths) =
    record_denied namespace resource mode (record_violation r namespace resource path mode) paths

-- The status code of the response.
unfoldable pub response_code : Decision → ℕ
response_code decision =
    if decision.allowed then 0 else if decision.status_code == 0 then 403 else decision.status_code

-- The response to a decision.
unfoldable pub answer : AdmissionRequest → Decision → AdmissionReview
unfolding response_code new_response
answer req decision =
    new_response req.uid decision.allowed (response_code decision) decision.reason decision.warnings

-- What a decision that took that long adds to the metrics.
unfoldable pub record_decision :
    ⦃f : Float64⦄ → AdmissionRequest → Decision → ℕ → Registry → Registry
unfolding format_resource record_denied record_admission
record_decision req decision duration r =
    let resource = format_resource req.resource in
    let counted = record_admission r req.namespace resource decision.result duration in
    if decision.allowed
    then counted
    else record_denied req.namespace resource decision.mode counted decision.denied_paths

module _ ⦃u : Unicode⦄ ⦃f : Float64⦄ (unmarshal : Text → Unmarshalled) (json : Json)
    (v : Validator) where
  unfoldable pub serve_review : Option AdmissionRequest → ℕ → Registry → Response × Registry
  unfolding validate record_decision write_admission_response answer new_response
  serve_review none duration r = (
    write_admission_response json
        (new_response [] false 400 (codes "missing admission request") []),
    r,
  )
  serve_review (some req) duration r =
      let decision = validate unmarshal v req in
      (write_admission_response json (answer req decision), record_decision req decision duration r)

  abbrev pub serve_decoded : Result AdmissionReview → ℕ → Registry → Response × Registry
  serve_decoded (ok review) duration r = serve_review review.request duration r
  serve_decoded (err e) duration r = (http_error [] (codes "invalid admission review") 400, r)
  serve_decoded out_of_fuel duration r = (http_error [] (codes "invalid admission review") 400, r)

  abbrev pub serve_body : Result Text → ℕ → Registry → Response × Registry
  serve_body (ok content) duration r = serve_decoded (decode_review json content) duration r
  serve_body (err e) duration r = (http_error [] (codes "failed to read request body") 400, r)
  serve_body out_of_fuel duration r = (http_error [] (codes "failed to read request body") 400, r)

  -- The response, and the metrics after it. The duration is the time since the body began to be read.
  unfoldable pub serve_http : Request → ℕ → Registry → Response × Registry
  unfolding decode_review serve_review
  serve_http request duration r =
      if not (text_eq request.method (codes "POST"))
      then (http_error ((codes "Allow", codes "POST") ∷ []) (codes "method not allowed") 405, r)
      else serve_body request.body duration r
