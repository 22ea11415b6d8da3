-- ===== src/Admission/Handler/Served.antt =====
-- The HTTP responses: to a request that carries an admission request, and to any other.
use mathlib.Core.Path.{subst}
use drift_sentinel.Base.{
  ℕ, true, false, [], Option, none, some, Bool-cases, ◌≡◌, ◌⊎◌, refl, sym, ap, ◌∙◌, inl, inr,
}
use drift_sentinel.Base.Text.{Text, Unicode, codes, text_eq}
use drift_sentinel.Base.Result.{Result, ok, err, out_of_fuel, wrap}
use drift_sentinel.Metrics.Registry.{Float64, Registry}
use drift_sentinel.Http.{Response}
use drift_sentinel.Admission.Review.{
  AdmissionRequest, AdmissionResponse, AdmissionReview, Decision, Json, admission_api_version,
  admission_kind, decode_review, encode_review, new_response,
}
use drift_sentinel.Admission.Flow.{Unmarshalled, Validator}
use drift_sentinel.Admission.Validator.{validate}
use drift_sentinel.Admission.Handler.{
  Request, answer, payload_response, serve_body, serve_decoded, serve_http, serve_review,
  write_admission_response,
}
use drift_sentinel.Admission.Handler.Answer.{Tells, Answers, answer-validate}
use drift_sentinel.Admission.Handler.Counts.{
  admission_request, body_request, record_request, review_request, serve_http-metrics,
}

-- The review that carries a response, with the version and kind of the API.
abbrev pub review_of : AdmissionResponse → AdmissionReview
review_of response = record {
  api_version = admission_api_version;
  kind = admission_kind;
  request = none;
  response = some response;
}

-- The encoding is sent with 200, or its failure with 500.
abbrev pub IsEncoding : Result Text → Response → Type 0
IsEncoding (ok payload) response = (response.status ≡ 200) × (response.body ≡ payload)
IsEncoding (err e) response = response.status ≡ 500
IsEncoding out_of_fuel response = response.status ≡ 500

abbrev pub Sends : Json → AdmissionReview → Response → Type 0
Sends json review response = IsEncoding (json.marshal review) response

payload_response-IsEncoding :
    (g : Text → Text) (m : Result Text) → IsEncoding m (payload_response (wrap g m))
payload_response-IsEncoding g (ok payload) = (refl, refl)
payload_response-IsEncoding g (err e) = refl
payload_response-IsEncoding g out_of_fuel = refl

write-Sends :
    (json : Json) (response : AdmissionResponse)
    → Sends json (review_of response) (write_admission_response json (review_of response))
unfolding write_admission_response encode_review
write-Sends json response = payload_response-IsEncoding _ (json.marshal (review_of response))

answer-review :
    (req : AdmissionRequest) (d : Decision) (o : Option AdmissionResponse)
    → (answer req d).response ≡ o
    → Answers req d o
    → (response : AdmissionResponse) × Tells req d response × (answer req d ≡ review_of response)
unfolding answer new_response
answer-review req d none e h = absurd h
answer-review req d (some response) e h = (
  response,
  h,
  λ i. record {
    api_version = admission_api_version;
    kind = admission_kind;
    request = none;
    response = e i;
  },
)

-- The denial of a review without an admission request.
abbrev pub missing_request : AdmissionResponse
missing_request = record {
  uid = [];
  allowed = false;
  status = some (record { code = 400; message = codes "missing admission request" });
  warnings = [];
}

-- No verdict of `Validate`: an HTTP error, or the denial that says that the request is missing.
abbrev pub Refuses : Json → Response → Type 0
Refuses json response = (response.status ≡ 400) ⊎ Sends json (review_of missing_request) response

module _ ⦃u : Unicode⦄ ⦃f : Float64⦄ (unmarshal : Text → Unmarshalled) (json : Json)
    (v : Validator) where
  -- The response, by the admission request alone where there is one.
  abbrev Reviewed : AdmissionRequest → Response → Type 0
  Reviewed req response =
      response ≡ write_admission_response json (answer req (validate unmarshal v req))

  serve_decoded-Reviewed :
      (g : Text → Text) (m : Result AdmissionReview) (duration : ℕ) (r : Registry)
      (req : AdmissionRequest)
      → review_request m ≡ some req
      → Reviewed req (serve_decoded unmarshal json v (wrap g m) duration r).0
  unfolding serve_review
  serve_decoded-Reviewed g (ok review) duration r req e = rw e refl
  serve_decoded-Reviewed g (err x) duration r req e = cc
  serve_decoded-Reviewed g out_of_fuel duration r req e = cc

  serve_body-Reviewed :
      (m : Result Text) (duration : ℕ) (r : Registry) (req : AdmissionRequest)
      → body_request json m ≡ some req
      → Reviewed req (serve_body unmarshal json v m duration r).0
  unfolding decode_review
  serve_body-Reviewed (ok content) duration r req e =
      serve_decoded-Reviewed _ (json.unmarshal content) duration r req e
  serve_body-Reviewed (err x) duration r req e = cc
  serve_body-Reviewed out_of_fuel duration r req e = cc

  serve_http-Reviewed :
      (request : Request) (duration : ℕ) (r : Registry) (req : AdmissionRequest)
      → admission_request json request ≡ some req
      → Reviewed req (serve_http unmarshal json v request duration r).0
  unfolding serve_http
  serve_http-Reviewed request duration r req e =
      elim (Bool-cases (text_eq request.method (codes "POST"))) [
        | inl b ↦ rw b (serve_body-Reviewed request.body duration r req (rw b at e))
        | inr b ↦
            let none_there : ◌≡◌ {A = Option AdmissionRequest} none (some req) = rw b at e in cc
      ]

  -- A request that carries an admission request (a POST with a body that decodes to one) is answered by
  -- the JSON of a review with the version and kind of the API, with the request's UID and the verdict of
  -- `Validate` for it: allowed or not, the warnings, and with a denial its status code and reason. The
  -- status is 200, or 500 if the encoding fails.
  pub serve_http-answers :
      (request : Request) (duration : ℕ) (r : Registry) (req : AdmissionRequest)
      → admission_request json request ≡ some req
      → (response : AdmissionResponse) × Tells req (validate unmarshal v req) response
        × Sends json (review_of response) (serve_http unmarshal json v request duration r).0
  serve_http-answers request duration r req e =
      let (response, tells, same) =
        answer-review req (validate unmarshal v req) _ refl (answer-validate unmarshal v req) in
      (
        response,
        tells,
        subst (Sends json (review_of response))
            (sym (
              serve_http-Reviewed request duration r req e
              ∙ ap (write_admission_response json) same))
            (write-Sends json response),
      )

  serve_review-Refuses :
      (o : Option AdmissionRequest) (duration : ℕ) (r : Registry)
      → o ≡ none
      → Refuses json (serve_review unmarshal json v o duration r).0
  unfolding serve_review new_response text_eq
  serve_review-Refuses none duration r e = inr (write-Sends json missing_request)
  serve_review-Refuses (some req) duration r e = cc

  serve_decoded-Refuses :
      (g : Text → Text) (m : Result AdmissionReview) (duration : ℕ) (r : Registry)
      → review_request m ≡ none
      → Refuses json (serve_decoded unmarshal json v (wrap g m) duration r).0
  serve_decoded-Refuses g (ok review) duration r e =
      serve_review-Refuses review.request duration r e
  serve_decoded-Refuses g (err x) duration r e = inl refl
  serve_decoded-Refuses g out_of_fuel duration r e = inl refl

  serve_body-Refuses :
      (m : Result Text) (duration : ℕ) (r : Registry)
      → body_request json m ≡ none
      → Refuses json (serve_body unmarshal json v m duration r).0
  unfolding decode_review
  serve_body-Refuses (ok content) duration r e =
      serve_decoded-Refuses _ (json.unmarshal content) duration r e
  serve_body-Refuses (err x) duration r e = inl refl
  serve_body-Refuses out_of_fuel duration r e = inl refl

  -- A request that carries no admission request is never allowed and changes no metric: if it is no POST
  -- it gets 405; else 400, or the JSON of a denial with the code 400 and the message "missing admission
  -- request" (sent with 200, or with 500 if the encoding fails).
  pub serve_http-Refuses :
      (request : Request) (duration : ℕ) (r : Registry)
      → admission_request json request ≡ none
      → ((serve_http unmarshal json v request duration r).1 ≡ r)
        × (((text_eq request.method (codes "POST") ≡ false)
              × ((serve_http unmarshal json v request duration r).0.status ≡ 405))
            ⊎ ((text_eq request.method (codes "POST") ≡ true)
                × Refuses json (serve_http unmarshal json v request duration r).0))
  serve_http-Refuses request duration r e = (
    serve_http-metrics unmarshal json v request duration r
        ∙ ap (λ o. record_request unmarshal json v o duration r) e,
    unfold serve_http in
        elim (Bool-cases (text_eq request.method (codes "POST"))) [
          | inl b ↦ rw b (inr (refl, serve_body-Refuses request.body duration r (rw b at e)))
          | inr b ↦ rw b (inl (refl, refl))
        ],
  )
