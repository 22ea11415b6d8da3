-- ===== src/Tests/Handler.antt =====
-- pkg/admission/handler.go at concrete requests.
use drift_sentinel.Base.{◌%◌, true, false, List, [], ◌∷◌, none, some, if◌then◌else◌, ◌≡◌, ◌⊎◌, refl}
use drift_sentinel.Base.Text.{Text, codes, text_eq}
use drift_sentinel.Base.Result.{ok, err}
use drift_sentinel.Metrics.Labels.{uint64_size}
use drift_sentinel.Metrics.Registry.{new_registry}
use drift_sentinel.Metrics.Counters.{Violation}
use drift_sentinel.Admission.Review.{AdmissionResponse, Json}
use drift_sentinel.Admission.Validator.{validate}
use drift_sentinel.Admission.Handler.{Request, serve_http}
use drift_sentinel.Admission.Handler.Answer.{Tells}
use drift_sentinel.Admission.Handler.Counts.{
  Call, count_carried, serve_all, serve_all-duration_count,
}
use drift_sentinel.Admission.Handler.Served.{
  Refuses, Sends, review_of, serve_http-answers, serve_http-Refuses,
}
use drift_sentinel.Tests.{ascii}
use drift_sentinel.Tests.Admission.{request, strict, unmarshal}
use drift_sentinel.Tests.Metrics.{on_path, whole}

-- A body is the request of the other tests, or no JSON.
abbrev pub json : Json
json = record {
  unmarshal = λ content.
      if text_eq content (codes "review")
      then ok (record { api_version = []; kind = []; request = some request; response = none })
      else err (codes "unexpected end of JSON input");
  marshal = λ review. ok (codes "{}");
}

abbrev pub post : Text → Request
post content = record { method = codes "POST"; body = ok content }

serve_http-answers_example :
    (response : AdmissionResponse) × Tells request (validate unmarshal strict request) response
    × Sends json
        (review_of response)
        (serve_http unmarshal json strict (post (codes "review")) 0 new_registry).0
unfolding text_eq
serve_http-answers_example =
    serve_http-answers unmarshal json strict (post (codes "review")) 0 new_registry request refl

serve_http-Refuses_example :
    ((serve_http unmarshal json strict (post (codes "x")) 0 new_registry).1 ≡ new_registry)
    × (((text_eq (codes "POST") (codes "POST") ≡ false)
          × ((serve_http unmarshal json strict (post (codes "x")) 0 new_registry).0.status ≡ 405))
        ⊎ ((text_eq (codes "POST") (codes "POST") ≡ true)
            × Refuses json (serve_http unmarshal json strict (post (codes "x")) 0 new_registry).0))
unfolding text_eq
serve_http-Refuses_example =
    serve_http-Refuses unmarshal json strict (post (codes "x")) 0 new_registry refl

abbrev calls : List Call
calls =
    (record { request = post (codes "review"); duration = 7 })
    ∷ (record { request = post (codes "x"); duration = 7 })
    ∷ []

serve_all-duration_count_example :
    (serve_all unmarshal json strict calls new_registry).duration_count
    ≡ count_carried unmarshal json strict calls % uint64_size
serve_all-duration_count_example = serve_all-duration_count unmarshal json strict calls

abbrev violation : Violation
violation = record on_path { field = codes "spec.image" }
