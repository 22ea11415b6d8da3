-- ===== src/Health.antt =====
-- pkg/health/health.go.
use drift_sentinel.Base.{[], ◌∷◌, ◌++◌, not, ◌≡◌, refl, if◌then◌else◌}
use drift_sentinel.Base.Text.{Text, codes, text_eq}
use drift_sentinel.Http.{Response, http_error}

-- The response of `Handler` to a request with that method.
unfoldable pub health : Text → Response
unfolding text_eq
health method =
    if not (text_eq method (codes "GET"))
    then http_error ((codes "Allow", codes "GET") ∷ []) (codes "method not allowed") 405
    else record {
      status = 200;
      headers = (codes "Content-Type", codes "text/plain; charset=utf-8") ∷ [];
      body = codes "ok" ++ 10 ∷ [];
    }

health_get : health (codes "GET") ≡ record {
  status = 200;
  headers = (codes "Content-Type", codes "text/plain; charset=utf-8") ∷ [];
  body = codes "ok" ++ 10 ∷ [];
}
unfolding health
health_get = refl
