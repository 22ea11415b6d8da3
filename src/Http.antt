-- ===== src/Http.antt =====
-- The responses of the HTTP handlers, and `http.Error` of the package net/http.
use drift_sentinel.Base.{ℕ, [], ◌∷◌, ◌++◌}
use drift_sentinel.Base.Text.{Text, codes}
use drift_sentinel.Rules.Types.{TextMap}

pub record Response : Type 0 where
  pub status : ℕ
  pub headers : TextMap
  pub body : Text

-- `http.Error`, with the headers set before.
abbrev pub http_error : TextMap → Text → ℕ → Response
http_error headers message status = record {
  status = status;
  headers =
      (codes "Content-Type", codes "text/plain; charset=utf-8")
      ∷ (codes "X-Content-Type-Options", codes "nosniff")
      ∷ headers;
  body = message ++ 10 ∷ [];
}
