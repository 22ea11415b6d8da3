-- ===== src/Diff/Parse/Steps.antt =====
-- How the loop of `ParsePath` takes each form of segment.
use drift_sentinel.Base.{
  ℕ, zero, suc, ◌≤◌, true, false, not, [], ◌∷◌, ◌++◌, ◌==◌, length, length-append, all, some, ◌≡◌,
  refl, ap, ◌∙◌, append_assoc, append-nil, arith,
}
use drift_sentinel.Base.Text.{Text, cut_at, codes, Unicode, text_eq, trim_space, is_ascii_digit}
use drift_sentinel.Base.Number.{ℤ, number, atoi}
use drift_sentinel.Base.Result.{ok}
use drift_sentinel.Diff.Segment.{Segment, Segments, field, field_wildcard, index, index_wildcard}
use drift_sentinel.Diff.Parse.{
  span, ends_token, bracket_close, parse_bracket_segment, token_segment, segments_loop, parse_path,
  quoted_segment, index_segment, close_quoted,
}

-- A text that ends, or goes on with a separator.
abbrev pub AtSeparator : Text → Type 0
AtSeparator [] = Unit
AtSeparator (c ∷ s) = ends_token c ≡ true

pub span-token :
    (token rest : Text)
    → all (λ c. not (ends_token c)) token ≡ true
    → AtSeparator rest
    → span ends_token (token ++ rest) ≡ (token, rest)
unfolding span
span-token [] [] h a = refl
span-token [] (c ∷ rest) h a = rw a
span-token (c ∷ token) rest h a =
    let here : ends_token c ≡ false = ground arith in
    let later : all (λ d. not (ends_token d)) token ≡ true = ground arith in
    rw (here, span-token token rest later a)

pub cut_at-append :
    (q : ℕ) (before after : Text)
    → all (λ c. not (c == q)) before ≡ true
    → cut_at q (before ++ q ∷ after) ≡ some (before, after)
unfolding cut_at
cut_at-append q [] after h = ground arith
cut_at-append q (c ∷ before) after h =
    let here : (c == q) ≡ false = ground arith in
    let later : all (λ d. not (d == q)) before ≡ true = ground arith in
    rw (here, cut_at-append q before after later)

digits_not_close :
    (s : Text) → all is_ascii_digit s ≡ true → all (λ c. not (c == bracket_close)) s ≡ true
digits_not_close [] h = refl
digits_not_close (c ∷ s) h = ground (arith, digits_not_close s)

digit_not : (c q : ℕ) (s : Text) → q ≤ 42 → all is_ascii_digit (c ∷ s) ≡ true → (c == q) ≡ false
digit_not c q s l h = ground arith

module _ ⦃u : Unicode⦄ where
  -- The loop reads `segments` off the whole of `rest`, with fuel for its length.
  abbrev pub Parses : Text → Segments → Type 0
  Parses rest segments =
      (fuel : ℕ) (value input : Text) (acc : Segments)
      → length rest ≤ fuel
      → segments_loop fuel value input rest acc ≡ ok (acc ++ segments)

  pub Parses-nil : Parses [] []
  unfolding segments_loop
  Parses-nil zero value input acc h = rw append-nil
  Parses-nil (suc fuel) value input acc h = rw append-nil

  pub Parses-dot :
      (rest : Text) (segments : Segments) → Parses rest segments → Parses (b'.' ∷ rest) segments
  unfolding segments_loop
  Parses-dot rest segments h zero value input acc l = absurd (omega arith)
  Parses-dot rest segments h (suc fuel) value input acc l = h fuel value input acc (omega arith)

  pub Parses-bracket :
      (body rest : Text) (s : Segment) (segments : Segments)
      → ((input : Text) → parse_bracket_segment input body ≡ ok (s, rest))
      → length rest ≤ length body
      → Parses rest segments
      → Parses (b'[' ∷ body) (s ∷ segments)
  unfolding segments_loop
  Parses-bracket body rest s segments b k h zero value input acc l = absurd (omega arith)
  Parses-bracket body rest s segments b k h (suc fuel) value input acc l = rw (b input) (
      h fuel value input (acc ++ s ∷ []) (omega arith)
      ∙ ap (λ x. ok x) (append_assoc acc (s ∷ []) segments))

  pub Parses-token :
      (c : ℕ) (token rest : Text) (s : Segment) (segments : Segments)
      → all (λ d. not (ends_token d)) (c ∷ token) ≡ true
      → ((value : Text) → token_segment value (c ∷ token) ≡ ok s)
      → AtSeparator rest
      → Parses rest segments
      → Parses (c ∷ (token ++ rest)) (s ∷ segments)
  unfolding segments_loop
  Parses-token c token rest s segments k t a h zero value input acc l = absurd (omega arith)
  Parses-token c token rest s segments k t a h (suc fuel) value input acc l =
      let dot : (c == b'.') ≡ false = ground arith in
      let bracket : (c == b'[') ≡ false = ground arith in
      let later : all (λ d. not (ends_token d)) token ≡ true = ground arith in
      rw (dot, bracket, span-token token rest later a, t value)
        (h fuel value input (acc ++ s ∷ []) (omega (arith, length-append {0} token rest))
          ∙ ap (λ x. ok x) (append_assoc acc (s ∷ []) segments))

  -- The forms of a bracket.
  pub bracket_wildcard :
      (input rest : Text)
      → parse_bracket_segment input (b'*' ∷ bracket_close ∷ rest) ≡ ok (index_wildcard, rest)
  unfolding parse_bracket_segment
  bracket_wildcard input rest = refl

  quoted_segment-key :
      (input key rest : Text)
      → all (λ c. not (c == b'\'')) key ≡ true
      → quoted_segment input b'\'' (key ++ b'\'' ∷ bracket_close ∷ rest) ≡ ok (field key, rest)
  unfolding quoted_segment close_quoted
  quoted_segment-key input key rest h =
      rw (cut_at-append b'\'' key (bracket_close ∷ rest) h, quoted_segment)

  pub bracket_quoted :
      (input key rest : Text)
      → all (λ c. not (c == b'\'')) key ≡ true
      → parse_bracket_segment input (b'\'' ∷ (key ++ b'\'' ∷ bracket_close ∷ rest))
        ≡ ok (field key, rest)
  unfolding parse_bracket_segment
  bracket_quoted input [] rest h = quoted_segment-key input [] rest h
  bracket_quoted input (c ∷ key) rest h = quoted_segment-key input (c ∷ key) rest h

  index_segment-digits :
      (input literal rest : Text) (i : ℤ)
      → all is_ascii_digit literal ≡ true
      → atoi literal ≡ number i
      → index_segment input (literal ++ bracket_close ∷ rest) ≡ ok (index i, rest)
  unfolding index_segment
  index_segment-digits input literal rest i h e =
      rw (cut_at-append bracket_close literal rest (digits_not_close literal h), index_segment)
        (rw e)

  pub bracket_index :
      (input : Text) (c : ℕ) (literal rest : Text) (i : ℤ)
      → all is_ascii_digit (c ∷ literal) ≡ true
      → atoi (c ∷ literal) ≡ number i
      → parse_bracket_segment input (c ∷ (literal ++ bracket_close ∷ rest)) ≡ ok (index i, rest)
  unfolding parse_bracket_segment
  bracket_index input c [] rest i h e =
      rw
        (
          digit_not c b'*' [] (omega arith) h,
          digit_not c b'\'' [] (omega arith) h,
          digit_not c b'"' [] (omega arith) h,
        )
        (index_segment-digits input (c ∷ []) rest i h e)
  bracket_index input c (d ∷ literal) rest i h e =
      rw
        (
          digit_not c b'*' (d ∷ literal) (omega arith) h,
          digit_not c b'\'' (d ∷ literal) (omega arith) h,
          digit_not c b'"' (d ∷ literal) (omega arith) h,
        )
        (index_segment-digits input (c ∷ d ∷ literal) rest i h e)

  -- The forms of a token.
  pub bare_segment :
      (value : Text) (c : ℕ) (key : Text)
      → (c == b'*') ≡ false
      → token_segment value (c ∷ key) ≡ ok (field (c ∷ key))
  unfolding token_segment text_eq
  bare_segment value c key h = rw h

  pub star_segment : (value : Text) → token_segment value (codes "*") ≡ ok field_wildcard
  unfolding token_segment text_eq
  star_segment value = refl

  -- A text with nothing to trim is read by the loop.
  pub parse_path-loop :
      (value : Text) (segments : Segments)
      → trim_space value ≡ value
      → text_eq value [] ≡ false
      → segments_loop (length value) value value value [] ≡ ok segments
      → parse_path value ≡ ok (record { raw = value; segments = segments })
  unfolding parse_path
  parse_path-loop value segments t n h = rw (t, n, h)
