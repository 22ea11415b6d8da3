-- ===== src/Diff/RoundTrip.antt =====
-- pkg/diff/paths.go: the texts of `RenderPath` under `ParsePath`.
use drift_sentinel.Base.{
  ℕ, suc, ◌≤◌, true, not, [], ◌∷◌, ◌++◌, ◌==◌, all, length, length-append, ◌≡◌, refl, append_assoc,
  arith, Bool-cases, inl, inr,
}
use drift_sentinel.Base.Text.{Text, codes, Unicode, is_ascii_digit}
use drift_sentinel.Base.Number.{
  pos, negsuc, max_int, print_int, decimal, all-digits, atoi, number, atoi-decimal,
}
use drift_sentinel.Base.Result.{ok}
use drift_sentinel.Diff.Segment.{Segment, Segments, field, field_wildcard, index, index_wildcard}
use drift_sentinel.Diff.Render.{
  is_bare_char, is_bare_identifier, escape_key, quoted, is_wildcard, render_first, render_next,
  render_after, render_path,
}
use drift_sentinel.Diff.Render.Shape.{
  is_bare_char-plain, trim_space-render, render-ne_nil, render_path-cons,
}
use drift_sentinel.Diff.Parse.{ends_token, parse_path, bracket_close}
use drift_sentinel.Diff.Parse.Steps.{
  AtSeparator, Parses, Parses-nil, Parses-dot, Parses-bracket, Parses-token, bracket_wildcard,
  bracket_quoted, bracket_index, bare_segment, star_segment, parse_path-loop,
}

-- A key without a single quote, an index of the type `int` that is not negative, or a wildcard.
abbrev pub IsPrintable : Segment → Type 0
IsPrintable (field key) = all (λ c. not (c == b'\'')) key ≡ true
IsPrintable (index (pos n)) = n ≤ max_int
IsPrintable (index (negsuc n)) = ⊥
IsPrintable field_wildcard = Unit
IsPrintable index_wildcard = Unit

abbrev pub ArePrintable : Segments → Type 0
ArePrintable [] = Unit
ArePrintable (s ∷ ss) = IsPrintable s × ArePrintable ss

escape_key-eq : (key : Text) → all (λ c. not (c == b'\'')) key ≡ true → escape_key key ≡ key
unfolding escape_key
escape_key-eq [] h = refl
escape_key-eq (c ∷ key) h = ground (arith, escape_key-eq key)

module _ ⦃u : Unicode⦄ where
  bare_token : (key : Text) → all is_bare_char key ≡ true → all (λ d. not (ends_token d)) key ≡ true
  bare_token [] h = refl
  bare_token (c ∷ key) h = ground (arith, is_bare_char-plain c, bare_token key)

  Parses-bare :
      (key rest : Text) (ss : Segments)
      → is_bare_identifier key ≡ true
      → AtSeparator rest
      → Parses rest ss
      → Parses (key ++ rest) (field key ∷ ss)
  unfolding is_bare_identifier
  Parses-bare [] rest ss h a p = cc
  Parses-bare (c ∷ key) rest ss h a p =
      let here : is_bare_char c ≡ true = ground arith in
      Parses-token c key rest (field (c ∷ key)) ss (bare_token (c ∷ key) h)
        (λ value. bare_segment value c key ((is_bare_char-plain c here).2)) a p

  Parses-quoted :
      (key rest : Text) (ss : Segments)
      → all (λ c. not (c == b'\'')) key ≡ true
      → Parses rest ss
      → Parses (quoted key ++ rest) (field key ∷ ss)
  Parses-quoted key rest ss h p =
      rw (escape_key-eq key h, append_assoc key (codes "']") rest)
        (Parses-bracket (b'\'' ∷ (key ++ b'\'' ∷ bracket_close ∷ rest)) rest (field key) ss
          (λ input. bracket_quoted input key rest h)
          (omega (arith, length-append {0} key (b'\'' ∷ bracket_close ∷ rest))) p)

  Parses-digits :
      (literal rest : Text) (n : ℕ) (ss : Segments)
      → all is_ascii_digit literal ≡ true
      → atoi literal ≡ number (pos n)
      → Parses rest ss
      → Parses (b'[' ∷ (literal ++ bracket_close ∷ rest)) (index (pos n) ∷ ss)
  Parses-digits [] rest n ss h e p = unfold atoi in cc e
  Parses-digits (c ∷ literal) rest n ss h e p =
      Parses-bracket (c ∷ (literal ++ bracket_close ∷ rest)) rest (index (pos n)) ss
        (λ input. bracket_index input c literal rest (pos n) h e)
        (omega (arith, length-append {0} literal (bracket_close ∷ rest))) p

  Parses-index :
      (n : ℕ) (rest : Text) (ss : Segments)
      → n ≤ max_int
      → Parses rest ss
      → Parses ((codes "[" ++ (print_int (pos n) ++ codes "]")) ++ rest) (index (pos n) ∷ ss)
  unfolding print_int
  Parses-index n rest ss h p =
      rw (append_assoc (decimal n) (codes "]") rest)
        (Parses-digits (decimal n) rest n ss (all-digits (suc n) n [] refl) (atoi-decimal n h) p)

  -- A segment behind another, and the first one.
  Parses-next :
      (previous s : Segment) (rest : Text) (ss : Segments)
      → IsPrintable s
      → AtSeparator rest
      → Parses rest ss
      → Parses (render_next previous s ++ rest) (s ∷ ss)
  unfolding render_next
  Parses-next previous (field key) rest ss h a p = elim (Bool-cases (is_bare_identifier key)) [
    | inl e ↦ rw e (Parses-dot (key ++ rest) (field key ∷ ss) (Parses-bare key rest ss e a p))
    | inr e ↦ elim (Bool-cases (is_wildcard previous)) [
      | inl w ↦
          rw (e, w)
            (Parses-dot (quoted key ++ rest) (field key ∷ ss) (Parses-quoted key rest ss h p))
      | inr w ↦ rw (e, w) (Parses-quoted key rest ss h p)
    ]
  ]
  Parses-next previous field_wildcard rest ss h a p =
      Parses-dot (b'*' ∷ rest) (field_wildcard ∷ ss)
        (Parses-token b'*' [] rest field_wildcard ss refl star_segment a p)
  Parses-next previous (index (pos n)) rest ss h a p = Parses-index n rest ss h p
  Parses-next previous (index (negsuc n)) rest ss h a p = absurd h
  Parses-next previous index_wildcard rest ss h a p =
      Parses-bracket (b'*' ∷ bracket_close ∷ rest) rest index_wildcard ss
        (λ input. bracket_wildcard input rest) (omega arith) p

  Parses-first :
      (s : Segment) (rest : Text) (ss : Segments)
      → IsPrintable s
      → AtSeparator rest
      → Parses rest ss
      → Parses (render_first s ++ rest) (s ∷ ss)
  unfolding render_first
  Parses-first (field key) rest ss h a p = elim (Bool-cases (is_bare_identifier key)) [
    | inl e ↦ rw e (Parses-bare key rest ss e a p)
    | inr e ↦ rw e (Parses-quoted key rest ss h p)
  ]
  Parses-first field_wildcard rest ss h a p =
      Parses-token b'*' [] rest field_wildcard ss refl star_segment a p
  Parses-first (index (pos n)) rest ss h a p = Parses-index n rest ss h p
  Parses-first (index (negsuc n)) rest ss h a p = absurd h
  Parses-first index_wildcard rest ss h a p =
      Parses-bracket (b'*' ∷ bracket_close ∷ rest) rest index_wildcard ss
        (λ input. bracket_wildcard input rest) (omega arith) p

  AtSeparator-after : (previous : Segment) (ss : Segments) → AtSeparator (render_after previous ss)
  unfolding render_after render_next
  AtSeparator-after previous [] = tt
  AtSeparator-after previous (field key ∷ ss) = elim (Bool-cases (is_bare_identifier key)) [
    | inl e ↦ rw e
    | inr e ↦ elim (Bool-cases (is_wildcard previous)) [ inl w ↦ rw (e, w) | inr w ↦ rw (e, w) ]
  ]
  AtSeparator-after previous (index (pos n) ∷ ss) = refl
  AtSeparator-after previous (_ ∷ ss) = refl

  Parses-after :
      (previous : Segment) (ss : Segments) → ArePrintable ss → Parses (render_after previous ss) ss
  unfolding render_after
  Parses-after previous [] h = Parses-nil
  Parses-after previous (s ∷ ss) h =
      Parses-next previous s (render_after s ss) ss h.0 (AtSeparator-after s ss)
        (Parses-after s ss h.1)

  -- A path with some segment that `RenderPath` writes is read back by `ParsePath`: the same segments, and
  -- the text as `Raw`. The keys hold no single quote, and the indices are those of a list.
  pub parse_path-render_path :
      (s : Segment) (ss : Segments)
      → ArePrintable (s ∷ ss)
      → parse_path (render_path (s ∷ ss))
        ≡ ok (record { raw = render_path (s ∷ ss); segments = s ∷ ss })
  parse_path-render_path s ss h =
      let t : Text = render_first s ++ render_after s ss in
      let run =
        Parses-first s (render_after s ss) ss h.0 (AtSeparator-after s ss) (Parses-after s ss h.1)
          (length t) t t [] (omega arith) in
      rw render_path-cons
        (parse_path-loop t (s ∷ ss) (trim_space-render s ss) (render-ne_nil s ss) run)
