-- ===== src/Metrics/Labels/Escape.antt =====
-- What the escaping of label values does to the values that are printed by %q.
use mathlib.Core.Path.{subst}
use drift_sentinel.Base.{
  ℕ, ◌+◌, ◌<◌, [], ◌∷◌, ◌++◌, length, length-append, ◌≡◌, ◌↔◌, ◌⊎◌, refl, sym, ap, ◌∙◌, inl, inr,
  Bool-cases, ◌==◌, Bool, true, false, not, ◌&&◌, all, arith, append_assoc,
}
use drift_sentinel.Base.Text.{Text, Unicode, join, text_eq_refl}
use drift_sentinel.Base.Sort.{sort}
use drift_sentinel.Base.Assoc.{find}
use drift_sentinel.Base.Quote.{escape, escape_char, quote}
use drift_sentinel.Metrics.Labels.{
  escape_label_char, escape_label_value, format_labels, sorted_names,
}

-- No backslash, no newline and no double quote.
abbrev pub is_unescaped : ℕ → Bool
is_unescaped c = not (c == 92) && not (c == 10) && not (c == 34)

module _ ⦃u : Unicode⦄ where
  escape-append : (s t : Text) → escape (s ++ t) ≡ escape s ++ escape t
  unfolding escape
  escape-append [] t = refl
  escape-append (c ∷ s) t =
      ap (λ x. escape_char c ++ x) (escape-append s t)
      ∙ sym (append_assoc (escape_char c) (escape s) (escape t))

  -- Escaped twice, a character takes more room than once, or it is none of the three.
  abbrev Grows : ℕ → Type 0
  Grows c =
      (length (escape (c ∷ [])) < length (escape (escape_label_char c)))
      ⊎ ((escape_label_char c ≡ c ∷ []) × (is_unescaped c ≡ true))

  escape_label_char-Grows : (c : ℕ) → Grows c
  unfolding escape escape_char
  escape_label_char-Grows c = elim (Bool-cases (c == 92)) [
    | inl e ↦ let same : c ≡ 92 = ground arith in subst Grows (sym same) (inl (omega arith))
    | inr e ↦ elim (Bool-cases (c == 10)) [
      | inl f ↦ let same : c ≡ 10 = ground arith in subst Grows (sym same) (inl (omega arith))
      | inr f ↦ elim (Bool-cases (c == 34)) [
        | inl g ↦ let same : c ≡ 34 = ground arith in subst Grows (sym same) (inl (omega arith))
        | inr g ↦ inr (rw (e, f, g) (refl, refl))
      ]
    ]
  ]

  length-escape_cons :
      (c : ℕ) (s : Text) → length (escape (c ∷ s)) ≡ length (escape (c ∷ [])) + length (escape s)
  length-escape_cons c s =
      ap length (escape-append (c ∷ []) s) ∙ length-append (escape (c ∷ [])) (escape s)

  length-escape_value_cons :
      (c : ℕ) (s : Text)
      → length (escape (escape_label_value (c ∷ s)))
        ≡ length (escape (escape_label_char c)) + length (escape (escape_label_value s))
  unfolding escape_label_value
  length-escape_value_cons c s =
      ap length (escape-append (escape_label_char c) (escape_label_value s))
      ∙ length-append (escape (escape_label_char c)) (escape (escape_label_value s))

  -- A text takes more room, or it has none of the three.
  escape_label_value-Grows :
      (s : Text)
      → (length (escape s) < length (escape (escape_label_value s)))
        ⊎ ((escape_label_value s ≡ s) × (all is_unescaped s ≡ true))
  unfolding escape_label_value
  escape_label_value-Grows [] = inr (refl, refl)
  escape_label_value-Grows (c ∷ s) =
      let one = length-escape_cons c s in
      let two = length-escape_value_cons c s in
      elim (escape_label_char-Grows c) [
        | inl a ↦ elim (escape_label_value-Grows s) [
          | inl b ↦ inl (omega (arith, one, two))
          | inr (b, k) ↦
              let same = ap (λ t. length (escape t)) b in inl (omega (arith, one, two, same))
        ]
        | inr (a, k) ↦
            let same = ap (λ t. length (escape t)) a in
            elim (escape_label_value-Grows s) [
              | inl b ↦ inl (omega (arith, one, two, same))
              | inr (b, l) ↦ inr (rw (a, b) refl, rw (k, l) refl)
            ]
      ]

  all-unescaped : (s : Text) → all is_unescaped s ≡ true → escape_label_value s ≡ s
  unfolding escape_label_value
  all-unescaped [] h = refl
  all-unescaped (c ∷ s) h =
      let backslash : (c == 92) ≡ false = ground arith in
      let newline : (c == 10) ≡ false = ground arith in
      let quotes : (c == 34) ≡ false = ground arith in
      rw (backslash, newline, quotes, all-unescaped s (ground arith)) refl

  format_labels-single :
      (name value : Text)
      → format_labels ((name, value) ∷ [])
        ≡ name ++ b'=' ∷ (b'"' ∷ (escape (escape_label_value value) ++ b'"' ∷ []))
  unfolding format_labels sorted_names sort find join quote
  format_labels-single name value = rw (text_eq_refl name) refl

  length-quoted :
      (name s : Text)
      → length (name ++ b'=' ∷ (b'"' ∷ (escape s ++ b'"' ∷ [])))
        ≡ length name + length (escape s) + 3
  length-quoted name s =
      let one = length-append name (b'=' ∷ (b'"' ∷ (escape s ++ b'"' ∷ []))) in
      let two = length-append (escape s) (b'"' ∷ []) in omega (arith, one, two)

  -- The text of a single label holds its value as %q prints it exactly if the value has no backslash, no
  -- newline and no double quote.
  pub format_labels-quote :
      (name value : Text)
      → (format_labels ((name, value) ∷ []) ≡ name ++ b'=' ∷ quote value)
        ↔ (all is_unescaped value ≡ true)
  unfolding quote
  format_labels-quote name value = (
    λ h. elim (escape_label_value-Grows value) [
      | inl longer ↦
          let same = ap length (sym (format_labels-single name value) ∙ h) in
          let one = length-quoted name (escape_label_value value) in
          let two = length-quoted name value in absurd (omega (arith, longer, same, one, two))
      | inr (_, unescaped) ↦ unescaped
    ],
    λ h. format_labels-single name value ∙ rw (all-unescaped value h) refl,
  )
