-- ===== src/Rules/Config/Print/Keys.antt =====
-- How one key of a canonical rule text is read.
use drift_sentinel.Base.{
  ℕ, suc, Bool, true, false, not, List, [], ◌∷◌, ◌++◌, some, ◌==◌, all, any, ◌≡◌, refl, ap, ◌∙◌,
  arith,
}
use drift_sentinel.Base.Text.{Text, Unicode, codes, is_space, text_eq, trim_left, trim_space}
use drift_sentinel.Base.Trim.{trim_space-append}
use drift_sentinel.Base.Number.{ℤ, atoi, number}
use drift_sentinel.Base.Result.{ok}
use drift_sentinel.Rules.Config.Line.{count_indent, quote_step, sanitize_line, split_key_value}
use drift_sentinel.Rules.Config.Spec.{
  RawRuleSpec, assign_inline_value, assign_pair, is_blank, spec_line,
}
use drift_sentinel.Rules.Config.Print.{IsInline, quoted}
use drift_sentinel.Rules.Config.Print.Lines.{
  parse_scalar-quoted, sanitize_line-quoted, trim_space-behind,
}

abbrev pub is_tab : ℕ → Bool
is_tab c = c == 9

no_tab : (s : Text) → all (λ c. not (c == 9)) s ≡ true → any is_tab (s ++ 34 ∷ []) ≡ false
no_tab [] h = refl
no_tab (c ∷ s) h = ground (arith, no_tab s)

module _ ⦃u : Unicode⦄ where
  -- A key at the top of the text, with its value.
  pub spec_line-pair :
      (line : ℕ) (parsed : RawRuleSpec) (text : Text) (lines : List Text) (key value : Text)
      → is_blank text ≡ false
      → any is_tab text ≡ false
      → (count_indent text == 0) ≡ true
      → split_key_value (trim_space text) ≡ some (key, value)
      → spec_line line parsed text lines ≡ assign_pair line parsed lines (some (key, value))
  spec_line-pair line parsed text lines key value blank tab indent split =
      unfold spec_line in rw (blank, tab, indent, split) refl

  pub inline_line :
      (line : ℕ) (parsed assigned : RawRuleSpec) (text : Text) (lines : List Text)
      (key value : Text)
      → is_blank value ≡ false
      → spec_line line parsed text lines ≡ assign_pair line parsed lines (some (key, value))
      → assign_inline_value parsed key value line ≡ ok assigned
      → spec_line line parsed text lines ≡ ok (assigned, (suc line, lines))
  inline_line line parsed assigned text lines key value filled e f = e ∙ rw (filled, f) refl

  assign_mode :
      (line : ℕ) (parsed : RawRuleSpec) (s : Text)
      → assign_inline_value parsed (codes "mode") (quoted s) line ≡ ok (record parsed { mode = s })
  assign_mode line parsed s =
      let scalar = parse_scalar-quoted s in unfold assign_inline_value text_eq in rw scalar refl

  assign_bypass :
      (line : ℕ) (parsed : RawRuleSpec) (s : Text)
      → assign_inline_value parsed (codes "bypass") (quoted s) line
        ≡ ok (record parsed { bypass = s })
  assign_bypass line parsed s =
      let scalar = parse_scalar-quoted s in unfold assign_inline_value text_eq in rw scalar refl

  pub assign_priority :
      (line : ℕ) (parsed : RawRuleSpec) (s : Text) (a : ℤ)
      → trim_space s ≡ s
      → atoi s ≡ number a
      → assign_inline_value parsed (codes "priority") s line ≡ ok (record parsed { priority = a })
  assign_priority line parsed s a trimmed e =
      unfold assign_inline_value text_eq in rw (trimmed, e) refl

trim_mode : (s : Text) → trim_space (codes "mode: " ++ quoted s) ≡ codes "mode: " ++ quoted s
unfolding trim_left is_space
trim_mode s = trim_space-append (codes "mode: " ++ 34 ∷ s) 34 refl

trim_bypass : (s : Text) → trim_space (codes "bypass: " ++ quoted s) ≡ codes "bypass: " ++ quoted s
unfolding trim_left is_space
trim_bypass s = trim_space-append (codes "bypass: " ++ 34 ∷ s) 34 refl

split_mode :
    (s value : Text)
    → trim_space (32 ∷ s) ≡ value
    → split_key_value (codes "mode: " ++ s) ≡ some (codes "mode", value)
unfolding split_key_value quote_step text_eq
split_mode s value e = rw e (unfold trim_space in refl)

split_bypass :
    (s value : Text)
    → trim_space (32 ∷ s) ≡ value
    → split_key_value (codes "bypass: " ++ s) ≡ some (codes "bypass", value)
unfolding split_key_value quote_step text_eq
split_bypass s value e = rw e (unfold trim_space in refl)

pub split_priority :
    (s value : Text)
    → trim_space (32 ∷ s) ≡ value
    → split_key_value (codes "priority: " ++ s) ≡ some (codes "priority", value)
unfolding split_key_value quote_step text_eq
split_priority s value e = rw e (unfold trim_space in refl)

module _ ⦃u : Unicode⦄ where
  pub mode_line :
      (line : ℕ) (parsed : RawRuleSpec) (s : Text) (lines : List Text)
      → IsInline s
      → spec_line line parsed (sanitize_line (codes "mode: " ++ quoted s)) lines
        ≡ ok (record parsed { mode = s }, (suc line, lines))
  mode_line line parsed s lines h =
      let text : Text = codes "mode: " ++ quoted s in
      rw (sanitize_line-quoted (codes "mode: ") s refl h.0) (
        inline_line line parsed (record parsed { mode = s }) text lines (codes "mode") (quoted s)
          refl
          (spec_line-pair line parsed text lines (codes "mode") (quoted s) refl (no_tab s h.1)
            (unfold count_indent in refl)
            (ap split_key_value (trim_mode s)
              ∙ split_mode (quoted s) (quoted s) (trim_space-behind s)))
          (assign_mode line parsed s))

  pub bypass_line :
      (line : ℕ) (parsed : RawRuleSpec) (s : Text) (lines : List Text)
      → IsInline s
      → spec_line line parsed (sanitize_line (codes "bypass: " ++ quoted s)) lines
        ≡ ok (record parsed { bypass = s }, (suc line, lines))
  bypass_line line parsed s lines h =
      let text : Text = codes "bypass: " ++ quoted s in
      rw (sanitize_line-quoted (codes "bypass: ") s refl h.0) (
        inline_line line parsed (record parsed { bypass = s }) text lines (codes "bypass")
          (quoted s) refl
          (spec_line-pair line parsed text lines (codes "bypass") (quoted s) refl (no_tab s h.1)
            (unfold count_indent in refl)
            (ap split_key_value (trim_bypass s)
              ∙ split_bypass (quoted s) (quoted s) (trim_space-behind s)))
          (assign_bypass line parsed s))
