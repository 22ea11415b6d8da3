-- ===== src/Rules/Config/Spec/Sound.antt =====
-- What the loop over the lines delivers.
use drift_sentinel.Base.{
  ℕ, zero, suc, ◌≤◌, not, List, [], ◌∷◌, Option, none, some, if-both, ◌==◌, leb, length, any, arith,
}
use drift_sentinel.Base.Text.{Text, Unicode, codes, text_eq, trim_space, split_at}
use drift_sentinel.Base.Number.{IsInt, atoi, Atoi, GivesInt, atoi-GivesInt, number, failed}
use drift_sentinel.Base.Result.{
  Delivers, delivers, fails, Delivers-bind, Delivers-wrap, Delivers-if,
}
use drift_sentinel.Rules.Config.Line.{count_indent, sanitize_line, split_key_value}
use drift_sentinel.Rules.Config.Spec.{
  RawRuleSpec, empty_spec, ListKey, set_list, assign_inline_value, assign_block_value, list_key,
  namespaces, labels, exclude, include, mutable, users, assign_pair, set_priority,
  assign_inline_list, assign_block_list, at_line, gather_indented_block, spec_line, spec_loop,
  parse_rule_spec, Position, is_blank,
}
use drift_sentinel.Rules.Config.Lists.Sound.{
  HaveKinds, parse_scalar-Delivers, parse_inline_list-Delivers, parse_string_list-Delivers,
  parse_selector_list-Delivers,
}

module _ ⦃u : Unicode⦄ where
  -- What the loop keeps of the spec.
  abbrev pub IsSound : RawRuleSpec → Type 0
  IsSound spec = IsInt spec.priority × HaveKinds spec.selectors

  set_list-IsSound :
      (spec : RawRuleSpec) (key : ListKey) (items : List Text)
      → IsSound spec
      → IsSound (set_list spec key items)
  set_list-IsSound spec namespaces items h = h
  set_list-IsSound spec labels items h = h
  set_list-IsSound spec exclude items h = h
  set_list-IsSound spec include items h = h
  set_list-IsSound spec mutable items h = h
  set_list-IsSound spec users items h = h

  set_priority-Delivers :
      (spec : RawRuleSpec) (text : Text) (line : ℕ) (n : Atoi)
      → IsSound spec
      → GivesInt n
      → Delivers IsSound (set_priority spec text line n)
  set_priority-Delivers spec text line (number n) h k = delivers (k, h.1)
  set_priority-Delivers spec text line (failed e) h k = fails

  assign_inline_list-Delivers :
      (spec : RawRuleSpec) (key value : Text) (line : ℕ) (list : Option ListKey)
      → IsSound spec
      → Delivers IsSound (assign_inline_list spec key value line list)
  assign_inline_list-Delivers spec key value line none h = fails
  assign_inline_list-Delivers spec key value line (some list) h =
      Delivers-bind (Delivers-wrap (at_line line) (parse_inline_list-Delivers value))
        λ items _. delivers (set_list-IsSound spec list items h)

  assign_inline_value-Delivers :
      (spec : RawRuleSpec) (key value : Text) (line : ℕ)
      → IsSound spec
      → Delivers IsSound (assign_inline_value spec key value line)
  unfolding assign_inline_value
  assign_inline_value-Delivers spec key value line h =
      Delivers-if (text_eq key (codes "mode"))
        (Delivers-bind (Delivers-wrap (at_line line) (parse_scalar-Delivers value))
          λ s _. delivers h)
        (Delivers-if (text_eq key (codes "priority"))
          (set_priority-Delivers spec (trim_space value) line (atoi (trim_space value)) h
            (atoi-GivesInt (trim_space value)))
          (Delivers-if (text_eq key (codes "bypass"))
            (Delivers-bind (Delivers-wrap (at_line line) (parse_scalar-Delivers value))
              λ s _. delivers h)
            (assign_inline_list-Delivers spec key value line (list_key key) h)))

  assign_block_list-Delivers :
      (spec : RawRuleSpec) (key : Text) (block : List Text) (line : ℕ) (list : Option ListKey)
      → IsSound spec
      → Delivers IsSound (assign_block_list spec key block line list)
  assign_block_list-Delivers spec key block line none h =
      Delivers-if (text_eq key (codes "selectors"))
        (Delivers-bind (Delivers-wrap (at_line line) (parse_selector_list-Delivers block))
          λ items kinds. delivers (h.0, kinds))
        fails
  assign_block_list-Delivers spec key block line (some list) h =
      Delivers-bind (Delivers-wrap (at_line line) (parse_string_list-Delivers block))
        λ items _. delivers (set_list-IsSound spec list items h)

  assign_block_value-Delivers :
      (spec : RawRuleSpec) (key : Text) (block : List Text) (line : ℕ)
      → IsSound spec
      → Delivers IsSound (assign_block_value spec key block line)
  unfolding assign_block_value
  assign_block_value-Delivers spec key block line h =
      assign_block_list-Delivers spec key block line (list_key key) h

  gather-length :
      (lines : List Text) (parent : ℕ)
      → length (gather_indented_block lines parent).2 ≤ length lines
  unfolding gather_indented_block
  gather-length [] parent = omega arith
  gather-length (line ∷ lines) parent =
      let ih = gather-length lines parent in
      if-both (λ (r : List Text × ℕ × List Text). length r.2 ≤ length (line ∷ lines))
        (is_blank (sanitize_line line)) (omega arith)
        (if-both (λ (r : List Text × ℕ × List Text). length r.2 ≤ length (line ∷ lines))
          (leb (count_indent (sanitize_line line)) parent) (omega arith) (omega arith))

  abbrev DeliversLine : ℕ → RawRuleSpec × Position → Type 0
  DeliversLine n r = IsSound r.0 × (length r.1.1 ≤ n)

  assign_pair-Delivers :
      (line : ℕ) (spec : RawRuleSpec) (lines : List Text) (pair : Option (Text × Text))
      → IsSound spec
      → Delivers (DeliversLine (length lines)) (assign_pair line spec lines pair)
  assign_pair-Delivers line spec lines none h = fails
  assign_pair-Delivers line spec lines (some (key, value)) h =
      Delivers-if (is_blank value)
        (Delivers-bind
          (assign_block_value-Delivers spec key (gather_indented_block lines 0).0 line h)
          λ assigned k. delivers (k, gather-length lines 0))
        (Delivers-bind (assign_inline_value-Delivers spec key value line h)
          λ assigned k. delivers (k, omega arith))

  spec_line-Delivers :
      (line : ℕ) (spec : RawRuleSpec) (text : Text) (lines : List Text)
      → IsSound spec
      → Delivers (DeliversLine (length lines)) (spec_line line spec text lines)
  unfolding spec_line
  spec_line-Delivers line spec text lines h =
      Delivers-if (is_blank text) (delivers (h, omega arith)) (
        Delivers-if (any (λ c. c == 9) text) fails (
          Delivers-if (not (count_indent text == 0)) fails
            (assign_pair-Delivers line spec lines (split_key_value (trim_space text)) h)))

  spec_loop-Delivers :
      (fuel line : ℕ) (spec : RawRuleSpec) (lines : List Text)
      → length lines ≤ fuel
      → IsSound spec
      → Delivers IsSound (spec_loop fuel line spec lines)
  unfolding spec_loop
  spec_loop-Delivers fuel line spec [] l h = delivers h
  spec_loop-Delivers zero line spec (text ∷ lines) l h = absurd (omega arith)
  spec_loop-Delivers (suc fuel) line spec (text ∷ lines) l h =
      Delivers-bind (spec_line-Delivers line spec (sanitize_line text) lines h)
        λ r (k, m). spec_loop-Delivers fuel r.1.0 r.0 r.1.1 (omega arith) k

  pub parse_rule_spec-Delivers : (spec : Text) → Delivers IsSound (parse_rule_spec spec)
  unfolding parse_rule_spec
  parse_rule_spec-Delivers spec =
      spec_loop-Delivers (length (split_at 10 spec)) 1 empty_spec (split_at 10 spec) (omega arith)
        (omega arith, tt)
