-- ===== src/Rules/Config/Lists/Sound.antt =====
-- What the parsers of the lists deliver.
use drift_sentinel.Base.{
  ℕ, zero, suc, ◌≤◌, false, List, [], ◌∷◌, Option, none, some, if◌then◌else◌, leb, length, ◌≡◌,
  arith, Bool-cases, inl, inr,
}
use drift_sentinel.Base.Text.{Text, Unicode, text_eq, trim_space}
use drift_sentinel.Base.Result.{
  ok, err, Any, Delivers, delivers, fails, Delivers-bind, Delivers-if, delivers_rules,
}
use drift_sentinel.Rules.Types.{ResourceSelector}
use drift_sentinel.Rules.Config.Line.{count_indent, parse_scalar}
use drift_sentinel.Rules.Config.Lists.{
  parse_scalars, parse_inline_list, parse_string_item, parse_string_list, assign_selector_field,
  parse_field_line, selector_fields, parse_item_line, parse_selector, selectors_loop,
  parse_selector_list, item_scalar, assign_split, first_field, no_selector, invalid_field,
  invalid_item,
}

pub parse_scalar-Delivers : (value : Text) → Delivers Any (parse_scalar value)
unfolding parse_scalar
parse_scalar-Delivers value = search delivers_rules

parse_scalars-Delivers : (pieces : List Text) → Delivers Any (parse_scalars pieces)
unfolding parse_scalars
parse_scalars-Delivers [] = search delivers_rules
parse_scalars-Delivers (piece ∷ pieces) =
    Delivers-bind (parse_scalar-Delivers (trim_space piece))
      λ item _. Delivers-bind (parse_scalars-Delivers pieces) λ items _. delivers tt

abbrev pub HasKind : ResourceSelector → Type 0
HasKind selector = text_eq selector.kind [] ≡ false

abbrev pub HaveKinds : List ResourceSelector → Type 0
HaveKinds [] = Unit
HaveKinds (selector ∷ selectors) = HasKind selector × HaveKinds selectors

module _ ⦃u : Unicode⦄ where
  pub parse_inline_list-Delivers : (value : Text) → Delivers Any (parse_inline_list value)
  unfolding parse_inline_list
  parse_inline_list-Delivers value = search (delivers_rules, parse_scalars-Delivers)

  item_scalar-Delivers : (trimmed : Text) (o : Option Text) → Delivers Any (item_scalar trimmed o)
  item_scalar-Delivers trimmed none = fails
  item_scalar-Delivers trimmed (some rest) = parse_scalar-Delivers (trim_space rest)

  pub parse_string_list-Delivers : (lines : List Text) → Delivers Any (parse_string_list lines)
  unfolding parse_string_list parse_string_item
  parse_string_list-Delivers [] = search delivers_rules
  parse_string_list-Delivers (line ∷ lines) =
      Delivers-bind (item_scalar-Delivers (trim_space line) _)
        λ value _. Delivers-bind (parse_string_list-Delivers lines) λ values _. delivers tt

  assign_selector_field-Delivers :
      (selector : ResourceSelector) (key value : Text)
      → Delivers Any (assign_selector_field selector key value)
  unfolding assign_selector_field
  assign_selector_field-Delivers selector key value =
      search (delivers_rules, parse_scalar-Delivers value)

  assign_split-Delivers :
      (message : Text → Text) (text : Text) (selector : ResourceSelector) (o : Option (Text × Text))
      → Delivers Any (assign_split message text selector o)
  assign_split-Delivers message text selector none = fails
  assign_split-Delivers message text selector (some (key, value)) =
      assign_selector_field-Delivers selector key value

  parse_field_line-Delivers :
      (selector : ResourceSelector) (line : Text) → Delivers Any (parse_field_line selector line)
  unfolding parse_field_line
  parse_field_line-Delivers selector line =
      assign_split-Delivers invalid_field (trim_space line) selector _

  -- No more lines are left than there were.
  abbrev LeavesAtMost {ℓ} : {A : Type ℓ} → ℕ → A × List Text → Type 0
  LeavesAtMost n r = length r.1 ≤ n

  selector_fields-Delivers :
      (indent : ℕ) (selector : ResourceSelector) (lines : List Text) (n : ℕ)
      → length lines ≤ n
      → Delivers (LeavesAtMost n) (selector_fields indent selector lines)
  unfolding selector_fields
  selector_fields-Delivers indent selector [] n h = delivers (omega arith)
  selector_fields-Delivers indent selector (line ∷ lines) n h =
      Delivers-if (leb (count_indent line) indent) (delivers h) (
        Delivers-bind (parse_field_line-Delivers selector line)
          λ assigned _. selector_fields-Delivers indent assigned lines n (omega arith))

  first_field-Delivers : (trimmed : Text) (o : Option Text) → Delivers Any (first_field trimmed o)
  first_field-Delivers trimmed none = fails
  first_field-Delivers trimmed (some rest) =
      assign_split-Delivers invalid_item trimmed no_selector _

  parse_item_line-Delivers : (line : Text) → Delivers Any (parse_item_line line)
  unfolding parse_item_line
  parse_item_line-Delivers line = first_field-Delivers (trim_space line) _

  abbrev DeliversSelector : ℕ → ResourceSelector × List Text → Type 0
  DeliversSelector n r = HasKind r.0 × (length r.1 ≤ n)

  check_kind :
      (selector : ResourceSelector) (rest : List Text) (n : ℕ) (e : Text)
      → length rest ≤ n
      → Delivers
          (DeliversSelector n)
          (if text_eq selector.kind [] then err e else ok (selector, rest))
  check_kind selector rest n e h = elim (Bool-cases (text_eq selector.kind [])) [
    | inl k ↦ rw k fails
    | inr k ↦ rw k (delivers (k, h))
  ]

  parse_selector-Delivers :
      (line : Text) (lines : List Text)
      → Delivers (DeliversSelector (length lines)) (parse_selector line lines)
  unfolding parse_selector
  parse_selector-Delivers line lines = Delivers-bind (parse_item_line-Delivers line) λ first _.
      Delivers-bind
        (selector_fields-Delivers (count_indent line) first lines (length lines) (omega arith))
        λ r l. check_kind r.0 r.1 (length lines) _ l

  selectors_loop-Delivers :
      (fuel : ℕ) (lines : List Text)
      → length lines ≤ fuel
      → Delivers HaveKinds (selectors_loop fuel lines)
  unfolding selectors_loop
  selectors_loop-Delivers fuel [] h = delivers tt
  selectors_loop-Delivers zero (line ∷ lines) h = absurd (omega arith)
  selectors_loop-Delivers (suc fuel) (line ∷ lines) h =
      Delivers-bind (parse_selector-Delivers line lines) λ r (k, l).
        Delivers-bind (selectors_loop-Delivers fuel r.1 (omega arith))
          λ selectors ks. delivers (k, ks)

  pub parse_selector_list-Delivers :
      (lines : List Text) → Delivers HaveKinds (parse_selector_list lines)
  unfolding parse_selector_list
  parse_selector_list-Delivers lines = selectors_loop-Delivers (length lines) lines (omega arith)
