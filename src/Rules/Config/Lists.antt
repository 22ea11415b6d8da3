-- ===== src/Rules/Config/Lists.antt =====
-- pkg/rules/config.go: the lists of a rule text.
pub mod Sound
use drift_sentinel.Base.{
  ℕ, zero, suc, Bool, true, false, not, ◌&&◌, List, [], ◌∷◌, ◌++◌, Option, none, some,
  if◌then◌else◌, ◌==◌, leb, length,
}
use drift_sentinel.Base.Text.{Text, Unicode, codes, text_eq, trim_space, cons_head, cut_prefix}
use drift_sentinel.Base.Quote.{quote}
use drift_sentinel.Base.Result.{Result, ok, err, out_of_fuel, ◌>>=◌}
use drift_sentinel.Rules.Types.{ResourceSelector}
use drift_sentinel.Rules.Config.Line.{
  quote_step, is_closed, count_indent, split_key_value, ends_with, drop_first, drop_last,
  parse_scalar,
}

-- The pieces between the commas outside quotes.
unfoldable pub split_unquoted : Option ℕ → Text → List Text
unfolding quote_step
split_unquoted open_quote [] = [] ∷ []
split_unquoted open_quote (c ∷ s) =
    let rest = split_unquoted (quote_step open_quote c) s in
    if c == b',' && is_closed open_quote then [] ∷ rest else cons_head c rest

unfoldable pub parse_scalars : List Text → Result (List Text)
unfolding parse_scalar
parse_scalars [] = ok []
parse_scalars (piece ∷ pieces) = do
  item ← parse_scalar (trim_space piece)
  items ← parse_scalars pieces
  ok (item ∷ items)

abbrev starts_with : ℕ → Text → Bool
starts_with q [] = false
starts_with q (c ∷ s) = c == q

-- The lines of a block as the items of a list: each behind a dash and a space.
abbrev pub item_text : Text → Option Text
item_text trimmed = cut_prefix (codes "- ") trimmed

module _ ⦃u : Unicode⦄ where
  unfoldable pub parse_inline_list : Text → Result (List Text)
  unfolding split_unquoted parse_scalars ends_with drop_last
  parse_inline_list value =
      let trimmed = trim_space value in
      let content = trim_space (drop_last (drop_first trimmed)) in
      if text_eq trimmed (codes "[]")
      then ok []
      else if not (starts_with b'[' trimmed && ends_with b']' trimmed)
      then err (codes "expected inline list, got " ++ quote value)
      else if text_eq content []
      then ok []
      else parse_scalars (split_unquoted none content)

  abbrev pub item_scalar : Text → Option Text → Result Text
  item_scalar trimmed none = err (codes "expected list item, got " ++ quote trimmed)
  item_scalar trimmed (some rest) = parse_scalar (trim_space rest)

  unfoldable pub parse_string_item : Text → Result Text
  unfolding cut_prefix parse_scalar
  parse_string_item line = item_scalar (trim_space line) (item_text (trim_space line))

  unfoldable pub parse_string_list : List Text → Result (List Text)
  unfolding parse_string_item
  parse_string_list [] = ok []
  parse_string_list (line ∷ lines) = do
    value ← parse_string_item line
    values ← parse_string_list lines
    ok (value ∷ values)

  abbrev pub set_selector_field : ResourceSelector → Text → Text → Result ResourceSelector
  set_selector_field selector key scalar =
      if text_eq key (codes "apiGroup")
      then ok (record selector { api_group = scalar })
      else if text_eq key (codes "kind")
      then ok (record selector { kind = scalar })
      else err (codes "unsupported selector field " ++ quote key)

  unfoldable pub assign_selector_field : ResourceSelector → Text → Text → Result ResourceSelector
  unfolding parse_scalar
  assign_selector_field selector key value = parse_scalar value >>= set_selector_field selector key

  abbrev pub assign_split :
      (Text → Text) → Text → ResourceSelector → Option (Text × Text) → Result ResourceSelector
  assign_split message text selector none = err (message (quote text))
  assign_split message text selector (some (key, value)) = assign_selector_field selector key value

  abbrev pub invalid_field : Text → Text
  invalid_field text = codes "invalid selector field " ++ text

  abbrev pub invalid_item : Text → Text
  invalid_item text = codes "invalid selector item " ++ text

  unfoldable pub parse_field_line : ResourceSelector → Text → Result ResourceSelector
  unfolding assign_selector_field split_key_value
  parse_field_line selector line =
      assign_split invalid_field (trim_space line) selector (split_key_value (trim_space line))

  -- The inner loop: the lines that are indented deeper than the item. The lines that are left.
  unfoldable pub selector_fields :
      ℕ → ResourceSelector → List Text → Result (ResourceSelector × List Text)
  unfolding parse_field_line count_indent
  selector_fields indent selector [] = ok (selector, [])
  selector_fields indent selector (line ∷ lines) =
      let rest = do assigned ← parse_field_line selector line; selector_fields indent assigned lines
      in if leb (count_indent line) indent then ok (selector, line ∷ lines) else rest

  abbrev pub no_selector : ResourceSelector
  no_selector = record { api_group = []; kind = [] }

  abbrev pub first_field : Text → Option Text → Result ResourceSelector
  first_field trimmed none = err (codes "expected selector list item, got " ++ quote trimmed)
  first_field trimmed (some rest) =
      assign_split invalid_item trimmed no_selector (split_key_value (trim_space rest))

  -- The line of an item, up to its first field.
  unfoldable pub parse_item_line : Text → Result ResourceSelector
  unfolding cut_prefix assign_selector_field split_key_value
  parse_item_line line = first_field (trim_space line) (item_text (trim_space line))

  -- One round of the outer loop: a selector, and the lines that are left.
  unfoldable pub parse_selector : Text → List Text → Result (ResourceSelector × List Text)
  unfolding parse_item_line selector_fields
  parse_selector line lines = do
    first ← parse_item_line line
    (selector, rest) ← selector_fields (count_indent line) first lines
    if text_eq selector.kind []
        then err (codes "selector kind is required")
        else ok (selector, rest)

  unfoldable pub selectors_loop : ℕ → List Text → Result (List ResourceSelector)
  unfolding parse_selector
  selectors_loop fuel [] = ok []
  selectors_loop zero (line ∷ lines) = out_of_fuel
  selectors_loop (suc fuel) (line ∷ lines) = do
    (selector, rest) ← parse_selector line lines
    selectors ← selectors_loop fuel rest
    ok (selector ∷ selectors)

  unfoldable pub parse_selector_list : List Text → Result (List ResourceSelector)
  unfolding selectors_loop
  parse_selector_list lines = selectors_loop (length lines) lines
