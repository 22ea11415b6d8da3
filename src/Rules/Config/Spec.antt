-- ===== src/Rules/Config/Spec.antt =====
-- pkg/rules/config.go: the keys of a rule text, and the loop over its lines.
pub mod Sound
use drift_sentinel.Base.{
  ℕ, zero, suc, ◌+◌, Bool, true, false, not, List, [], ◌∷◌, ◌++◌, Option, none, some, if◌then◌else◌,
  ◌==◌, leb, length, any,
}
use drift_sentinel.Base.Text.{Text, Unicode, codes, text_eq, trim_space, split_at}
use drift_sentinel.Base.Number.{ℤ, pos, decimal, atoi, Atoi, number, failed}
use drift_sentinel.Base.Quote.{quote, atoi_message}
use drift_sentinel.Base.Result.{Result, ok, err, out_of_fuel, ◌>>=◌, wrap}
use drift_sentinel.Rules.Types.{ResourceSelector}
use drift_sentinel.Rules.Config.Line.{sanitize_line, count_indent, split_key_value, parse_scalar}
use drift_sentinel.Rules.Config.Lists.{parse_inline_list, parse_string_list, parse_selector_list}

pub record RawRuleSpec : Type 0 where
  pub mode : Text
  pub priority : ℤ
  pub namespaces : List Text
  pub selectors : List ResourceSelector
  pub labels : List Text
  pub exclude : List Text
  pub include : List Text
  pub mutable : List Text
  pub users : List Text
  pub bypass : Text

-- The zero value.
abbrev pub empty_spec : RawRuleSpec
empty_spec = record {
  mode = [];
  priority = pos 0;
  namespaces = [];
  selectors = [];
  labels = [];
  exclude = [];
  include = [];
  mutable = [];
  users = [];
  bypass = [];
}

-- `fmt.Errorf("line %d: …", line)`.
abbrev pub at_line : ℕ → Text → Text
at_line line message = codes "line " ++ (decimal line ++ (codes ": " ++ message))

-- The six keys whose values are lists of texts.
pub data ListKey : Type 0 where
  namespaces labels exclude include mutable users : ListKey

abbrev pub list_key : Text → Option ListKey
list_key key =
    if text_eq key (codes "namespaces")
    then some namespaces
    else if text_eq key (codes "exclude")
    then some exclude
    else if text_eq key (codes "labels")
    then some labels
    else if text_eq key (codes "include")
    then some include
    else if text_eq key (codes "mutable")
    then some mutable
    else if text_eq key (codes "users")
    then some users
    else none

abbrev pub set_list : RawRuleSpec → ListKey → List Text → RawRuleSpec
set_list parsed namespaces items = record parsed { namespaces = items }
set_list parsed labels items = record parsed { labels = items }
set_list parsed exclude items = record parsed { exclude = items }
set_list parsed include items = record parsed { include = items }
set_list parsed mutable items = record parsed { mutable = items }
set_list parsed users items = record parsed { users = items }

module _ ⦃u : Unicode⦄ where
  abbrev pub set_priority : RawRuleSpec → Text → ℕ → Atoi → Result RawRuleSpec
  set_priority parsed text line (number n) = ok (record parsed { priority = n })
  set_priority parsed text line (failed e) =
      err (at_line line (codes "invalid priority: " ++ atoi_message text e))

  abbrev pub assign_inline_list :
      RawRuleSpec → Text → Text → ℕ → Option ListKey → Result RawRuleSpec
  assign_inline_list parsed key value line none =
      err (at_line line (codes "unsupported key " ++ quote key))
  assign_inline_list parsed key value line (some list) = do
    items ← wrap (at_line line) (parse_inline_list value)
    ok (set_list parsed list items)

  unfoldable pub assign_inline_value : RawRuleSpec → Text → Text → ℕ → Result RawRuleSpec
  unfolding parse_scalar parse_inline_list
  assign_inline_value parsed key value line =
      if text_eq key (codes "mode")
      then (do
        scalar ← wrap (at_line line) (parse_scalar value)
        ok (record parsed { mode = scalar }))
      else if text_eq key (codes "priority")
      then set_priority parsed (trim_space value) line (atoi (trim_space value))
      else if text_eq key (codes "bypass")
      then (do
        scalar ← wrap (at_line line) (parse_scalar value)
        ok (record parsed { bypass = scalar }))
      else assign_inline_list parsed key value line (list_key key)

  abbrev pub assign_selectors : RawRuleSpec → Text → List Text → ℕ → Result RawRuleSpec
  assign_selectors parsed key block line =
      if text_eq key (codes "selectors")
      then (do
        items ← wrap (at_line line) (parse_selector_list block)
        ok (record parsed { selectors = items }))
      else err (at_line line (codes "unsupported block key " ++ quote key))

  abbrev pub assign_block_list :
      RawRuleSpec → Text → List Text → ℕ → Option ListKey → Result RawRuleSpec
  assign_block_list parsed key block line none = assign_selectors parsed key block line
  assign_block_list parsed key block line (some list) = do
    items ← wrap (at_line line) (parse_string_list block)
    ok (set_list parsed list items)

  unfoldable pub assign_block_value : RawRuleSpec → Text → List Text → ℕ → Result RawRuleSpec
  unfolding parse_string_list parse_selector_list
  assign_block_value parsed key block line = assign_block_list parsed key block line (list_key key)

abbrev pub is_blank : Text → Bool
is_blank [] = true
is_blank (c ∷ s) = false

-- The lines of the block, how many lines it takes, and the lines behind it.
unfoldable pub gather_indented_block : List Text → ℕ → List Text × ℕ × List Text
unfolding sanitize_line count_indent
gather_indented_block [] parent = ([], 0, [])
gather_indented_block (line ∷ lines) parent =
    let (block, taken, rest) = gather_indented_block lines parent in
    let sanitized = sanitize_line line in
    if is_blank sanitized
    then (block, suc taken, rest)
    else if leb (count_indent sanitized) parent
    then ([], 0, line ∷ lines)
    else (sanitized ∷ block, suc taken, rest)

-- What is left of the text: the number of the next line, and the lines from there on.
abbrev pub Position : Type 0
Position = ℕ × List Text

module _ ⦃u : Unicode⦄ where
  abbrev pub assign_block :
      RawRuleSpec → Text → ℕ → List Text × ℕ × List Text → Result (RawRuleSpec × Position)
  assign_block parsed key line (block, taken, rest) = do
    assigned ← assign_block_value parsed key block line
    ok (assigned, (suc line + taken, rest))

  abbrev pub assign_pair :
      ℕ → RawRuleSpec → List Text → Option (Text × Text) → Result (RawRuleSpec × Position)
  assign_pair line parsed lines none = err (at_line line (codes "expected key/value pair"))
  assign_pair line parsed lines (some (key, value)) =
      if is_blank value then assign_block parsed key line (gather_indented_block lines 0) else (do
        assigned ← assign_inline_value parsed key value line
        ok (assigned, (suc line, lines)))

  -- One round of the loop, at a sanitized line.
  unfoldable pub spec_line : ℕ → RawRuleSpec → Text → List Text → Result (RawRuleSpec × Position)
  unfolding assign_inline_value assign_block_value gather_indented_block split_key_value
  spec_line line parsed text lines =
      if is_blank text
      then ok (parsed, (suc line, lines))
      else if any (λ c. c == 9) text
      then err (at_line line (codes "tabs are not supported"))
      else if not (count_indent text == 0)
      then err (at_line line (codes "expected top-level key"))
      else assign_pair line parsed lines (split_key_value (trim_space text))

  unfoldable pub spec_loop : ℕ → ℕ → RawRuleSpec → List Text → Result RawRuleSpec
  unfolding spec_line
  spec_loop fuel line parsed [] = ok parsed
  spec_loop zero line parsed (text ∷ lines) = out_of_fuel
  spec_loop (suc fuel) line parsed (text ∷ lines) = do
    (assigned, position) ← spec_line line parsed (sanitize_line text) lines
    spec_loop fuel (position.0) assigned (position.1)

  unfoldable pub parse_rule_spec : Text → Result RawRuleSpec
  unfolding spec_loop
  parse_rule_spec spec = let lines = split_at 10 spec in spec_loop (length lines) 1 empty_spec lines
