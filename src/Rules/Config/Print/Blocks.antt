-- ===== src/Rules/Config/Print/Blocks.antt =====
-- How the blocks of a canonical rule text are read.
use drift_sentinel.Base.{
  ℕ, zero, suc, ◌≤◌, false, List, [], ◌∷◌, ◌++◌, map, some, leb, length, ◌≡◌, refl, arith,
}
use drift_sentinel.Base.Text.{
  Text, Unicode, codes, cut_prefix, is_space, text_eq, trim_left, trim_space,
}
use drift_sentinel.Base.Trim.{trim_space-append}
use drift_sentinel.Base.Result.{ok}
use drift_sentinel.Rules.Types.{ResourceSelector}
use drift_sentinel.Rules.Config.Line.{count_indent, quote_step, sanitize_line, split_key_value}
use drift_sentinel.Rules.Config.Lists.{
  assign_selector_field, parse_field_line, parse_item_line, parse_selector, parse_selector_list,
  parse_string_item, parse_string_list, selector_fields, selectors_loop,
}
use drift_sentinel.Rules.Config.Lists.Sound.{HaveKinds}
use drift_sentinel.Rules.Config.Spec.{gather_indented_block, is_blank}
use drift_sentinel.Rules.Config.Print.{
  AreQuotable, AreQuotableSelectors, IsQuotable, group_line, item_line, kind_line, quoted,
  selector_lines,
}
use drift_sentinel.Rules.Config.Print.Lines.{
  parse_scalar-quoted, sanitize_line-quoted, trim_space-behind, trim_space-quoted,
}

-- The line is left as it is, and is indented.
pub record IsIndented (line : Text) : Type 0 where
  pub whole : sanitize_line line ≡ line
  pub some_text : is_blank line ≡ false
  pub deeper : leb (count_indent line) 0 ≡ false

abbrev pub AreIndented : List Text → Type 0
AreIndented [] = Unit
AreIndented (line ∷ lines) = IsIndented line × AreIndented lines

-- A block ends before these lines.
abbrev pub StopsBlock : List Text → Type 0
StopsBlock lines = gather_indented_block lines 0 ≡ ([], 0, lines)

gather_step :
    (line : Text) (lines block rest : List Text) (taken : ℕ)
    → IsIndented line
    → gather_indented_block lines 0 ≡ (block, taken, rest)
    → gather_indented_block (line ∷ lines) 0 ≡ (line ∷ block, suc taken, rest)
gather_step line lines block rest taken h e =
    let whole = h.whole in
    let some_text = h.some_text in
    let deeper = h.deeper in unfold gather_indented_block in rw (e, whole, some_text, deeper) refl

-- The block is gathered up to its end.
pub gather-AreIndented :
    (block rest : List Text)
    → AreIndented block
    → StopsBlock rest
    → gather_indented_block (block ++ rest) 0 ≡ (block, length block, rest)
gather-AreIndented [] rest h k = k
gather-AreIndented (line ∷ block) rest h k =
    gather_step line (block ++ rest) block rest (length block) h.0
      (gather-AreIndented block rest h.1 k)

item_line-IsIndented : (s : Text) → IsQuotable s → IsIndented (item_line s)
unfolding count_indent
item_line-IsIndented s h = record {
  whole = sanitize_line-quoted (codes "  - ") s refl h;
  some_text = refl;
  deeper = refl;
}

pub items-AreIndented : (ss : List Text) → AreQuotable ss → AreIndented (map item_line ss)
items-AreIndented [] h = tt
items-AreIndented (s ∷ ss) h = (item_line-IsIndented s h.0, items-AreIndented ss h.1)

group_line-IsIndented : (s : Text) → IsQuotable s → IsIndented (group_line s)
unfolding count_indent
group_line-IsIndented s h = record {
  whole = sanitize_line-quoted (codes "  - apiGroup: ") s refl h;
  some_text = refl;
  deeper = refl;
}

kind_line-IsIndented : (s : Text) → IsQuotable s → IsIndented (kind_line s)
unfolding count_indent
kind_line-IsIndented s h = record {
  whole = sanitize_line-quoted (codes "    kind: ") s refl h;
  some_text = refl;
  deeper = refl;
}

pub selectors-AreIndented :
    (ss : List ResourceSelector) → AreQuotableSelectors ss → AreIndented (selector_lines ss)
selectors-AreIndented [] h = tt
selectors-AreIndented (s ∷ ss) (g, k, h) = (
  group_line-IsIndented s.api_group g,
  (kind_line-IsIndented s.kind k, selectors-AreIndented ss h),
)

-- The white space before a line in quotes is trimmed.
trim_space-item : (s : Text) → trim_space (item_line s) ≡ codes "- " ++ quoted s
unfolding trim_left is_space
trim_space-item s = trim_space-append (codes "  - " ++ 34 ∷ s) 34 refl

trim_space-group : (s : Text) → trim_space (group_line s) ≡ codes "- apiGroup: " ++ quoted s
unfolding trim_left is_space
trim_space-group s = trim_space-append (codes "  - apiGroup: " ++ 34 ∷ s) 34 refl

trim_space-kind : (s : Text) → trim_space (kind_line s) ≡ codes "kind: " ++ quoted s
unfolding trim_left is_space
trim_space-kind s = trim_space-append (codes "    kind: " ++ 34 ∷ s) 34 refl

trim_space-field :
    (s : Text) → trim_space (codes "apiGroup: " ++ quoted s) ≡ codes "apiGroup: " ++ quoted s
unfolding trim_left is_space
trim_space-field s = trim_space-append (codes "apiGroup: " ++ 34 ∷ s) 34 refl

split-group :
    (s : Text)
    → split_key_value (codes "apiGroup: " ++ quoted s) ≡ some (codes "apiGroup", quoted s)
unfolding split_key_value quote_step text_eq
split-group s = rw (trim_space-behind s) (unfold trim_space in refl)

split-kind :
    (s : Text) → split_key_value (codes "kind: " ++ quoted s) ≡ some (codes "kind", quoted s)
unfolding split_key_value quote_step text_eq
split-kind s = rw (trim_space-behind s) (unfold trim_space in refl)

module _ ⦃u : Unicode⦄ where
  parse_string_item-quoted : (s : Text) → parse_string_item (item_line s) ≡ ok s
  unfolding parse_string_item cut_prefix
  parse_string_item-quoted s = rw (trim_space-item s, trim_space-quoted s) (parse_scalar-quoted s)

  parse_string_list_step :
      (line : Text) (lines : List Text) (value : Text) (values : List Text)
      → parse_string_item line ≡ ok value
      → parse_string_list lines ≡ ok values
      → parse_string_list (line ∷ lines) ≡ ok (value ∷ values)
  parse_string_list_step line lines value values e f = unfold parse_string_list in rw (e, f) refl

  -- A block of items is read as their texts.
  pub parse_string_list-quoted : (ss : List Text) → parse_string_list (map item_line ss) ≡ ok ss
  parse_string_list-quoted [] = unfold parse_string_list in refl
  parse_string_list-quoted (s ∷ ss) =
      parse_string_list_step (item_line s) (map item_line ss) s ss (parse_string_item-quoted s)
        (parse_string_list-quoted ss)

  assign_group :
      (selector : ResourceSelector) (s : Text)
      → assign_selector_field selector (codes "apiGroup") (quoted s)
        ≡ ok (record selector { api_group = s })
  assign_group selector s =
      let scalar = parse_scalar-quoted s in unfold assign_selector_field text_eq in rw scalar refl

  assign_kind :
      (selector : ResourceSelector) (s : Text)
      → assign_selector_field selector (codes "kind") (quoted s) ≡ ok (record selector { kind = s })
  assign_kind selector s =
      let scalar = parse_scalar-quoted s in unfold assign_selector_field text_eq in rw scalar refl

  parse_item_line-group :
      (s : Text) → parse_item_line (group_line s) ≡ ok (record { api_group = s; kind = [] })
  parse_item_line-group s =
      let trimmed = trim_space-group s in
      let rest = trim_space-field s in
      let split = split-group s in
      let assigned = assign_group (record { api_group = []; kind = [] }) s in
      unfold parse_item_line cut_prefix in rw (trimmed, rest, split, assigned) refl

  parse_field_line-kind :
      (selector : ResourceSelector) (s : Text)
      → parse_field_line selector (kind_line s) ≡ ok (record selector { kind = s })
  parse_field_line-kind selector s =
      let trimmed = trim_space-kind s in
      let split = split-kind s in
      let assigned = assign_kind selector s in
      unfold parse_field_line in rw (trimmed, split, assigned) refl

  -- The item of a selector ends where the next one begins.
  selector_fields-lines :
      (selector : ResourceSelector) (ss : List ResourceSelector)
      → selector_fields 2 selector (selector_lines ss) ≡ ok (selector, selector_lines ss)
  unfolding selector_fields count_indent
  selector_fields-lines selector [] = refl
  selector_fields-lines selector (s ∷ ss) = refl

  selector_fields-kind :
      (selector : ResourceSelector) (s : Text) (lines : List Text)
      → selector_fields 2 selector (kind_line s ∷ lines)
        ≡ selector_fields 2 (record selector { kind = s }) lines
  selector_fields-kind selector s lines =
      let parsed = parse_field_line-kind selector s in
      unfold selector_fields count_indent in rw parsed refl

  parse_selector-lines :
      (s : ResourceSelector) (ss : List ResourceSelector)
      → text_eq s.kind [] ≡ false
      → parse_selector (group_line s.api_group) (kind_line s.kind ∷ selector_lines ss)
        ≡ ok (s, selector_lines ss)
  parse_selector-lines s ss h =
      let first = parse_item_line-group s.api_group in
      let fields =
        selector_fields-kind (record { api_group = s.api_group; kind = [] }) s.kind
          (selector_lines ss) in
      let rest = selector_fields-lines s ss in
      unfold parse_selector in rw (first, fields, rest, h) refl

  selectors_loop-lines :
      (fuel : ℕ) (ss : List ResourceSelector)
      → length ss ≤ fuel
      → HaveKinds ss
      → selectors_loop fuel (selector_lines ss) ≡ ok ss
  unfolding selectors_loop
  selectors_loop-lines fuel [] l h = refl
  selectors_loop-lines zero (s ∷ ss) l h = absurd (omega arith)
  selectors_loop-lines (suc fuel) (s ∷ ss) l h =
      rw (parse_selector-lines s ss h.0, selectors_loop-lines fuel ss (omega arith) h.1) refl

  length-selector_lines : (ss : List ResourceSelector) → length ss ≤ length (selector_lines ss)
  length-selector_lines [] = omega arith
  length-selector_lines (s ∷ ss) = omega (arith, length-selector_lines ss)

  -- A block of selectors is read as the selectors.
  pub parse_selector_list-lines :
      (ss : List ResourceSelector) → HaveKinds ss → parse_selector_list (selector_lines ss) ≡ ok ss
  unfolding parse_selector_list
  parse_selector_list-lines ss h =
      selectors_loop-lines (length (selector_lines ss)) ss (length-selector_lines ss) h
