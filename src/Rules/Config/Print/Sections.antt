-- ===== src/Rules/Config/Print/Sections.antt =====
-- How the priority, a list and the selectors of a canonical rule text are read.
use drift_sentinel.Base.{
  ℕ, suc, ◌+◌, true, false, List, [], ◌∷◌, ◌++◌, map, none, some, all, any, length, ◌≡◌, refl, sym,
  ap, ◌∙◌, arith,
}
use drift_sentinel.Base.Text.{Text, Unicode, codes, is_space, text_eq, trim_space}
use drift_sentinel.Base.Trim.{
  EndsSolid-append, IsNumeral-EndsSolid, trim_space-numeral, trim_space-solid, trim_space-space,
}
use drift_sentinel.Base.Number.{
  IsInt, IsNumeral, ℤ, atoi, atoi-print_int, is_numeral, number, print_int, print_int-IsNumeral,
}
use drift_sentinel.Base.Result.{ok}
use drift_sentinel.Rules.Types.{ResourceSelector}
use drift_sentinel.Rules.Config.Line.{count_indent, cut_unquoted, sanitize_line, split_key_value}
use drift_sentinel.Rules.Config.Lists.{parse_selector_list, parse_string_list}
use drift_sentinel.Rules.Config.Lists.Sound.{HaveKinds}
use drift_sentinel.Rules.Config.Spec.{
  ListKey, RawRuleSpec, assign_block_value, assign_pair, exclude, gather_indented_block, include,
  labels, mutable, namespaces, set_list, spec_line, users,
}
use drift_sentinel.Rules.Config.Print.{
  AreQuotable, AreQuotableSelectors, header, item_line, selector_lines,
}
use drift_sentinel.Rules.Config.Print.Lines.{
  cut_unquoted-mute, cut_unquoted-none, is_mute, sanitize_line-solid,
}
use drift_sentinel.Rules.Config.Print.Blocks.{
  StopsBlock, gather-AreIndented, items-AreIndented, parse_selector_list-lines,
  parse_string_list-quoted, selectors-AreIndented,
}
use drift_sentinel.Rules.Config.Print.Keys.{
  assign_priority, inline_line, is_tab, spec_line-pair, split_priority,
}

numeral-is_mute : (s : Text) → all is_numeral s ≡ true → all (is_mute b'#') s ≡ true
numeral-is_mute [] h = refl
numeral-is_mute (c ∷ s) h = ground (arith, numeral-is_mute s)

numeral_no_tab : (s : Text) → all is_numeral s ≡ true → any is_tab s ≡ false
numeral_no_tab [] h = refl
numeral_no_tab (c ∷ s) h = ground (arith, numeral_no_tab s)

-- The line of a number is left as it is.
sanitize_line-numeral :
    (c : ℕ) (s : Text)
    → all is_numeral (c ∷ s) ≡ true
    → sanitize_line (codes "priority: " ++ c ∷ s) ≡ codes "priority: " ++ c ∷ s
sanitize_line-numeral c s h =
    let (t, d, e, k) = EndsSolid-append (codes "priority: ") (c ∷ s) (IsNumeral-EndsSolid c s h) in
    rw e (
      sanitize_line-solid t d k (
        ap (cut_unquoted b'#' none) (sym e)
        ∙ cut_unquoted-mute b'#' (codes "priority: ") (c ∷ s) refl
            (cut_unquoted-none b'#' (c ∷ s) (numeral-is_mute (c ∷ s) h))))

trim_space-priority :
    (c : ℕ) (s : Text)
    → all is_numeral (c ∷ s) ≡ true
    → trim_space (codes "priority: " ++ c ∷ s) ≡ codes "priority: " ++ c ∷ s
trim_space-priority c s h =
    trim_space-solid (codes "priority: " ++ c ∷ s) (unfold is_space in refl)
      (EndsSolid-append (codes "priority: ") (c ∷ s) (IsNumeral-EndsSolid c s h))

module _ ⦃u : Unicode⦄ where
  numeral_line :
      (line : ℕ) (parsed : RawRuleSpec) (s : Text) (a : ℤ) (lines : List Text)
      → IsNumeral s
      → atoi s ≡ number a
      → spec_line line parsed (sanitize_line (codes "priority: " ++ s)) lines
        ≡ ok (record parsed { priority = a }, (suc line, lines))
  numeral_line line parsed [] a lines h e = absurd h
  numeral_line line parsed (c ∷ s) a lines h e =
      let text : Text = codes "priority: " ++ c ∷ s in
      let trimmed = trim_space-numeral c s h in
      rw (sanitize_line-numeral c s h) (
        inline_line line parsed (record parsed { priority = a }) text lines (codes "priority")
          (c ∷ s) refl
          (spec_line-pair line parsed text lines (codes "priority") (c ∷ s) refl
            (numeral_no_tab (c ∷ s) h) (unfold count_indent in refl)
            (ap split_key_value (trim_space-priority c s h)
              ∙ split_priority (c ∷ s) (c ∷ s) (trim_space-space (c ∷ s) ∙ trimmed)))
          (assign_priority line parsed (c ∷ s) a trimmed e))

  pub priority_line :
      (line : ℕ) (parsed : RawRuleSpec) (a : ℤ) (lines : List Text)
      → IsInt a
      → spec_line line parsed (sanitize_line (codes "priority: " ++ print_int a)) lines
        ≡ ok (record parsed { priority = a }, (suc line, lines))
  priority_line line parsed a lines h =
      numeral_line line parsed (print_int a) a lines (print_int-IsNumeral a) (atoi-print_int a h)

  -- A key without a value, with the block behind it.
  block_line :
      (line : ℕ) (parsed assigned : RawRuleSpec) (text : Text) (lines : List Text) (key : Text)
      (block rest : List Text)
      → spec_line line parsed text lines ≡ assign_pair line parsed lines (some (key, []))
      → gather_indented_block lines 0 ≡ (block, length block, rest)
      → assign_block_value parsed key block line ≡ ok assigned
      → spec_line line parsed text lines ≡ ok (assigned, (suc line + length block, rest))
  block_line line parsed assigned text lines key block rest e gathered f = e ∙ rw (gathered, f) refl

  abbrev name_of : ListKey → Text
  name_of namespaces = codes "namespaces"
  name_of labels = codes "labels"
  name_of exclude = codes "exclude"
  name_of include = codes "include"
  name_of mutable = codes "mutable"
  name_of users = codes "users"

  header_line :
      (line : ℕ) (parsed : RawRuleSpec) (key : ListKey) (lines : List Text)
      → spec_line line parsed (sanitize_line (header key)) lines
        ≡ assign_pair line parsed lines (some (name_of key, []))
  unfolding spec_line sanitize_line split_key_value trim_space text_eq count_indent
  header_line line parsed namespaces lines = refl
  header_line line parsed _ lines = refl

  selectors_header_line :
      (line : ℕ) (parsed : RawRuleSpec) (lines : List Text)
      → spec_line line parsed (sanitize_line (codes "selectors:")) lines
        ≡ assign_pair line parsed lines (some (codes "selectors", []))
  unfolding spec_line sanitize_line split_key_value trim_space text_eq count_indent
  selectors_header_line line parsed lines = refl

  assign_list :
      (line : ℕ) (parsed : RawRuleSpec) (key : ListKey) (block items : List Text)
      → parse_string_list block ≡ ok items
      → assign_block_value parsed (name_of key) block line ≡ ok (set_list parsed key items)
  unfolding assign_block_value text_eq
  assign_list line parsed namespaces block items e = rw e refl
  assign_list line parsed labels block items e = rw e refl
  assign_list line parsed exclude block items e = rw e refl
  assign_list line parsed include block items e = rw e refl
  assign_list line parsed mutable block items e = rw e refl
  assign_list line parsed users block items e = rw e refl

  assign_selector_block :
      (line : ℕ) (parsed : RawRuleSpec) (block : List Text) (selectors : List ResourceSelector)
      → parse_selector_list block ≡ ok selectors
      → assign_block_value parsed (codes "selectors") block line
        ≡ ok (record parsed { selectors = selectors })
  unfolding assign_block_value text_eq
  assign_selector_block line parsed block selectors e = rw e refl

  pub list_section :
      (line : ℕ) (parsed : RawRuleSpec) (key : ListKey) (items rest : List Text)
      → AreQuotable items
      → StopsBlock rest
      → spec_line line parsed (sanitize_line (header key)) (map item_line items ++ rest)
        ≡ ok (set_list parsed key items, (suc line + length (map item_line items), rest))
  list_section line parsed key items rest h k =
      block_line line parsed (set_list parsed key items) (sanitize_line (header key))
        (map item_line items ++ rest) (name_of key) (map item_line items) rest
        (header_line line parsed key (map item_line items ++ rest))
        (gather-AreIndented (map item_line items) rest (items-AreIndented items h) k)
        (assign_list line parsed key (map item_line items) items (parse_string_list-quoted items))

  pub selector_section :
      (line : ℕ) (parsed : RawRuleSpec) (selectors : List ResourceSelector) (rest : List Text)
      → AreQuotableSelectors selectors
      → HaveKinds selectors
      → StopsBlock rest
      → spec_line line parsed
          (sanitize_line (codes "selectors:"))
          (selector_lines selectors ++ rest)
        ≡ ok (
          record parsed { selectors = selectors },
          (suc line + length (selector_lines selectors), rest),
        )
  selector_section line parsed selectors rest h kinds k =
      block_line line parsed (record parsed { selectors = selectors })
        (sanitize_line (codes "selectors:")) (selector_lines selectors ++ rest) (codes "selectors")
        (selector_lines selectors) rest
        (selectors_header_line line parsed (selector_lines selectors ++ rest))
        (gather-AreIndented (selector_lines selectors) rest (selectors-AreIndented selectors h) k)
        (assign_selector_block line parsed (selector_lines selectors) selectors
          (parse_selector_list-lines selectors kinds))
