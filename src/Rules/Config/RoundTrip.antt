-- ===== src/Rules/Config/RoundTrip.antt =====
-- A canonical rule text is read back.
use drift_sentinel.Base.{
  ℕ, zero, suc, ◌+◌, ◌≤◌, List, [], ◌∷◌, ◌++◌, map, length, length-append, ◌≡◌, refl, arith,
}
use drift_sentinel.Base.Text.{Text, Unicode, codes, split_at, text_eq, trim_space}
use drift_sentinel.Base.Number.{print_int}
use drift_sentinel.Base.Result.{ok}
use drift_sentinel.Rules.Config.Line.{count_indent, sanitize_line}
use drift_sentinel.Rules.Config.Spec.{
  ListKey, RawRuleSpec, empty_spec, exclude, gather_indented_block, include, labels, mutable,
  namespaces, parse_rule_spec, set_list, spec_line, spec_loop, users,
}
use drift_sentinel.Rules.Config.Print.{
  AreQuotable, IsInline, IsPrintable, header, item_line, list_lines, print_spec, quoted,
  selector_lines, spec_lines,
}
use drift_sentinel.Rules.Config.Print.Blocks.{StopsBlock}
use drift_sentinel.Rules.Config.Print.Lines.{sanitize_line-quoted}
use drift_sentinel.Rules.Config.Print.Keys.{bypass_line, mode_line}
use drift_sentinel.Rules.Config.Print.Ends.{spec_lines-AreLines, split_at-join}
use drift_sentinel.Rules.Config.Print.Sections.{list_section, priority_line, selector_section}

module _ ⦃u : Unicode⦄ where
  -- With fuel for the lines, the loop reads them into `result`.
  abbrev Reads : RawRuleSpec → List Text → RawRuleSpec → Type 0
  Reads parsed lines result =
      (fuel line : ℕ) → length lines ≤ fuel → spec_loop fuel line parsed lines ≡ ok result

  Reads-nil : (parsed : RawRuleSpec) → Reads parsed [] parsed
  unfolding spec_loop
  Reads-nil parsed zero line h = refl
  Reads-nil parsed (suc fuel) line h = refl

  Reads-section :
      (parsed assigned result : RawRuleSpec) (text : Text) (block rest : List Text) (taken : ℕ)
      → ((line : ℕ)
          → spec_line line parsed (sanitize_line text) (block ++ rest)
            ≡ ok (assigned, (suc line + taken, rest)))
      → Reads assigned rest result
      → Reads parsed (text ∷ (block ++ rest)) result
  Reads-section parsed assigned result text block rest taken e r zero line h = absurd (omega arith)
  Reads-section parsed assigned result text block rest taken e r (suc fuel) line h =
      let here = e line in
      let after = r fuel (suc line + taken) (omega (arith, length-append {0} block rest)) in
      unfold spec_loop in rw (here, after) refl

  Reads-line :
      (parsed assigned result : RawRuleSpec) (text : Text) (rest : List Text)
      → ((line : ℕ)
          → spec_line line parsed (sanitize_line text) rest ≡ ok (assigned, (suc line, rest)))
      → Reads assigned rest result
      → Reads parsed (text ∷ rest) result
  Reads-line parsed assigned result text rest e r zero line h = absurd (omega arith)
  Reads-line parsed assigned result text rest e r (suc fuel) line h =
      let here = e line in
      let after = r fuel (suc line) (omega arith) in unfold spec_loop in rw (here, after) refl

  Reads-list :
      (parsed result : RawRuleSpec) (key : ListKey) (items rest : List Text)
      → AreQuotable items
      → StopsBlock rest
      → Reads (set_list parsed key items) rest result
      → Reads parsed (list_lines key items rest) result
  Reads-list parsed result key items rest h k =
      Reads-section parsed (set_list parsed key items) result (header key) (map item_line items)
        rest (length (map item_line items)) (λ line. list_section line parsed key items rest h k)

-- A list or the last line ends the block before it.
StopsBlock-list : (key : ListKey) (items rest : List Text) → StopsBlock (list_lines key items rest)
unfolding gather_indented_block sanitize_line count_indent trim_space text_eq
StopsBlock-list namespaces items rest = refl
StopsBlock-list _ items rest = refl

StopsBlock-bypass : (s : Text) → IsInline s → StopsBlock ((codes "bypass: " ++ quoted s) ∷ [])
StopsBlock-bypass s h =
    let whole = sanitize_line-quoted (codes "bypass: ") s refl h.0 in
    unfold gather_indented_block in rw whole refl

StopsBlock-selectors : (rest : List Text) → StopsBlock (codes "selectors:" ∷ rest)
unfolding gather_indented_block sanitize_line count_indent trim_space text_eq
StopsBlock-selectors rest = refl

module _ ⦃u : Unicode⦄ where
  -- The sections after the priority, one after the other.
  Reads-lists :
      (parsed spec : RawRuleSpec) (rest : List Text)
      → IsPrintable spec
      → StopsBlock rest
      → Reads
          (record parsed {
            labels = spec.labels;
            exclude = spec.exclude;
            include = spec.include;
            mutable = spec.mutable;
            users = spec.users;
          })
          rest
          spec
      → Reads parsed
          (list_lines labels spec.labels (
            list_lines exclude spec.exclude (
              list_lines include spec.include
                (list_lines mutable spec.mutable (list_lines users spec.users rest)))))
          spec
  Reads-lists parsed spec rest h stops r =
      Reads-list parsed spec labels spec.labels _ h.labels (StopsBlock-list exclude spec.exclude _)
        (Reads-list _ spec exclude spec.exclude _ h.exclude (StopsBlock-list include spec.include _)
          (Reads-list _ spec include spec.include _ h.include
            (StopsBlock-list mutable spec.mutable _)
            (Reads-list _ spec mutable spec.mutable _ h.mutable
              (StopsBlock-list users spec.users rest)
              (Reads-list _ spec users spec.users rest h.users stops r))))

  Reads-spec_lines :
      (spec : RawRuleSpec) → IsPrintable spec → Reads empty_spec (spec_lines spec) spec
  Reads-spec_lines spec h =
      let s1 : RawRuleSpec = record empty_spec { mode = spec.mode } in
      let s2 : RawRuleSpec = record s1 { priority = spec.priority } in
      let s3 : RawRuleSpec = record s2 { namespaces = spec.namespaces } in
      let s4 : RawRuleSpec = record s3 { selectors = spec.selectors } in
      let s5 : RawRuleSpec = record spec { bypass = [] } in
      Reads-line empty_spec s1 spec (codes "mode: " ++ quoted spec.mode) _
        (λ line. mode_line line empty_spec spec.mode _ h.mode)
        (Reads-line s1 s2 spec (codes "priority: " ++ print_int spec.priority) _
          (λ line. priority_line line s1 spec.priority _ h.priority)
          (Reads-list s2 spec namespaces spec.namespaces _ h.namespaces (StopsBlock-selectors _) (
            Reads-section s3 s4 spec (codes "selectors:") (selector_lines spec.selectors) _
              (length (selector_lines spec.selectors))
              (λ line.
                selector_section line s3 spec.selectors _ h.selectors h.kinds
                  (StopsBlock-list labels spec.labels _))
              (Reads-lists s4 spec _ h (StopsBlock-bypass spec.bypass h.bypass) (
                Reads-line s5 spec spec (codes "bypass: " ++ quoted spec.bypass) []
                  (λ line. bypass_line line s5 spec.bypass [] h.bypass) (Reads-nil spec))))))

  -- The canonical text of a rule (one key to a line, the texts in double quotes, the lists as blocks) is
  -- read back as it was. The texts have no double quote and no end of line, the mode and the bypass
  -- annotation no tab; the priority is an `int`, and each selector has a kind.
  pub parse_rule_spec-print_spec :
      (spec : RawRuleSpec) → IsPrintable spec → parse_rule_spec (print_spec spec) ≡ ok spec
  parse_rule_spec-print_spec spec h =
      let split : split_at 10 (print_spec spec) ≡ spec_lines spec =
        unfold print_spec in
        split_at-join (codes "mode: " ++ quoted spec.mode) _ (spec_lines-AreLines spec h) in
      let read = Reads-spec_lines spec h (length (spec_lines spec)) 1 (omega arith) in
      unfold parse_rule_spec in rw split read
