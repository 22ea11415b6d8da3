-- ===== src/Rules/Config/Accepts.antt =====
-- A config map with the canonical text of a valid rule gives the rule.
use drift_sentinel.Base.{true, false, if◌then◌else◌, List, [], ◌∷◌, ◌++◌, map, is_empty, ◌≡◌, refl}
use drift_sentinel.Base.Text.{Text, Unicode, codes, is_space, join, text_eq, trim_space}
use drift_sentinel.Base.Trim.{EndsSolid, EndsSolid-append, trim_space-solid}
use drift_sentinel.Base.Assoc.{get}
use drift_sentinel.Base.Result.{ok}
use drift_sentinel.Rules.Types.{ConfigMap, Rule, default_bypass_annotation}
use drift_sentinel.Rules.Config.{
  check_patterns, check_spec, is_rule_config_map, is_valid_mode, parse_config_map, rule_of,
}
use drift_sentinel.Rules.Config.Spec.{
  ListKey, RawRuleSpec, exclude, include, labels, mutable, namespaces, users,
}
use drift_sentinel.Rules.Config.Print.{
  IsPrintable, header, item_line, list_lines, print_spec, quoted, selector_lines, spec_lines,
}
use drift_sentinel.Rules.Config.RoundTrip.{parse_rule_spec-print_spec}
use drift_sentinel.Rules.Config.WellFormed.{ArePatterns}

-- The last line ends with no white space.
abbrev LastSolid : List Text → Type 0
LastSolid [] = ⊥
LastSolid (line ∷ []) = EndsSolid line
LastSolid (line ∷ next ∷ lines) = LastSolid (next ∷ lines)

LastSolid-append : (xs ys : List Text) (y : Text) → LastSolid (y ∷ ys) → LastSolid (xs ++ y ∷ ys)
LastSolid-append [] ys y h = h
LastSolid-append (x ∷ []) ys y h = h
LastSolid-append (x ∷ x' ∷ xs) ys y h = LastSolid-append (x' ∷ xs) ys y h

join-EndsSolid : (lines : List Text) → LastSolid lines → EndsSolid (join (10 ∷ []) lines)
unfolding join
join-EndsSolid [] h = absurd h
join-EndsSolid (line ∷ []) h = h
join-EndsSolid (line ∷ next ∷ lines) h =
    EndsSolid-append line (10 ∷ join (10 ∷ []) (next ∷ lines))
      (EndsSolid-append (10 ∷ []) (join (10 ∷ []) (next ∷ lines)) (join-EndsSolid (next ∷ lines) h))

LastSolid-list :
    (key : ListKey) (items lines : List Text) (line : Text)
    → LastSolid (line ∷ lines)
    → LastSolid (list_lines key items (line ∷ lines))
LastSolid-list key items lines line h =
    LastSolid-append (header key ∷ map item_line items) lines line h

spec_lines-LastSolid : (spec : RawRuleSpec) → LastSolid (spec_lines spec)
spec_lines-LastSolid spec =
    let last : LastSolid ((codes "bypass: " ++ quoted spec.bypass) ∷ []) =
      (codes "bypass: " ++ 34 ∷ spec.bypass, 34, refl, unfold is_space in refl) in
    LastSolid-list namespaces spec.namespaces _ (codes "selectors:") (
      LastSolid-append (codes "selectors:" ∷ selector_lines spec.selectors) _ (header labels) (
        LastSolid-list labels spec.labels _ (header exclude) (
          LastSolid-list exclude spec.exclude _ (header include) (
            LastSolid-list include spec.include _ (header mutable) (
              LastSolid-list mutable spec.mutable _ (header users) (
                LastSolid-list users spec.users [] (codes "bypass: " ++ quoted spec.bypass)
                  last))))))

trim_space-print_spec : (spec : RawRuleSpec) → trim_space (print_spec spec) ≡ print_spec spec
trim_space-print_spec spec =
    trim_space-solid (print_spec spec) (unfold print_spec join is_space in refl)
      (unfold print_spec in join-EndsSolid (spec_lines spec) (spec_lines-LastSolid spec))

print_spec-not_empty : (spec : RawRuleSpec) → text_eq (print_spec spec) [] ≡ false
unfolding print_spec join text_eq
print_spec-not_empty spec = refl

abbrev pub bypass_of : Text → Text
bypass_of [] = default_bypass_annotation
bypass_of (c ∷ s) = c ∷ s

bypass_of-eq : (s : Text) → (if is_empty s then default_bypass_annotation else s) ≡ bypass_of s
bypass_of-eq [] = refl
bypass_of-eq (c ∷ s) = refl

-- The rule with the fields of that text.
abbrev pub rule_with : ConfigMap → RawRuleSpec → Rule
rule_with config spec = record {
  name = config.name;
  namespace = config.namespace;
  priority = spec.priority;
  mode = spec.mode;
  namespaces = spec.namespaces;
  selectors = spec.selectors;
  labels = spec.labels;
  exclude = spec.exclude;
  include = spec.include;
  mutable = spec.mutable;
  users = spec.users;
  bypass = bypass_of spec.bypass;
}

module _ ⦃u : Unicode⦄ where
  -- What `ParseConfigMap` asks of a rule.
  pub record IsAcceptable (spec : RawRuleSpec) : Type 0 where
    pub valid_mode : is_valid_mode spec.mode ≡ true
    pub some_namespace : is_empty spec.namespaces ≡ false
    pub some_selector : is_empty spec.selectors ≡ false
    pub patterns : ArePatterns spec.namespaces

  check_patterns-ok :
      (patterns : List Text) → ArePatterns patterns → check_patterns patterns ≡ ok tt
  unfolding check_patterns
  check_patterns-ok [] h = refl
  check_patterns-ok (pattern ∷ patterns) h =
      let (matched, e) = h.0 [] in rw (e, check_patterns-ok patterns h.1) refl

  check_spec-ok : (spec : RawRuleSpec) → IsAcceptable spec → check_spec spec ≡ ok tt
  check_spec-ok spec h =
      let mode = h.valid_mode in
      let listed = h.some_namespace in
      let selected = h.some_selector in
      let patterns = check_patterns-ok spec.namespaces h.patterns in
      unfold check_spec in rw (mode, listed, selected, patterns) refl

  rule_of-eq :
      (config : ConfigMap) (spec : RawRuleSpec) → rule_of config spec ≡ rule_with config spec
  unfolding rule_of
  rule_of-eq config spec =
      λ i. record (rule_with config spec) { bypass = bypass_of-eq spec.bypass i }

  -- A config map that is annotated as a rule and has the canonical text of an acceptable rule (a valid
  -- mode, some namespace pattern, all of them well-formed, some selector) gives the rule with its own
  -- name and namespace and with the fields of the text, and with the default bypass annotation if the
  -- text has none. The texts have no
  -- double quote and no end of line, the mode and the bypass annotation no tab; the priority is an
  -- `int`, and each selector has a kind.
  pub parse_config_map-print_spec :
      (config : ConfigMap) (spec : RawRuleSpec)
      → is_rule_config_map config ≡ true
      → get (codes "spec") config.values ≡ print_spec spec
      → IsPrintable spec
      → IsAcceptable spec
      → parse_config_map config ≡ ok (rule_with config spec)
  parse_config_map-print_spec config spec annotated text h k =
      let trimmed = trim_space-print_spec spec in
      let filled = print_spec-not_empty spec in
      let parsed = parse_rule_spec-print_spec spec h in
      let checked = check_spec-ok spec k in
      unfold parse_config_map in
      rw (annotated, text, trimmed, filled, parsed, checked, rule_of-eq config spec) refl
