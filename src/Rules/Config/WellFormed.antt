-- ===== src/Rules/Config/WellFormed.antt =====
-- What `ParseConfigMap` gives.
use drift_sentinel.Base.{
  Bool, true, false, not, List, [], ◌∷◌, Option, none, some, if◌then◌else◌, is_empty, ◌≡◌, refl,
  arith,
}
use drift_sentinel.Base.Assoc.{get}
use drift_sentinel.Base.Text.{Text, Unicode, codes, text_eq, trim_space}
use drift_sentinel.Base.Number.{IsInt}
use drift_sentinel.Base.Result.{
  Delivers-map, Delivers, delivers, fails, Delivers-bind, Delivers-wrap,
}
use drift_sentinel.Rules.Types.{default_bypass_annotation, Rule, ConfigMap}
use drift_sentinel.Rules.PathMatch.{path_match, path_match-valid}
use drift_sentinel.Rules.Config.{
  is_rule_config_map, is_valid_mode, check_patterns, check_match, check_spec, fail_if, rule_of,
  parse_config_map,
}
use drift_sentinel.Rules.Config.Spec.{RawRuleSpec}
use drift_sentinel.Rules.Config.Lists.Sound.{HaveKinds}
use drift_sentinel.Rules.Config.Spec.Sound.{parse_rule_spec-Delivers}

module _ ⦃u : Unicode⦄ where
  -- The pattern is well-formed, so that its match with any name has an answer.
  abbrev pub IsPattern : Text → Type 0
  IsPattern pattern = (name : Text) → (matched : Bool) × (path_match pattern name ≡ some matched)

  abbrev pub ArePatterns : List Text → Type 0
  ArePatterns [] = Unit
  ArePatterns (pattern ∷ patterns) = IsPattern pattern × ArePatterns patterns

  check_match-Delivers :
      (pattern : Text) (o : Option Bool)
      → path_match pattern [] ≡ o
      → Delivers (λ _. IsPattern pattern) (check_match pattern o)
  check_match-Delivers pattern none e = fails
  check_match-Delivers pattern (some m) e = delivers (λ name. path_match-valid pattern [] name m e)

  check_patterns-Delivers :
      (patterns : List Text) → Delivers (λ _. ArePatterns patterns) (check_patterns patterns)
  unfolding check_patterns
  check_patterns-Delivers [] = delivers tt
  check_patterns-Delivers (pattern ∷ patterns) =
      Delivers-bind (check_match-Delivers pattern (path_match pattern []) refl)
        λ _ k. Delivers-map (λ _ ks. (k, ks)) (check_patterns-Delivers patterns)

  fail_if-Delivers : (b : Bool) (e : Text) → Delivers (λ _. b ≡ false) (fail_if b e)
  fail_if-Delivers true e = fails
  fail_if-Delivers false e = delivers refl

  check_spec-Delivers :
      (spec : RawRuleSpec)
      → Delivers
          (λ _.
            (is_valid_mode spec.mode ≡ true)
            × (is_empty spec.namespaces ≡ false)
            × (is_empty spec.selectors ≡ false)
            × ArePatterns spec.namespaces)
          (check_spec spec)
  unfolding check_spec
  check_spec-Delivers spec =
      Delivers-bind (fail_if-Delivers (not (is_valid_mode spec.mode)) _) λ _ a.
        Delivers-bind (fail_if-Delivers (is_empty spec.namespaces) _) λ _ b.
          Delivers-bind (fail_if-Delivers (is_empty spec.selectors) _) λ _ c.
            Delivers-map (λ _ d. (ground arith, b, c, d)) (check_patterns-Delivers spec.namespaces)

  -- A rule that the config map can give.
  pub record IsRuleOf (config : ConfigMap) (rule : Rule) : Type 0 where
    pub annotated : is_rule_config_map config ≡ true
    pub same_name : rule.name ≡ config.name
    pub same_namespace : rule.namespace ≡ config.namespace
    pub int_priority : IsInt rule.priority
    pub valid_mode : is_valid_mode rule.mode ≡ true
    pub some_namespace : is_empty rule.namespaces ≡ false
    pub patterns : ArePatterns rule.namespaces
    pub some_selector : is_empty rule.selectors ≡ false
    pub kinds : HaveKinds rule.selectors
    pub some_bypass : is_empty rule.bypass ≡ false

  bypass_lem :
      (bypass : Text)
      → is_empty (if is_empty bypass then default_bypass_annotation else bypass) ≡ false
  bypass_lem [] = refl
  bypass_lem (c ∷ s) = refl

  -- `ParseConfigMap` ends with an error or with a rule. The config map of a rule is annotated as one; the
  -- rule has its name and namespace, one of the four modes, a priority that is an `int`, at least one
  -- namespace pattern, all of them well-formed, at least one selector, each with a kind, and a bypass
  -- annotation.
  pub parse_config_map-IsRuleOf :
      (config : ConfigMap) → Delivers (IsRuleOf config) (parse_config_map config)
  unfolding parse_config_map rule_of
  parse_config_map-IsRuleOf config =
      Delivers-bind (fail_if-Delivers (not (is_rule_config_map config)) _) λ _ a.
        Delivers-bind
          (fail_if-Delivers (text_eq (trim_space (get (codes "spec") config.values)) []) _)
          λ _ _.
            Delivers-bind
              (Delivers-wrap _
                (parse_rule_spec-Delivers (trim_space (get (codes "spec") config.values))))
              λ spec (priority, kinds).
                Delivers-bind (check_spec-Delivers spec) λ _ (mode, listed, selected, patterns).
                  delivers (record {
                    annotated = ground arith;
                    same_name = refl;
                    same_namespace = refl;
                    int_priority = priority;
                    valid_mode = mode;
                    some_namespace = listed;
                    patterns = patterns;
                    some_selector = selected;
                    kinds = kinds;
                    some_bypass = bypass_lem spec.bypass;
                  })
