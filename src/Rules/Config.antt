-- ===== src/Rules/Config.antt =====
-- pkg/rules/config.go: the parser of the rule text in a config map.
pub mod Line
pub mod Lists
pub mod Spec
pub mod Print
pub mod RoundTrip
pub mod Accepts
pub mod WellFormed
use drift_sentinel.Base.{
  ℕ, Bool, true, false, not, ◌||◌, List, [], ◌∷◌, ◌++◌, Option, none, some, if◌then◌else◌, is_empty,
}
use drift_sentinel.Base.Text.{Text, Unicode, codes, text_eq, trim_space, folds_to_true}
use drift_sentinel.Base.Assoc.{find, get}
use drift_sentinel.Base.Quote.{quote}
use drift_sentinel.Base.Result.{Result, ok, err, out_of_fuel, ◌>>=◌, wrap}
use drift_sentinel.Rules.Types.{
  Rule, Mode, mode_enforce, mode_warn, mode_dry_run, mode_off, ConfigMap, TextMap,
  rule_annotation_key, default_bypass_annotation,
}
use drift_sentinel.Rules.PathMatch.{path_match}
use drift_sentinel.Rules.Store.{clone}
use drift_sentinel.Rules.Config.Spec.{RawRuleSpec, parse_rule_spec}

unfoldable pub is_rule_config_map : ConfigMap → Bool
unfolding find
is_rule_config_map config = folds_to_true (trim_space (get rule_annotation_key config.annotations))

unfoldable pub is_valid_mode : Mode → Bool
is_valid_mode mode =
    text_eq mode mode_enforce
    || text_eq mode mode_warn
    || text_eq mode mode_dry_run
    || text_eq mode mode_off

abbrev pub full_name : ConfigMap → Text
full_name config = config.namespace ++ b'/' ∷ config.name

-- `if test { return …, err }`.
abbrev pub fail_if : Bool → Text → Result (Unit {0})
fail_if true message = err message
fail_if false message = ok tt

infixl 5 ◌>>◌
abbrev pub ◌>>◌ {ℓ} : {A : Type ℓ} → Result (Unit {0}) → Result A → Result A
m >> k = m >>= λ _. k

module _ ⦃u : Unicode⦄ where
  abbrev pub check_match : Text → Option Bool → Result (Unit {0})
  check_match pattern none =
      err
        (codes "invalid namespace pattern " ++ (quote pattern ++ codes ": syntax error in pattern"))
  check_match pattern (some matched) = ok tt

  unfoldable pub check_patterns : List Text → Result (Unit {0})
  check_patterns [] = ok tt
  check_patterns (pattern ∷ patterns) = do
    check_match pattern (path_match pattern [])
    check_patterns patterns

  -- The checks of `ParseConfigMap` on the parsed text.
  unfoldable pub check_spec : RawRuleSpec → Result (Unit {0})
  unfolding check_patterns is_valid_mode
  check_spec spec = do
    fail_if (not (is_valid_mode spec.mode)) (codes "invalid mode " ++ quote spec.mode)
    fail_if (is_empty spec.namespaces) (codes "namespaces must contain at least one pattern")
    fail_if (is_empty spec.selectors) (codes "selectors must contain at least one selector")
    check_patterns spec.namespaces

  unfoldable pub rule_of : ConfigMap → RawRuleSpec → Rule
  rule_of config spec = record {
    name = config.name;
    namespace = config.namespace;
    priority = spec.priority;
    mode = spec.mode;
    namespaces = clone spec.namespaces;
    selectors = clone spec.selectors;
    labels = clone spec.labels;
    exclude = clone spec.exclude;
    include = clone spec.include;
    mutable = clone spec.mutable;
    users = clone spec.users;
    bypass = if is_empty spec.bypass then default_bypass_annotation else spec.bypass;
  }

  unfoldable pub parse_config_map : ConfigMap → Result Rule
  unfolding is_rule_config_map parse_rule_spec check_spec rule_of
  parse_config_map config = do
    let spec_text = trim_space (get (codes "spec") config.values)
    fail_if (not (is_rule_config_map config)) (
        codes "configmap "
        ++ (full_name config ++ codes " is not annotated as a drift sentinel rule"))
    fail_if (text_eq spec_text [])
        (codes "configmap " ++ (full_name config ++ codes " is missing data.spec"))
    spec ←
        wrap (λ e. codes "parse configmap " ++ (full_name config ++ (codes ": " ++ e)))
          (parse_rule_spec spec_text)
    check_spec spec
    ok (rule_of config spec)
