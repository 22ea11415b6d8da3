-- ===== src/Tests/Config.antt =====
-- pkg/rules/config.go at a concrete config map.
use drift_sentinel.Base.{false, [], ◌∷◌, ◌≡◌, refl, arith}
use drift_sentinel.Base.Text.{Text, codes, text_eq, trim_space, folds_to_true, split_at, cut_prefix}
use drift_sentinel.Base.Assoc.{find}
use drift_sentinel.Base.Number.{atoi, decimal, negsuc}
use drift_sentinel.Base.Quote.{quote}
use drift_sentinel.Base.Result.{Delivers, ok, err}
use drift_sentinel.Rules.Types.{ConfigMap, Rule, mode_enforce, rule_annotation_key}
use drift_sentinel.Rules.PathMatch.{path_match, path_match-valid}
use drift_sentinel.Rules.Config.{is_rule_config_map, is_valid_mode, parse_config_map}
use drift_sentinel.Rules.Config.Spec.{RawRuleSpec, parse_rule_spec}
use drift_sentinel.Rules.Config.Print.{IsPrintable, print_spec}
use drift_sentinel.Rules.Config.RoundTrip.{parse_rule_spec-print_spec}
use drift_sentinel.Rules.Config.Accepts.{rule_with, IsAcceptable, parse_config_map-print_spec}
use drift_sentinel.Rules.Config.WellFormed.{IsRuleOf, parse_config_map-IsRuleOf}
use drift_sentinel.Tests.{ascii}

abbrev pub config_map : Text → ConfigMap
config_map spec = record {
  name = codes "r";
  namespace = codes "system";
  annotations = (rule_annotation_key, codes " True ") ∷ [];
  values = (codes "spec", spec) ∷ [];
}

abbrev pub spec_text : Text
spec_text =
    codes
      "mode: enforce # comment\npriority: -20\n\nnamespaces: [\"a-*\", 'b,c']\nselectors:\n  - apiGroup: apps\n    kind: \"Deployment\"\n  - kind: Pod\nmutable:\n  - \"spec.x # y\"\n"

abbrev pub spec_rule : Rule
spec_rule = record {
  name = codes "r";
  namespace = codes "system";
  priority = negsuc 19;
  mode = mode_enforce;
  namespaces = codes "a-*" ∷ codes "b,c" ∷ [];
  selectors =
      (record { api_group = codes "apps"; kind = codes "Deployment" })
      ∷ (record { api_group = []; kind = codes "Pod" })
      ∷ [];
  labels = [];
  exclude = [];
  include = [];
  mutable = codes "spec.x # y" ∷ [];
  users = [];
  bypass = codes "drift-sentinel.k8s.io/bypass";
}

pub runs_parse : parse_config_map (config_map spec_text) ≡ ok spec_rule
unfolding parse_config_map text_eq trim_space folds_to_true split_at cut_prefix find atoi path_match
runs_parse = refl

runs_error :
    parse_config_map (config_map (codes "mode: enforce\nspeed: 3"))
    ≡ err (codes "parse configmap system/r: line 2: unsupported key \"speed\"")
unfolding parse_config_map text_eq trim_space folds_to_true split_at cut_prefix find decimal quote
runs_error = refl

parse_config_map-IsRuleOf_example :
    Delivers (IsRuleOf (config_map spec_text)) (parse_config_map (config_map spec_text))
parse_config_map-IsRuleOf_example = parse_config_map-IsRuleOf (config_map spec_text)

abbrev canonical : RawRuleSpec
canonical = record {
  mode = codes "warn";
  priority = negsuc 4;
  namespaces = codes "a-*" ∷ [];
  selectors =
      (record { api_group = []; kind = codes "Pod" })
      ∷ (record { api_group = codes "apps"; kind = codes "Deployment" })
      ∷ [];
  labels = codes "team" ∷ [];
  exclude = codes "status # all" ∷ codes "" ∷ [];
  include = [];
  mutable = codes "spec['a: b']" ∷ [];
  users = [];
  bypass = [];
}

canonical-IsPrintable : IsPrintable canonical
unfolding text_eq
canonical-IsPrintable = record {
  mode = (refl, refl);
  priority = omega arith;
  namespaces = (refl, tt);
  selectors = (refl, refl, (refl, refl, tt));
  kinds = (refl, (refl, tt));
  labels = (refl, tt);
  exclude = (refl, (refl, tt));
  include = tt;
  mutable = (refl, tt);
  users = tt;
  bypass = (refl, refl);
}

canonical-IsAcceptable : IsAcceptable canonical
unfolding is_valid_mode text_eq path_match
canonical-IsAcceptable = record {
  valid_mode = refl;
  some_namespace = refl;
  some_selector = refl;
  patterns = (λ name. path_match-valid (codes "a-*") [] name false refl, tt);
}

parse_rule_spec-print_spec_example : parse_rule_spec (print_spec canonical) ≡ ok canonical
parse_rule_spec-print_spec_example = parse_rule_spec-print_spec canonical canonical-IsPrintable

parse_config_map-print_spec_example :
    parse_config_map (config_map (print_spec canonical))
    ≡ ok (rule_with (config_map (print_spec canonical)) canonical)
unfolding is_rule_config_map trim_space text_eq find folds_to_true
parse_config_map-print_spec_example =
    parse_config_map-print_spec (config_map (print_spec canonical)) canonical refl refl
      canonical-IsPrintable canonical-IsAcceptable
