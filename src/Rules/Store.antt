-- ===== src/Rules/Store.antt =====
-- pkg/rules/store.go. Each method holds the lock for its whole effect on `rules`, so it is one step.
use drift_sentinel.Base.{Bool, not, List, [], map, if◌then◌else◌}
use drift_sentinel.Base.Text.{text_eq, text_ltb}
use drift_sentinel.Base.Number.{int_eq, int_ltb}
use drift_sentinel.Base.Sort.{sort}
use drift_sentinel.Rules.Types.{Rule}

-- `slices.Clone`, and `append([]T(nil), s...)`: a new slice with the same elements.
abbrev pub clone {ℓ} : {A : Type ℓ} → List A → List A
clone xs = xs

unfoldable pub clone_rule : Rule → Rule
clone_rule rule = record rule {
  namespaces = clone rule.namespaces;
  selectors = clone rule.selectors;
  labels = clone rule.labels;
  exclude = clone rule.exclude;
  include = clone rule.include;
  mutable = clone rule.mutable;
  users = clone rule.users;
}

-- The function that `sortRules` sorts by: higher priority first, then by namespace and name.
unfoldable pub rule_less : Rule → Rule → Bool
rule_less left right =
    if not (int_eq left.priority right.priority)
    then int_ltb right.priority left.priority
    else if not (text_eq left.namespace right.namespace)
    then text_ltb left.namespace right.namespace
    else text_ltb left.name right.name

unfoldable pub sort_rules : List Rule → List Rule
sort_rules rules = sort rule_less rules

pub record Store : Type 0 where
  pub rules : List Rule

abbrev pub new_store : Store
new_store = record { rules = [] }

unfoldable pub replace : Store → List Rule → Store
replace store rules = record store { rules = sort_rules (map clone_rule rules) }

unfoldable pub snapshot : Store → List Rule
snapshot store = map clone_rule store.rules
