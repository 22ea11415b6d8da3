-- ===== src/Tests/Rules.antt =====
-- pkg/rules at concrete rules.
use drift_sentinel.Base.{true, [], ◌∷◌, some, ◌≡◌, ◌↔◌, refl, inl, inr}
use drift_sentinel.Base.Text.{Text, codes, text_eq, trim_space, cut_at}
use drift_sentinel.Base.Assoc.{find}
use drift_sentinel.Base.Number.{ℤ, pos}
use drift_sentinel.Base.Sort.{sort, In}
use drift_sentinel.Rules.Types.{ResourceSelector, Rule, MatchInput, mode_enforce}
use drift_sentinel.Rules.Store.{new_store, replace, clone_rule, sort_rules, rule_less}
use drift_sentinel.Rules.PathMatch.{path_match}
use drift_sentinel.Rules.Matcher.{
  match_rules, store_match, matches_namespace, matches_selector, matches_labels,
}
use drift_sentinel.Rules.Matcher.Priority.{
  IsBest, HasUniqueNames, applies, match_rules-IsBest, match_rules-order, store_match-replace,
}
use drift_sentinel.Rules.Matcher.Applies.{Holds, applies_iff}

abbrev rule_named : Text → ℤ → Rule
rule_named name priority = record {
  name = name;
  namespace = codes "default";
  priority = priority;
  mode = mode_enforce;
  namespaces = codes "*" ∷ [];
  selectors = (record { api_group = codes "apps"; kind = codes "Deployment" }) ∷ [];
  labels = codes "team=a" ∷ [];
  exclude = [];
  include = [];
  mutable = [];
  users = [];
  bypass = codes "drift/bypass";
}

abbrev low : Rule
low = rule_named (codes "low") (pos 1)

abbrev high : Rule
high = rule_named (codes "high") (pos 9)

abbrev pub deployment : MatchInput
deployment = record {
  namespace = codes "prod";
  api_group = codes "apps";
  kind = codes "Deployment";
  labels = (codes "team", codes "a") ∷ [];
}

runs_match : match_rules (low ∷ high ∷ []) deployment ≡ some high
unfolding match_rules sort_rules sort rule_less matches_namespace path_match matches_selector
    text_eq matches_labels trim_space cut_at find clone_rule
runs_match = refl

match_rules-IsBest_example :
    IsBest (low ∷ high ∷ []) deployment (match_rules (low ∷ high ∷ []) deployment)
match_rules-IsBest_example = match_rules-IsBest (low ∷ high ∷ []) deployment

store_match-replace_example :
    store_match (replace new_store (low ∷ high ∷ [])) deployment
    ≡ match_rules (low ∷ high ∷ []) deployment
store_match-replace_example = store_match-replace new_store (low ∷ high ∷ []) deployment

names_unique : HasUniqueNames (low ∷ high ∷ [])
names_unique a b (inl e) (inl f) same name = cc
names_unique a b (inl e) (inr (inl f)) same name = cc
names_unique a b (inl e) (inr (inr n)) same name = absurd n
names_unique a b (inr (inl e)) (inl f) same name = cc
names_unique a b (inr (inl e)) (inr (inl f)) same name = cc
names_unique a b (inr (inl e)) (inr (inr n)) same name = absurd n
names_unique a b (inr (inr n)) f same name = absurd n

swapped : (r : Rule) → In r (low ∷ high ∷ []) ↔ In r (high ∷ low ∷ [])
swapped r = (
  λ h. elim h [ inl e ↦ inr (inl e) | inr k ↦ elim k [ inl e ↦ inl e | inr n ↦ absurd n ] ],
  λ h. elim h [ inl e ↦ inr (inl e) | inr k ↦ elim k [ inl e ↦ inl e | inr n ↦ absurd n ] ],
)

match_rules-order_example :
    match_rules (low ∷ high ∷ []) deployment ≡ match_rules (high ∷ low ∷ []) deployment
match_rules-order_example =
    match_rules-order (low ∷ high ∷ []) (high ∷ low ∷ []) deployment names_unique swapped

applies_iff_example : (applies high deployment ≡ true) ↔ (
    ((pattern : Text) × In pattern high.namespaces
      × (path_match pattern deployment.namespace ≡ some true))
    × ((selector : ResourceSelector) × In selector high.selectors
        × (selector.api_group ≡ deployment.api_group)
        × (selector.kind ≡ deployment.kind))
    × ((selector : Text) → In selector high.labels → Holds deployment.labels selector))
applies_iff_example = applies_iff high deployment
