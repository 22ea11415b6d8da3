-- ===== src/Rules/Matcher.antt =====
-- pkg/rules/matcher.go, and the store's `Match`, which calls it.
pub mod Priority
pub mod Applies
use drift_sentinel.Base.{
  Bool, true, false, not, ◌&&◌, ◌||◌, List, [], ◌∷◌, Option, none, some, if◌then◌else◌, any, ◌≡◌,
  refl,
}
use drift_sentinel.Base.Text.{Text, codes, text_eq, trim_space, cut_at}
use drift_sentinel.Base.Assoc.{find}
use drift_sentinel.Rules.Types.{Rule, ResourceSelector, MatchInput, TextMap}
use drift_sentinel.Rules.PathMatch.{path_match}
use drift_sentinel.Rules.Store.{Store, snapshot, clone_rule, sort_rules, clone}

-- A pattern that is malformed matches nothing.
abbrev pub is_match : Option Bool → Bool
is_match none = false
is_match (some matched) = matched

unfoldable pub matches_namespace : List Text → Text → Bool
matches_namespace patterns namespace =
    any (λ pattern. is_match (path_match pattern namespace)) patterns

unfoldable pub matches_selector : List ResourceSelector → Text → Text → Bool
matches_selector selectors api_group kind =
    any (λ selector. text_eq selector.api_group api_group && text_eq selector.kind kind) selectors

-- `strings.Cut(selector, "=")`: the key, and the value if there is one.
abbrev cut_parts : Text → Option (Text × Text) → Text × Option Text
cut_parts selector none = (selector, none)
cut_parts selector (some (key, value)) = (key, some value)

abbrev cut_selector : Text → Text × Option Text
cut_selector selector = cut_parts selector (cut_at b'=' selector)

abbrev value_agrees : Option Text → Option Text → Bool
value_agrees wanted none = false
value_agrees none (some label) = true
value_agrees (some value) (some label) = text_eq label (trim_space value)

-- One round of the loop of `matchesLabels`.
unfoldable pub matches_label : TextMap → Text → Bool
matches_label labels selector =
    let (raw, value) = cut_selector selector in
    let key = trim_space raw in
    if text_eq key [] then false else value_agrees value (find key labels)

unfoldable pub matches_labels : List Text → TextMap → Bool
unfolding matches_label
matches_labels [] labels = true
matches_labels (selector ∷ selectors) labels =
    if matches_label labels selector then matches_labels selectors labels else false

-- The loop of `Match`.
unfoldable pub first_match : List Rule → MatchInput → Option Rule
first_match [] input = none
first_match (rule ∷ rules) input =
    if not (matches_namespace rule.namespaces input.namespace)
    then first_match rules input
    else if not (matches_selector rule.selectors input.api_group input.kind)
    then first_match rules input
    else if not (matches_labels rule.labels input.labels)
    then first_match rules input
    else some (clone_rule rule)

unfoldable pub match_rules : List Rule → MatchInput → Option Rule
unfolding first_match
match_rules rules input = first_match (sort_rules (clone rules)) input

unfoldable pub store_match : Store → MatchInput → Option Rule
store_match store input = match_rules (snapshot store) input
