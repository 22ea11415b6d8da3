-- ===== src/Rules/Matcher/Priority.antt =====
-- Which rule `Match` picks.
use drift_sentinel.Base.{
  Bool, true, false, ◌&&◌, List, [], ◌∷◌, map, Option, none, some, if◌then◌else◌, ◌≡◌, ◌↔◌, refl,
  sym, ◌∙◌, ap, arith, Bool-cases, inl, inr,
}
use drift_sentinel.Base.Text.{
  text_ltb, text_ltb_asym, text_ltb_antisym, text_ltb_negtrans, text_eq-text_ltb,
}
use drift_sentinel.Base.Number.{int_eq→eq, int_ltb, int_ltb_asym, int_ltb_negtrans, int_eq-int_ltb}
use drift_sentinel.Base.Lexicographic.{Asymmetric, Transitive, lex, lex-Asymmetric, lex-Transitive}
use drift_sentinel.Base.Sort.{sort, sort-sort, In, sort→In, In→sort, IsOrdered, sort-IsOrdered}
use drift_sentinel.Rules.Types.{Rule, MatchInput}
use drift_sentinel.Rules.Store.{Store, replace, snapshot, clone_rule, rule_less, sort_rules}
use drift_sentinel.Rules.Matcher.{
  matches_namespace, matches_selector, matches_labels, first_match, match_rules, store_match,
}

-- The rule is about the resource.
abbrev pub applies : Rule → MatchInput → Bool
applies rule input =
    matches_namespace rule.namespaces input.namespace
    && (matches_selector rule.selectors input.api_group input.kind
        && matches_labels rule.labels input.labels)

clone_rule-eq : (rule : Rule) → clone_rule rule ≡ rule
unfolding clone_rule
clone_rule-eq rule = refl

map-clone_rule : (rules : List Rule) → map clone_rule rules ≡ rules
map-clone_rule [] = refl
map-clone_rule (r ∷ rules) = rw (clone_rule-eq r, map-clone_rule rules)

-- The three keys of the order, the priority downwards.
abbrev by_priority : Rule → Rule → Bool
by_priority a b = int_ltb b.priority a.priority

abbrev by_namespace : Rule → Rule → Bool
by_namespace a b = text_ltb a.namespace b.namespace

abbrev by_name : Rule → Rule → Bool
by_name a b = text_ltb a.name b.name

-- Higher priority first, then namespace and name.
abbrev pub precedes : Rule → Rule → Bool
precedes = lex by_priority (lex by_namespace by_name)

rule_less-lex : (a b : Rule) → rule_less a b ≡ precedes a b
unfolding rule_less
rule_less-lex a b = ground (
  arith,
  int_eq-int_ltb a.priority b.priority,
  int_ltb_asym a.priority b.priority,
  text_eq-text_ltb a.namespace b.namespace,
  text_ltb_asym a.namespace b.namespace,
)

rule_less_asym : Asymmetric rule_less
rule_less_asym a b h = rw rule_less-lex (
    lex-Asymmetric by_priority (lex by_namespace by_name)
      (λ x y. int_ltb_asym y.priority x.priority)
      (lex-Asymmetric by_namespace by_name (λ x y. text_ltb_asym x.namespace y.namespace)
        (λ x y. text_ltb_asym x.name y.name))
      a b (rw rule_less-lex at h))

rule_less_negtrans : Transitive rule_less
rule_less_negtrans a b c h k = rw rule_less-lex (
    lex-Transitive by_priority (lex by_namespace by_name)
      (λ x y z h k. int_ltb_negtrans z.priority y.priority x.priority k h)
      (lex-Transitive by_namespace by_name
        (λ x y z. text_ltb_negtrans x.namespace y.namespace z.namespace)
        (λ x y z. text_ltb_negtrans x.name y.name z.name))
      a b c (rw rule_less-lex at h) (rw rule_less-lex at k))

precedes_refl : (a : Rule) → precedes a a ≡ false
precedes_refl a = ground (arith, rule_less_asym a a, rule_less-lex a a)

-- Two rules neither of which comes first agree in all that the order reads.
precedes_antisym :
    (a b : Rule)
    → precedes a b ≡ false
    → precedes b a ≡ false
    → (a.priority ≡ b.priority) × (a.namespace ≡ b.namespace) × (a.name ≡ b.name)
precedes_antisym a b h k = (
  int_eq→eq a.priority b.priority (ground (arith, int_eq-int_ltb a.priority b.priority)),
  text_ltb_antisym a.namespace b.namespace (ground arith) (ground arith),
  text_ltb_antisym a.name b.name (ground arith) (ground arith),
)

-- The rule is the best of those that apply, or none applies.
abbrev pub IsBest : List Rule → MatchInput → Option Rule → Type 0
IsBest rules input none = (r : Rule) → In r rules → applies r input ≡ false
IsBest rules input (some rule) =
    In rule rules
    × (applies rule input ≡ true)
    × ((r : Rule) → In r rules → applies r input ≡ true → precedes r rule ≡ false)

first_match-cons :
    (rule : Rule) (rules : List Rule) (input : MatchInput)
    → first_match (rule ∷ rules) input
      ≡ (if applies rule input then some rule else first_match rules input)
unfolding first_match
first_match-cons rule rules input = rw (clone_rule-eq rule) (ground arith)

IsBest-next :
    (rule : Rule) (rules : List Rule) (input : MatchInput) (found : Option Rule)
    → applies rule input ≡ false
    → IsBest rules input found
    → IsBest (rule ∷ rules) input found
IsBest-next rule rules input none e h =
    λ r m. elim m [ inl same ↦ rw same e | inr below ↦ h r below ]
IsBest-next rule rules input (some best) e h =
    (inr h.0, h.1, λ r m a. elim m [ inl same ↦ cc | inr below ↦ h.2 r below a ])

first_match-IsBest :
    (rules : List Rule) (input : MatchInput)
    → IsOrdered rule_less rules
    → IsBest rules input (first_match rules input)
first_match-IsBest [] input h = unfold first_match in λ r m. absurd m
first_match-IsBest (rule ∷ rules) input h = elim (Bool-cases (applies rule input)) [
  | inl e ↦
      let found : first_match (rule ∷ rules) input ≡ some rule =
        rw (first_match-cons rule rules input, e) refl in
      rw found (
        inl refl,
        e,
        λ r m a. elim m [
          | inl same ↦ rw same (precedes_refl rule)
          | inr below ↦ sym (rule_less-lex r rule) ∙ h.0 r below
        ],
      )
  | inr e ↦
      let found : first_match (rule ∷ rules) input ≡ first_match rules input =
        rw (first_match-cons rule rules input, e) refl in
      rw found (
        IsBest-next rule rules input (first_match rules input) e
          (first_match-IsBest rules input h.1))
]

IsBest-elements :
    (xs ys : List Rule) (input : MatchInput) (found : Option Rule)
    → ((r : Rule) → In r xs ↔ In r ys)
    → IsBest xs input found
    → IsBest ys input found
IsBest-elements xs ys input none same h = λ r m. h r ((same r).1 m)
IsBest-elements xs ys input (some rule) same h =
    ((same rule).0 h.0, h.1, λ r m. h.2 r ((same r).1 m))

-- `Match` returns a rule of the list that applies to the input, before which the order of the rules
-- (higher priority first, then namespace and name) puts no other rule that applies; it returns none
-- only when no rule applies.
pub match_rules-IsBest :
    (rules : List Rule) (input : MatchInput) → IsBest rules input (match_rules rules input)
unfolding match_rules sort_rules
match_rules-IsBest rules input =
    IsBest-elements (sort rule_less rules) rules input (first_match (sort rule_less rules) input)
      (λ r. (sort→In rule_less r rules, In→sort rule_less r rules))
      (first_match-IsBest (sort rule_less rules) input
        (sort-IsOrdered rule_less rule_less_asym rule_less_negtrans rules))

-- No two rules have the same namespace and name.
abbrev pub HasUniqueNames : List Rule → Type 0
HasUniqueNames rules =
    (a b : Rule) → In a rules → In b rules → a.namespace ≡ b.namespace → a.name ≡ b.name → a ≡ b

IsBest-unique :
    (rules : List Rule) (input : MatchInput) (x y : Option Rule)
    → HasUniqueNames rules
    → IsBest rules input x
    → IsBest rules input y
    → x ≡ y
IsBest-unique rules input none none unique h k = refl
IsBest-unique rules input none (some b) unique h k = cc (h b k.0, k.1)
IsBest-unique rules input (some a) none unique h k = cc (k a h.0, h.1)
IsBest-unique rules input (some a) (some b) unique h k =
    let (priority, namespace, name) = precedes_antisym a b (k.2 a h.0 h.1) (h.2 b k.0 k.1) in
    ap some (unique a b h.0 k.0 namespace name)

-- Two lists with the same rules, in any order and number, no two of them with the same namespace and
-- name, give the same match.
pub match_rules-order :
    (xs ys : List Rule) (input : MatchInput)
    → HasUniqueNames xs
    → ((r : Rule) → In r xs ↔ In r ys)
    → match_rules xs input ≡ match_rules ys input
match_rules-order xs ys input unique same =
    IsBest-unique xs input (match_rules xs input) (match_rules ys input) unique
      (match_rules-IsBest xs input)
      (IsBest-elements ys xs input (match_rules ys input) (λ r. ((same r).1, (same r).0))
        (match_rules-IsBest ys input))

replace-rules :
    (store : Store) (rules : List Rule) → (replace store rules).rules ≡ sort rule_less rules
unfolding replace sort_rules
replace-rules store rules = ap (sort rule_less) (map-clone_rule rules)

-- A `Match` of the store after `Replace` is a `Match` in the rules of the call, whatever the store
-- held.
pub store_match-replace :
    (store : Store) (rules : List Rule) (input : MatchInput)
    → store_match (replace store rules) input ≡ match_rules rules input
unfolding store_match snapshot match_rules sort_rules
store_match-replace store rules input =
    rw
      (
        replace-rules store rules,
        map-clone_rule (sort rule_less rules),
        sort-sort rule_less rule_less_asym rules,
      )
      refl
