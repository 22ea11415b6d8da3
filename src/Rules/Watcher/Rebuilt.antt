-- ===== src/Rules/Watcher/Rebuilt.antt =====
-- Which rules a rebuild takes, and what a match in the store at rest depends on.
use mathlib.Core.Path.{subst}
use drift_sentinel.Base.{
  Bool, not, List, [], ◌∷◌, if◌then◌else◌, Bool-cases, ◌≡◌, ◌↔◌, ◌⊎◌, refl, sym, ap, ◌∙◌, inl, inr,
}
use drift_sentinel.Base.Text.{Unicode}
use drift_sentinel.Base.Sort.{In}
use drift_sentinel.Base.Result.{Delivers-ok, Result, ok, err, out_of_fuel}
use drift_sentinel.Rules.Types.{MatchInput, Rule}
use drift_sentinel.Rules.Store.{new_store}
use drift_sentinel.Rules.Matcher.{match_rules, store_match}
use drift_sentinel.Rules.Matcher.Priority.{HasUniqueNames, match_rules-order, store_match-replace}
use drift_sentinel.Rules.Config.{is_rule_config_map, parse_config_map}
use drift_sentinel.Rules.Config.WellFormed.{IsRuleOf, parse_config_map-IsRuleOf}
use drift_sentinel.Rules.Watcher.{CoreConfigMap, from_core_config_map, keep_rule, valid_rules}
use drift_sentinel.Rules.Watcher.System.{State, Steps}
use drift_sentinel.Rules.Watcher.Tracked.{IsQuiet, IsTracked, quiet-store}

module _ ⦃u : Unicode⦄ where
  abbrev parsed : CoreConfigMap → Result Rule
  parsed config = parse_config_map (from_core_config_map config)

  abbrev annotated : CoreConfigMap → Bool
  annotated config = is_rule_config_map (from_core_config_map config)

  -- `ParseConfigMap` reads the rule off some config map of the list.
  abbrev pub Gives : List CoreConfigMap → Rule → Type 0
  Gives configs rule = (config : CoreConfigMap) × In config configs × (parsed config ≡ ok rule)

  valid_rules-cons :
      (config : CoreConfigMap) (configs : List CoreConfigMap)
      → valid_rules (config ∷ configs) ≡ (
          if not (annotated config)
          then valid_rules configs
          else keep_rule (parsed config) (valid_rules configs))
  unfolding valid_rules
  valid_rules-cons config configs = refl

  parsed-IsRuleOf :
      (config : CoreConfigMap) (rule : Rule)
      → parsed config ≡ ok rule
      → IsRuleOf (from_core_config_map config) rule
  parsed-IsRuleOf config rule e =
      Delivers-ok (IsRuleOf (from_core_config_map config)) (parsed config) rule
        (parse_config_map-IsRuleOf (from_core_config_map config)) e

  -- What the parser refuses is not annotated or has an error: nothing is kept of it.
  abbrev taken : CoreConfigMap → List Rule → List Rule
  taken config rest = if not (annotated config) then rest else keep_rule (parsed config) rest

  keep_rule-In :
      (m : Result Rule) (rest : List Rule) (rule : Rule)
      → In rule (keep_rule m rest) ↔ ((m ≡ ok rule) ⊎ In rule rest)
  keep_rule-In (ok r) rest rule = (
    λ h. elim h [ inl e ↦ inl (ap ok (sym e)) | inr i ↦ inr i ],
    λ h. elim h [ inl e ↦ let same : r ≡ rule = cc in inl (sym same) | inr i ↦ inr i ],
  )
  keep_rule-In (err e) rest rule = (λ h. inr h, λ h. elim h [ inl f ↦ cc | inr i ↦ i ])
  keep_rule-In out_of_fuel rest rule = (λ h. inr h, λ h. elim h [ inl f ↦ cc | inr i ↦ i ])

  taken-In :
      (config : CoreConfigMap) (rest : List Rule) (rule : Rule)
      → In rule (taken config rest) ↔ ((parsed config ≡ ok rule) ⊎ In rule rest)
  taken-In config rest rule = elim (Bool-cases (annotated config)) [
    | inl e ↦ rw e (keep_rule-In (parsed config) rest rule)
    | inr e ↦ rw e (
      λ h. inr h,
      λ h. elim h [ inl f ↦ let k = (parsed-IsRuleOf config rule f).annotated in cc | inr i ↦ i ],
    )
  ]

  -- A rebuild takes exactly the rules that `ParseConfigMap` reads off the config maps of the list: one
  -- that it refuses, or that is not annotated, leaves the rules of the others as they are.
  pub valid_rules-In :
      (configs : List CoreConfigMap) (rule : Rule)
      → In rule (valid_rules configs) ↔ Gives configs rule
  valid_rules-In [] rule = (λ m. absurd (unfold valid_rules in m), λ g. absurd g.1)
  valid_rules-In (config ∷ configs) rule =
      let here = taken-In config (valid_rules configs) rule in
      let below = valid_rules-In configs rule in
      rw valid_rules-cons (
        λ m. elim (here.0 m) [
          | inl e ↦ (config, inl refl, e)
          | inr i ↦ let (c, j, e) = below.0 i in (c, inr j, e)
        ],
        λ (c, j, e). here.1 (elim j [
          | inl same ↦ inl (subst (λ k. parsed k ≡ ok rule) same e)
          | inr i ↦ inr (below.1 (c, i, e))
        ]),
      )

-- No two config maps have the same namespace and name, as in a cluster.
abbrev pub HaveUniqueNames : List CoreConfigMap → Type 0
HaveUniqueNames configs =
    (a b : CoreConfigMap)
    → In a configs
    → In b configs
    → a.namespace ≡ b.namespace
    → a.name ≡ b.name
    → a ≡ b

module _ ⦃u : Unicode⦄ where
  name_of :
      (config : CoreConfigMap) (rule : Rule)
      → parsed config ≡ ok rule
      → (rule.namespace ≡ config.namespace) × (rule.name ≡ config.name)
  unfolding from_core_config_map
  name_of config rule e = let k = parsed-IsRuleOf config rule e in (k.same_namespace, k.same_name)

  parsed_unique :
      (a b : CoreConfigMap) (r s : Rule) → a ≡ b → parsed a ≡ ok r → parsed b ≡ ok s → r ≡ s
  parsed_unique a b r s same e f =
      let both : ◌≡◌ {A = Result Rule} (ok r) (ok s) = sym e ∙ ap parsed same ∙ f in cc

  valid_rules-HasUniqueNames :
      (configs : List CoreConfigMap)
      → HaveUniqueNames configs
      → HasUniqueNames (valid_rules configs)
  valid_rules-HasUniqueNames configs unique r s m n namespaces names =
      let (a, i, e) = (valid_rules-In configs r).0 m in
      let (b, j, f) = (valid_rules-In configs s).0 n in
      let (rn, rm) = name_of a r e in
      let (sn, sm) = name_of b s f in
      parsed_unique a b r s (unique a b i j (sym rn ∙ namespaces ∙ sn) (sym rm ∙ names ∙ sm)) e f

  Gives-elements :
      (xs ys : List CoreConfigMap) (rule : Rule)
      → ((c : CoreConfigMap) → In c xs → In c ys)
      → Gives xs rule
      → Gives ys rule
  Gives-elements xs ys rule within (c, i, e) = (c, within c i, e)

  -- A controller that was tracked and is at rest matches as the rules that `ParseConfigMap` reads off the
  -- config maps of its cache do, in whatever order and number these are listed: the history of the
  -- controller and the order of its cache do not show. No two config maps have the same namespace and name.
  pub quiet-match :
      {s t : State}
      → IsTracked s
      → Steps s t
      → IsQuiet t
      → (configs : List CoreConfigMap) → HaveUniqueNames configs
      → ((c : CoreConfigMap) → In c configs ↔ In c t.world.cache)
      → (input : MatchInput)
      → store_match t.world.store input ≡ match_rules (valid_rules configs) input
  quiet-match {s} {t} k steps quiet configs unique same input =
      ap (λ store. store_match store input) (quiet-store k steps quiet)
      ∙ store_match-replace new_store (valid_rules t.world.cache) input
      ∙ sym (
          match_rules-order (valid_rules configs) (valid_rules t.world.cache) input
            (valid_rules-HasUniqueNames configs unique)
            λ r. (
              λ m. (valid_rules-In t.world.cache r).1 (
                  Gives-elements configs t.world.cache r (λ c. (same c).0)
                    ((valid_rules-In configs r).0 m)),
              λ m. (valid_rules-In configs r).1 (
                  Gives-elements t.world.cache configs r (λ c. (same c).1)
                    ((valid_rules-In t.world.cache r).0 m)),
            ))
