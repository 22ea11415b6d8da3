-- ===== src/Rules/Watcher/Past.antt =====
-- Where the rules of the store come from.
use mathlib.Core.Path.{subst}
use drift_sentinel.Base.{
  Bool, true, false, not, List, [], ◌∷◌, map, if◌then◌else◌, Bool-cases, ◌≡◌, ◌⊎◌, refl, sym, ap,
  inl, inr,
}
use drift_sentinel.Base.Text.{Unicode}
use drift_sentinel.Base.Sort.{In, sort, sort→In}
use drift_sentinel.Base.Result.{Delivers, Result, delivers, ok, err, out_of_fuel}
use drift_sentinel.Rules.Types.{Rule}
use drift_sentinel.Rules.Store.{Store, clone_rule, new_store, replace, rule_less, sort_rules}
use drift_sentinel.Rules.Config.{is_rule_config_map, parse_config_map}
use drift_sentinel.Rules.Config.WellFormed.{IsRuleOf, parse_config_map-IsRuleOf}
use drift_sentinel.Rules.Watcher.{
  CoreConfigMap, Event, Handler, Rebuild, Starter, World, building, from_core_config_map, handle,
  handler_of, is_resync, keep_rule, listed, listing, loaded, noted, rebuild_rules, rebuilding,
  receive, replaced, resting, receive, start, starter_of, started, syncing, timed_out,
  trigger_rebuild, valid_rules,
}
use drift_sentinel.Rules.Watcher.System.{
  State, Step, Steps, changes, handles, here, initial, later, resyncs, starts, times_out,
}

map-clone_rule : (rules : List Rule) → map clone_rule rules ≡ rules
unfolding clone_rule
map-clone_rule [] = refl
map-clone_rule (rule ∷ rules) = ap (λ rest. rule ∷ rest) (map-clone_rule rules)

replace-In :
    (rule : Rule) (rules : List Rule) → In rule (replace new_store rules).rules → In rule rules
unfolding replace sort_rules
replace-In rule rules m =
    sort→In rule_less rule rules
      (subst (λ rs. In rule (sort rule_less rs)) (map-clone_rule rules) m)

module _ ⦃u : Unicode⦄ where
  -- The rule of some config map of the list.
  abbrev pub ComesFrom : Rule → List CoreConfigMap → Type 0
  ComesFrom rule configs =
      (config : CoreConfigMap) × In config configs × IsRuleOf (from_core_config_map config) rule

  ComesFrom-later :
      (rule : Rule) (config : CoreConfigMap) (configs : List CoreConfigMap)
      → ComesFrom rule configs
      → ComesFrom rule (config ∷ configs)
  ComesFrom-later rule config configs (c, m, k) = (c, inr m, k)

  keep_rule-ComesFrom :
      (config : CoreConfigMap) (configs : List CoreConfigMap) (rules : List Rule) (rule : Rule)
      (m : Result Rule)
      → Delivers (IsRuleOf (from_core_config_map config)) m
      → ((r : Rule) → In r rules → ComesFrom r configs)
      → In rule (keep_rule m rules)
      → ComesFrom rule (config ∷ configs)
  keep_rule-ComesFrom config configs rules rule (ok r) (delivers k) h (inl e) =
      (config, inl refl, subst (IsRuleOf (from_core_config_map config)) (sym e) k)
  keep_rule-ComesFrom config configs rules rule (ok r) (delivers k) h (inr i) =
      ComesFrom-later rule config configs (h rule i)
  keep_rule-ComesFrom config configs rules rule (err e) k h i =
      ComesFrom-later rule config configs (h rule i)
  keep_rule-ComesFrom config configs rules rule out_of_fuel k h i = elim k [ ]

  valid_rules-cons :
      (config : CoreConfigMap) (configs : List CoreConfigMap)
      → valid_rules (config ∷ configs) ≡ (
          if not (is_rule_config_map (from_core_config_map config))
          then valid_rules configs
          else keep_rule (parse_config_map (from_core_config_map config)) (valid_rules configs))
  unfolding valid_rules
  valid_rules-cons config configs = refl

  kept-ComesFrom :
      (config : CoreConfigMap) (configs : List CoreConfigMap) (rule : Rule) (annotated : Bool)
      → ((r : Rule) → In r (valid_rules configs) → ComesFrom r configs)
      → In rule (
          if not annotated
          then valid_rules configs
          else keep_rule (parse_config_map (from_core_config_map config)) (valid_rules configs))
      → ComesFrom rule (config ∷ configs)
  kept-ComesFrom config configs rule true h m =
      keep_rule-ComesFrom config configs (valid_rules configs) rule
        (parse_config_map (from_core_config_map config))
        (parse_config_map-IsRuleOf (from_core_config_map config)) h m
  kept-ComesFrom config configs rule false h m = ComesFrom-later rule config configs (h rule m)

  valid_rules-ComesFrom :
      (configs : List CoreConfigMap) (rule : Rule)
      → In rule (valid_rules configs)
      → ComesFrom rule configs
  valid_rules-ComesFrom [] rule m = absurd (unfold valid_rules in m)
  valid_rules-ComesFrom (config ∷ configs) rule m =
      kept-ComesFrom config configs rule (is_rule_config_map (from_core_config_map config))
        (valid_rules-ComesFrom configs) (rw valid_rules-cons at m)

module _ ⦃u : Unicode⦄ (Was : List CoreConfigMap → Type 0) where
  -- The store is new, or holds the valid rules of config maps that `Was` admits.
  abbrev HoldsPast : World → Type 0
  HoldsPast w =
      (w.store ≡ new_store)
      ⊎ ((configs : List CoreConfigMap) × Was configs
          × (w.store ≡ replace new_store (valid_rules configs)))

  abbrev HasListed : Rebuild → Type 0
  HasListed (listed configs) = Was configs
  HasListed _ = Unit

  abbrev StarterPast : Starter → Type 0
  StarterPast (building r) = HasListed r
  StarterPast _ = Unit

  abbrev HandlerPast : Handler → Type 0
  HandlerPast (rebuilding r) = HasListed r
  HandlerPast _ = Unit

  abbrev IsPast : State → Type 0
  IsPast s = HoldsPast s.world × StarterPast s.starter × HandlerPast s.handler

  rebuild_rules-HoldsPast :
      (r : Rebuild) (w : World) → HasListed r → HoldsPast w → HoldsPast (rebuild_rules r w).1
  unfolding rebuild_rules
  rebuild_rules-HoldsPast listing w k h = h
  rebuild_rules-HoldsPast (listed configs) w k h = inr (configs, k, unfold replace in refl)
  rebuild_rules-HoldsPast (replaced count) w k h = h

  starter_of-Past :
      (r : Rebuild) (w : World) → Was w.cache → StarterPast (starter_of (rebuild_rules r w).0)
  unfolding rebuild_rules
  starter_of-Past listing w c = c
  starter_of-Past (listed configs) w c = tt
  starter_of-Past (replaced count) w c = tt

  handler_of-Past :
      (r : Rebuild) (w : World) → Was w.cache → HandlerPast (handler_of (rebuild_rules r w).0)
  unfolding rebuild_rules
  handler_of-Past listing w c = c
  handler_of-Past (listed configs) w c = tt
  handler_of-Past (replaced count) w c = tt

  start-Past :
      (a : Starter) (w : World)
      → Was w.cache
      → HoldsPast w
      → StarterPast a
      → HoldsPast (start a w).1 × StarterPast (start a w).0
  unfolding start
  start-Past syncing w c h k = (h, tt)
  start-Past (building r) w c h k = (rebuild_rules-HoldsPast r w k h, starter_of-Past r w c)
  start-Past loaded w c h k = (h, tt)
  start-Past started w c h k = (h, tt)
  start-Past timed_out w c h k = (h, tt)

  receive-Past :
      (events : List Event) (w : World)
      → HoldsPast w
      → HoldsPast (receive events w).1 × HandlerPast (receive events w).0
  unfolding receive
  receive-Past [] w h = (h, tt)
  receive-Past (event ∷ events) w h = elim (Bool-cases (is_resync event)) [
    | inl e ↦ rw e (h, tt)
    | inr e ↦ rw e (h, tt)
  ]

  trigger_rebuild-Past : (flag : Bool) → HandlerPast (trigger_rebuild flag)
  trigger_rebuild-Past true = tt
  trigger_rebuild-Past false = tt

  handle-Past :
      (h : Handler) (w : World)
      → Was w.cache
      → HoldsPast w
      → HandlerPast h
      → HoldsPast (handle h w).1 × HandlerPast (handle h w).0
  unfolding handle
  handle-Past resting w c h k = receive-Past w.pending w h
  handle-Past noted w c h k = (h, trigger_rebuild-Past w.ready)
  handle-Past (rebuilding r) w c h k = (rebuild_rules-HoldsPast r w k h, handler_of-Past r w c)

  Step-IsPast : {s t : State} → Step s t → Was s.world.cache → IsPast s → IsPast t
  Step-IsPast (starts {a} {h} {w}) c (holds, k, l) =
      let (held, next) = start-Past a w c holds k in (held, next, l)
  Step-IsPast (handles {a} {h} {w}) c (holds, k, l) =
      let (held, next) = handle-Past h w c holds l in (held, k, next)
  Step-IsPast times_out c (holds, k, l) = (holds, tt, l)
  Step-IsPast (changes event cache e) c k = k
  Step-IsPast (resyncs event e) c k = k

module _ ⦃u : Unicode⦄ {Was Were : List CoreConfigMap → Type 0}
    (more : (configs : List CoreConfigMap) → Was configs → Were configs) where
  HasListed-mono : (r : Rebuild) → HasListed Was r → HasListed Were r
  HasListed-mono listing k = tt
  HasListed-mono (listed configs) k = more configs k
  HasListed-mono (replaced count) k = tt

  StarterPast-mono : (a : Starter) → StarterPast Was a → StarterPast Were a
  StarterPast-mono (building r) k = HasListed-mono r k
  StarterPast-mono syncing k = tt
  StarterPast-mono loaded k = tt
  StarterPast-mono started k = tt
  StarterPast-mono timed_out k = tt

  HandlerPast-mono : (h : Handler) → HandlerPast Was h → HandlerPast Were h
  HandlerPast-mono (rebuilding r) k = HasListed-mono r k
  HandlerPast-mono resting k = tt
  HandlerPast-mono noted k = tt

  IsPast-mono : (s : State) → IsPast Was s → IsPast Were s
  IsPast-mono s (inl new, k, l) =
      (inl new, StarterPast-mono s.starter k, HandlerPast-mono s.handler l)
  IsPast-mono s (inr (configs, was, e), k, l) = (
    inr (configs, more configs was, e),
    StarterPast-mono s.starter k,
    HandlerPast-mono s.handler l,
  )

module _ ⦃u : Unicode⦄ where
  -- The cache was that in some state of the run to `s`.
  abbrev pub WasCache : State → List CoreConfigMap → Type 0
  WasCache s configs = (t : State) × Steps initial t × Steps t s × (t.world.cache ≡ configs)

  Steps-IsPast : {s : State} → Steps initial s → IsPast (WasCache s) s
  Steps-IsPast here = (inl refl, tt, tt)
  Steps-IsPast {s} (later {t} before step) =
      Step-IsPast (WasCache s) step (t, before, later here step, refl)
        (IsPast-mono (λ configs (v, to, from, e). (v, to, later from step, e)) t
          (Steps-IsPast before))

  held_rules :
      {s : State} (rule : Rule)
      → HoldsPast (WasCache s) s.world
      → In rule s.world.store.rules
      → (configs : List CoreConfigMap) × WasCache s configs × ComesFrom rule configs
  held_rules {s} rule (inl new) m = absurd (subst (λ (store : Store). In rule store.rules) new m)
  held_rules {s} rule (inr (configs, was, e)) m = (
    configs,
    was,
    valid_rules-ComesFrom configs rule (
        replace-In rule (valid_rules configs) (subst (λ (store : Store). In rule store.rules) e m)),
  )

  -- Each rule of the store, in every state of every run, comes from a config map that the cache held in
  -- an earlier state of the run and that is annotated as a rule: it has its name and namespace, one of
  -- the four modes, namespace patterns, all well-formed, and selectors, all with a kind.
  pub store-rules :
      {s : State}
      → Steps initial s
      → (rule : Rule) → In rule s.world.store.rules
      → (configs : List CoreConfigMap) × WasCache s configs × ComesFrom rule configs
  store-rules {s} steps rule m = held_rules rule (Steps-IsPast steps).0 m
