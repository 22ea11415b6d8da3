-- ===== src/Tests/Watcher.antt =====
-- pkg/rules/watcher.go at concrete config maps.
use mathlib.Core.Path.{subst}
use drift_sentinel.Base.{true, List, [], ◌∷◌, length, ◌≡◌, ◌↔◌, refl, sym, ◌∙◌, inl, inr}
use drift_sentinel.Base.Text.{codes, cut_prefix, folds_to_true, split_at, text_eq, trim_space}
use drift_sentinel.Base.Assoc.{find}
use drift_sentinel.Base.Sort.{In, sort}
use drift_sentinel.Base.Number.{atoi}
use drift_sentinel.Rules.PathMatch.{path_match}
use drift_sentinel.Metrics.Registry.{new_registry, record_config_event, set_rules_loaded}
use drift_sentinel.Rules.Types.{rule_annotation_key}
use drift_sentinel.Rules.Store.{clone_rule, new_store, replace, sort_rules}
use drift_sentinel.Rules.Matcher.{match_rules, store_match}
use drift_sentinel.Rules.Config.{parse_config_map}
use drift_sentinel.Rules.Watcher.{
  CoreConfigMap, World, added, event_name, handle, is_resync, new_world, noted, syncing,
  rebuild_rules, receive, resting, start, started, valid_rules,
}
use drift_sentinel.Rules.Watcher.System.{
  Reachable, State, Steps, changes, handles, here, initial, later, starts,
}
use drift_sentinel.Rules.Watcher.Tracked.{IsQuiet, IsStarted, IsTracked, quiet-store}
use drift_sentinel.Rules.Watcher.Drains.{catches_up, starts_current}
use drift_sentinel.Rules.Watcher.Lost.{lost-event}
use drift_sentinel.Rules.Watcher.Past.{ComesFrom, WasCache, store-rules}
use drift_sentinel.Rules.Watcher.Rebuilt.{Gives, HaveUniqueNames, quiet-match, valid_rules-In}
use drift_sentinel.Tests.{ascii}
use drift_sentinel.Tests.Config.{spec_rule, spec_text}
use drift_sentinel.Tests.Rules.{deployment}

abbrev pub config : CoreConfigMap
config = record {
  name = codes "r";
  namespace = codes "system";
  annotations = (rule_annotation_key, codes " True ") ∷ [];
  values = (codes "spec", spec_text) ∷ [];
}

abbrev plain : CoreConfigMap
plain = record config { name = codes "other"; annotations = [] }

-- The cache has got the config map, and its event waits.
abbrev changed : World
changed = record new_world { cache = config ∷ []; pending = added ∷ []; ready = true }

abbrev pub noticed : State
noticed = record { starter = started; handler = resting; world = changed }

pub noticed-IsTracked : IsTracked noticed
unfolding is_resync
noticed-IsTracked = (tt, (refl, inl refl))

abbrev rebuilt : World
rebuilt = record changed {
  pending = [];
  store = replace new_store (valid_rules (config ∷ []));
  metrics =
      set_rules_loaded (record_config_event new_registry (event_name added))
        (length (valid_rules (config ∷ [])));
}

abbrev pub settled : State
settled = record { starter = started; handler = resting; world = rebuilt }

pub run : Steps noticed settled
unfolding handle receive is_resync rebuild_rules replace
run = later (later (later (later (later here handles) handles) handles) handles) handles

quiet-store_example : settled.world.store ≡ replace new_store (valid_rules settled.world.cache)
quiet-store_example = quiet-store noticed-IsTracked run (refl, refl)

catches_up_example :
    (t : State) × Steps noticed t
    × IsQuiet t
    × (t.world.cache ≡ noticed.world.cache)
    × (t.world.store ≡ replace new_store (valid_rules noticed.world.cache))
catches_up_example = catches_up noticed noticed-IsTracked

-- The config map has been listed while `Start` waits, and its event is in a handler's hands.
abbrev listed : World
listed = record new_world { cache = config ∷ [] }

starts_current_example :
    (t : State) × Steps (record { starter = syncing; handler = noted; world = listed }) t
    × IsTracked t
    × IsQuiet t
    × (t.world.cache ≡ config ∷ [])
    × (t.world.store ≡ replace new_store (valid_rules (config ∷ [])))
starts_current_example = starts_current noted listed

runs_valid_rules : valid_rules (config ∷ []) ≡ spec_rule ∷ []
unfolding valid_rules text_eq trim_space folds_to_true find split_at cut_prefix atoi path_match
    parse_config_map
runs_valid_rules = refl

lost-event_example :
    (t : State) × Reachable t
    × IsStarted t.starter
    × IsQuiet t
    × (t.world.cache ≡ config ∷ [])
    × (valid_rules t.world.cache ≡ spec_rule ∷ [])
    × (t.world.store.rules ≡ [])
lost-event_example = lost-event config spec_rule runs_valid_rules

valid_rules-In_example :
    In spec_rule (valid_rules (plain ∷ config ∷ [])) ↔ Gives (plain ∷ config ∷ []) spec_rule
valid_rules-In_example = valid_rules-In (plain ∷ config ∷ []) spec_rule

only : (c : CoreConfigMap) → In c (config ∷ config ∷ []) → c ≡ config
only c (inl e) = e
only c (inr (inl e)) = e
only c (inr (inr n)) = absurd n

pub alone : HaveUniqueNames (config ∷ config ∷ [])
alone a b m n namespaces names = only a m ∙ sym (only b n)

pub twice : (c : CoreConfigMap) → In c (config ∷ config ∷ []) ↔ In c (config ∷ [])
twice c =
    (λ h. elim h [ inl e ↦ inl e | inr k ↦ k ], λ h. elim h [ inl e ↦ inl e | inr n ↦ absurd n ])

quiet-match_example :
    store_match settled.world.store deployment
    ≡ match_rules (valid_rules (config ∷ config ∷ [])) deployment
quiet-match_example =
    quiet-match noticed-IsTracked run (refl, refl) (config ∷ config ∷ []) alone twice deployment

abbrev begun : World
begun = record new_world {
  cache = config ∷ [];
  pending = added ∷ [];
  store = replace new_store (valid_rules (config ∷ []));
  metrics = set_rules_loaded new_registry (length (valid_rules (config ∷ [])));
  ready = true;
}

abbrev begun_state : State
begun_state = record { starter = started; handler = resting; world = begun }

begins : Steps initial begun_state
unfolding start rebuild_rules replace is_resync
begins =
    later
      (later
        (later
          (later (later (later (later here (changes added (config ∷ []) refl)) starts) starts)
            starts)
          starts)
        starts)
      starts

In-store : In spec_rule begun.store.rules
unfolding replace sort_rules sort clone_rule
In-store =
    subst (λ rules. In spec_rule (replace new_store rules).rules) (sym runs_valid_rules) (inl refl)

store-rules_example :
    (configs : List CoreConfigMap) × WasCache begun_state configs × ComesFrom spec_rule configs
store-rules_example = store-rules begins spec_rule In-store
