-- ===== src/Rules/Watcher/Lost.antt =====
-- A change that comes while `Start` reads the config maps.
use drift_sentinel.Base.{true, [], ◌∷◌, ◌≡◌, refl}
use drift_sentinel.Base.Text.{Unicode}
use drift_sentinel.Base.Sort.{sort}
use drift_sentinel.Metrics.Registry.{new_registry, record_config_event, set_rules_loaded}
use drift_sentinel.Rules.Types.{Rule}
use drift_sentinel.Rules.Store.{replace, sort_rules}
use drift_sentinel.Rules.Watcher.{
  CoreConfigMap, World, added, handle, is_resync, new_world, rebuild_rules, receive, resting, start,
  started, valid_rules, event_name,
}
use drift_sentinel.Rules.Watcher.System.{
  Reachable, State, Steps, changes, handles, here, initial, later, starts,
}
use drift_sentinel.Rules.Watcher.Tracked.{IsQuiet, IsStarted}

module _ ⦃u : Unicode⦄ where
  abbrev lost_world : CoreConfigMap → World
  lost_world config = record new_world {
    cache = config ∷ [];
    metrics = set_rules_loaded (record_config_event new_registry (event_name added)) 0;
    ready = true;
  }

  abbrev lost_state : CoreConfigMap → State
  lost_state config = record { starter = started; handler = resting; world = lost_world config }

  lost_run : (config : CoreConfigMap) → Steps initial (lost_state config)
  unfolding start rebuild_rules handle receive is_resync replace sort_rules sort valid_rules
  lost_run config =
      later
        (later
          (later
            (later
              (later (later (later (later here starts) starts) (changes added (config ∷ []) refl))
                handles)
              handles)
            starts)
          starts)
        starts

  -- The store need not catch up with a change that comes while `Start` reads the config maps: for every
  -- config map that gives a rule there is a run in which it is added after `Start` has listed the
  -- config maps and its event is handled before the flag is set. At its end `Start` has returned
  -- well, no event is left and the handlers rest, and the cache has that config map alone, which still
  -- gives the rule; but the store has no rule at all.
  pub lost-event :
      (config : CoreConfigMap) (rule : Rule)
      → valid_rules (config ∷ []) ≡ rule ∷ []
      → (t : State) × Reachable t
        × IsStarted t.starter
        × IsQuiet t
        × (t.world.cache ≡ config ∷ [])
        × (valid_rules t.world.cache ≡ rule ∷ [])
        × (t.world.store.rules ≡ [])
  lost-event config rule gives =
      (lost_state config, lost_run config, tt, (refl, refl), refl, gives, refl)
