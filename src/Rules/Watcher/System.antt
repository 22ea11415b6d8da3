-- ===== src/Rules/Watcher/System.antt =====
-- The controller, its informer and the cluster as a system of interleaved steps.
use drift_sentinel.Base.{Bool, not, true, false, List, [], ◌∷◌, ◌++◌, ◌≡◌}
use drift_sentinel.Base.Text.{Unicode, text_eq}
use drift_sentinel.Rules.Watcher.{
  CoreConfigMap, Event, Handler, Starter, World, added, deleted, handle, new_world, resting, start,
  syncing, timed_out, updated,
}

pub record State : Type 0 where
  pub starter : Starter
  pub handler : Handler
  pub world : World

-- An object is added or deleted, or updated to another version; a resync of the informer updates it to
-- the version that it has.
abbrev pub is_change : Event → Bool
is_change (updated old new) = not (text_eq old new)
is_change added = true
is_change deleted = true

-- A change reaches the cache and leaves an event.
abbrev pub change_cache : Event → List CoreConfigMap → World → World
change_cache event cache w = record w { cache = cache; pending = w.pending ++ event ∷ [] }

module _ ⦃u : Unicode⦄ where
  -- The steps: an effect of `Start`, the end of its wait by the timeout, an effect of the handlers, a
  -- change of the cache, a resync.
  pub data Step : State → State → Type 0 where
    starts :
        {a : Starter} {h : Handler} {w : World}
        → Step
            (record { starter = a; handler = h; world = w })
            (record { starter = (start a w).0; handler = h; world = (start a w).1 })
    times_out :
        {h : Handler} {w : World}
        → Step
            (record { starter = syncing; handler = h; world = w })
            (record { starter = timed_out; handler = h; world = w })
    handles :
        {a : Starter} {h : Handler} {w : World}
        → Step
            (record { starter = a; handler = h; world = w })
            (record { starter = a; handler = (handle h w).0; world = (handle h w).1 })
    changes :
        {a : Starter} {h : Handler} {w : World} (event : Event) (cache : List CoreConfigMap)
        → is_change event ≡ true
        → Step
            (record { starter = a; handler = h; world = w })
            (record { starter = a; handler = h; world = change_cache event cache w })
    resyncs :
        {a : Starter} {h : Handler} {w : World} (event : Event)
        → is_change event ≡ false
        → Step
            (record { starter = a; handler = h; world = w })
            (record { starter = a; handler = h; world = change_cache event w.cache w })

  pub data Steps (s : State) : State → Type 0 where
    here : Steps s s
    later : {t v : State} → Steps s t → Step t v → Steps s v

-- Also the config maps that the informer lists first reach the cache as changes.
abbrev pub initial : State
initial = record { starter = syncing; handler = resting; world = new_world }

module _ ⦃u : Unicode⦄ where
  abbrev pub Reachable : State → Type 0
  Reachable s = Steps initial s
