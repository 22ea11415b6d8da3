-- ===== src/Rules/Watcher/Tracked.antt =====
-- When the store catches up with the cache.
use drift_sentinel.Base.{
  Bool, true, false, not, List, [], ◌∷◌, ◌++◌, Bool-cases, any, any-append, ◌≡◌, ◌⊎◌, refl, sym, ap,
  ◌∙◌, inl, inr, arith,
}
use drift_sentinel.Base.Text.{Unicode}
use drift_sentinel.Rules.Store.{new_store, replace}
use drift_sentinel.Rules.Watcher.{
  added, deleted, updated, Event, Handler, Rebuild, Starter, World, building, handle, handler_of,
  is_resync, listed, listing, loaded, noted, rebuild_rules, rebuilding, receive, replaced, resting,
  trigger_rebuild, start, started, syncing, timed_out, valid_rules,
}
use drift_sentinel.Rules.Watcher.System.{
  State, Step, Steps, is_change, changes, handles, here, later, resyncs, starts, times_out,
}

-- The handlers skip exactly the resyncs.
is_change-eq : (event : Event) → is_change event ≡ not (is_resync event)
unfolding is_resync
is_change-eq (updated old new) = refl
is_change-eq added = refl
is_change-eq deleted = refl

-- Some event is a change.
abbrev pub HasChange : List Event → Type 0
HasChange events = any is_change events ≡ true

HasChange-behind :
    (event : Event) (events : List Event)
    → is_resync event ≡ true
    → HasChange (event ∷ events)
    → HasChange events
HasChange-behind event events resync h =
    let skipped : is_change event ≡ false = rw (is_change-eq event, resync) refl in ground arith

HasChange-left : (events more : List Event) → HasChange events → HasChange (events ++ more)
HasChange-left events more h = ground (arith, any-append is_change events more)

HasChange-last :
    (events : List Event) (event : Event)
    → is_change event ≡ true
    → HasChange (events ++ event ∷ [])
HasChange-last events event e = ground (arith, any-append is_change events (event ∷ []))

abbrev pub IsStarted : Starter → Type 0
IsStarted started = Unit
IsStarted _ = ⊥

-- The handlers are at rest, with no event left.
abbrev pub IsQuiet : State → Type 0
IsQuiet s = (s.handler ≡ resting) × (s.world.pending ≡ [])

module _ ⦃u : Unicode⦄ where
  -- The store holds the valid rules of the cache, sorted.
  abbrev pub IsCurrent : World → Type 0
  IsCurrent w = w.store ≡ replace new_store (valid_rules w.cache)

  -- The rebuild ends with a current store.
  abbrev pub Renews : Rebuild → World → Type 0
  Renews listing w = Unit
  Renews (listed configs) w = valid_rules configs ≡ valid_rules w.cache
  Renews (replaced count) w = IsCurrent w

  abbrev pub Settles : Handler → World → Type 0
  Settles resting w = IsCurrent w
  Settles noted w = Unit
  Settles (rebuilding r) w = Renews r w

  abbrev pub Follows : Handler → World → Type 0
  Follows h w = (w.ready ≡ true) × (HasChange w.pending ⊎ Settles h w)

  -- `Start` has set the flag, and a change is waiting or the handlers leave a current store.
  abbrev pub IsTracked : State → Type 0
  IsTracked s = IsStarted s.starter × Follows s.handler s.world

  receive-Follows :
      (events : List Event) (w : World)
      → w.pending ≡ events
      → Follows resting w
      → Follows (receive events w).0 (receive events w).1
  unfolding receive
  receive-Follows [] w e h = h
  receive-Follows (event ∷ events) w e (ready, h) = elim (Bool-cases (is_resync event)) [
    | inl resync ↦ rw resync (
      ready,
      elim h [
        | inl waits ↦
            inl (HasChange-behind event events resync (sym (ap (any is_change) e) ∙ waits))
        | inr current ↦ inr current
      ],
    )
    | inr change ↦ rw change (ready, inr tt)
  ]

  rebuild_rules-Follows :
      (r : Rebuild) (w : World)
      → Follows (rebuilding r) w
      → Follows (handler_of (rebuild_rules r w).0) (rebuild_rules r w).1
  unfolding rebuild_rules
  rebuild_rules-Follows listing w (ready, h) = (ready, inr refl)
  rebuild_rules-Follows (listed configs) w (ready, inl change) = (ready, inl change)
  rebuild_rules-Follows (listed configs) w (ready, inr same) =
      (ready, inr unfold replace in ap (replace w.store) same)
  rebuild_rules-Follows (replaced count) w (ready, h) = (ready, h)

  trigger_rebuild-Follows :
      (flag : Bool) (w : World) → flag ≡ true → w.ready ≡ true → Follows (trigger_rebuild flag) w
  trigger_rebuild-Follows true w e ready = (ready, inr tt)
  trigger_rebuild-Follows false w e ready = cc

  Settles-pending :
      (h : Handler) (w : World) (events : List Event)
      → Settles h w
      → Settles h (record w { pending = events })
  Settles-pending resting w events k = k
  Settles-pending noted w events k = k
  Settles-pending (rebuilding listing) w events k = k
  Settles-pending (rebuilding (listed configs)) w events k = k
  Settles-pending (rebuilding (replaced count)) w events k = k

  handle-Follows : (h : Handler) (w : World) → Follows h w → Follows (handle h w).0 (handle h w).1
  unfolding handle
  handle-Follows resting w k = receive-Follows w.pending w refl k
  handle-Follows noted w (ready, k) = trigger_rebuild-Follows w.ready w ready ready
  handle-Follows (rebuilding r) w k = rebuild_rules-Follows r w k

  start-IsTracked :
      (a : Starter) (h : Handler) (w : World)
      → IsStarted a
      → Follows h w
      → IsStarted (start a w).0 × Follows h (start a w).1
  unfolding start
  start-IsTracked started h w i k = (i, k)
  start-IsTracked syncing h w i k = absurd i
  start-IsTracked (building r) h w i k = absurd i
  start-IsTracked loaded h w i k = absurd i
  start-IsTracked timed_out h w i k = absurd i

  Step-IsTracked : {s t : State} → Step s t → IsTracked s → IsTracked t
  Step-IsTracked (starts {a} {h} {w}) (i, k) = start-IsTracked a h w i k
  Step-IsTracked times_out (i, k) = absurd i
  Step-IsTracked (handles {a} {h} {w}) (i, k) = (i, handle-Follows h w k)
  Step-IsTracked (changes {a} {h} {w} event cache e) (i, k) =
      (i, (k.0, inl (HasChange-last w.pending event e)))
  Step-IsTracked (resyncs {a} {h} {w} event e) (i, k) = (
    i,
    (
      k.0,
      elim k.1 [
        | inl waits ↦ inl (HasChange-left w.pending (event ∷ []) waits)
        | inr settles ↦ inr (Settles-pending h w (w.pending ++ event ∷ []) settles)
      ],
    ),
  )

  Steps-IsTracked : {s t : State} → Steps s t → IsTracked s → IsTracked t
  Steps-IsTracked here k = k
  Steps-IsTracked (later before step) k = Step-IsTracked step (Steps-IsTracked before k)

  Follows-quiet :
      (h : Handler) (w : World) → Follows h w → h ≡ resting → w.pending ≡ [] → IsCurrent w
  Follows-quiet h w (ready, inl waits) rests empty =
      let none_left : any is_change w.pending ≡ false = ap (any is_change) empty in cc
  Follows-quiet resting w (ready, inr current) rests empty = current
  Follows-quiet noted w (ready, inr k) rests empty = cc
  Follows-quiet (rebuilding r) w (ready, inr k) rests empty = cc

  -- Once `Start` has ended well and the store is current, or a change is waiting, it stays so: after
  -- any further steps, in any order, when no event is left and the handlers rest, the store holds
  -- exactly the valid rules of the config maps in the cache, sorted.
  pub quiet-store :
      {s t : State}
      → IsTracked s
      → Steps s t
      → IsQuiet t
      → t.world.store ≡ replace new_store (valid_rules t.world.cache)
  quiet-store {s} {t} k steps quiet =
      Follows-quiet t.handler t.world (Steps-IsTracked steps k).1 quiet.0 quiet.1
