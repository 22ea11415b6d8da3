-- ===== src/Rules/Watcher/Drains.antt =====
-- The runs that end at rest with a current store.
use drift_sentinel.Base.{
  ℕ, Bool, true, false, List, [], ◌∷◌, Bool-cases, length, ◌≡◌, refl, ap, ◌∙◌, inl, inr,
}
use drift_sentinel.Base.Text.{Unicode}
use drift_sentinel.Rules.Store.{new_store, replace}
use drift_sentinel.Metrics.Registry.{set_rules_loaded}
use drift_sentinel.Rules.Watcher.{
  CoreConfigMap, Event, Handler, Rebuild, Starter, World, handle, is_resync, listed, listing, noted,
  rebuild_rules, rebuilding, trigger_rebuild, receive, replaced, resting, start, started, syncing,
  valid_rules,
}
use drift_sentinel.Rules.Watcher.System.{State, Step, Steps, handles, here, later, starts}
use drift_sentinel.Rules.Watcher.Tracked.{IsQuiet, IsTracked, quiet-store}

abbrev at : Starter → Handler → World → State
at a h w = record { starter = a; handler = h; world = w }

module _ ⦃u : Unicode⦄ where
  first : {s t v : State} → Step s t → Steps t v → Steps s v
  first step here = later here step
  first step (later before last) = later (first step before) last

  concat-Steps : {s t v : State} → Steps s t → Steps t v → Steps s v
  concat-Steps before here = before
  concat-Steps before (later after last) = later (concat-Steps before after) last

  -- Some steps end with the handlers at rest, and leave the cache and the events as they are.
  abbrev Rests : Starter → Handler → World → Type 0
  Rests a h w =
      (t : World) × Steps (at a h w) (at a resting t)
      × (t.cache ≡ w.cache)
      × (t.pending ≡ w.pending)

  handles-Rests :
      (a : Starter) (h : Handler) (w : World)
      → (handle h w).1.cache ≡ w.cache
      → (handle h w).1.pending ≡ w.pending
      → Rests a (handle h w).0 (handle h w).1
      → Rests a h w
  handles-Rests a h w c p (t, steps, same, left) = (t, first handles steps, same ∙ c, left ∙ p)

  replaced-Rests : (a : Starter) (count : ℕ) (w : World) → Rests a (rebuilding (replaced count)) w
  unfolding handle rebuild_rules
  replaced-Rests a count w = (_, later here handles, refl, refl)

  listed-Rests :
      (a : Starter) (configs : List CoreConfigMap) (w : World)
      → Rests a (rebuilding (listed configs)) w
  unfolding handle rebuild_rules
  listed-Rests a configs w = handles-Rests a (rebuilding (listed configs)) w refl refl (
      replaced-Rests a (length (valid_rules configs))
        (record w { store = replace w.store (valid_rules configs) }))

  rebuilding-Rests : (a : Starter) (r : Rebuild) (w : World) → Rests a (rebuilding r) w
  unfolding handle rebuild_rules
  rebuilding-Rests a (replaced count) w = replaced-Rests a count w
  rebuilding-Rests a (listed configs) w = listed-Rests a configs w
  rebuilding-Rests a listing w =
      handles-Rests a (rebuilding listing) w refl refl (listed-Rests a w.cache w)

  trigger_rebuild-Rests : (a : Starter) (flag : Bool) (w : World) → Rests a (trigger_rebuild flag) w
  trigger_rebuild-Rests a false w = (w, here, refl, refl)
  trigger_rebuild-Rests a true w = rebuilding-Rests a listing w

  handler-Rests : (a : Starter) (h : Handler) (w : World) → Rests a h w
  unfolding handle
  handler-Rests a resting w = (w, here, refl, refl)
  handler-Rests a noted w = handles-Rests a noted w refl refl (trigger_rebuild-Rests a w.ready w)
  handler-Rests a (rebuilding r) w = rebuilding-Rests a r w

  -- The event is taken off.
  receive-pending :
      (event : Event) (events : List Event) (w : World)
      → (receive (event ∷ events) w).1.pending ≡ events
  unfolding receive
  receive-pending event events w = elim (Bool-cases (is_resync event)) [
    | inl e ↦ rw e
    | inr e ↦ rw e
  ]

  receive-cache : (events : List Event) (w : World) → (receive events w).1.cache ≡ w.cache
  unfolding receive
  receive-cache [] w = refl
  receive-cache (event ∷ events) w = elim (Bool-cases (is_resync event)) [
    | inl e ↦ rw e
    | inr e ↦ rw e
  ]

  -- Some steps take off every event.
  abbrev Drains : Starter → Handler → World → Type 0
  Drains a h w =
      (t : World) × Steps (at a h w) (at a resting t) × (t.cache ≡ w.cache) × (t.pending ≡ [])

  resting-Drains :
      (a : Starter) (events : List Event) (w : World) → w.pending ≡ events → Drains a resting w
  resting-Drains a [] w e = (w, here, refl, e)
  resting-Drains a (event ∷ events) w e =
      let (t, steps, same, left) = handler-Rests a (handle resting w).0 (handle resting w).1 in
      let popped : (handle resting w).1.pending ≡ events =
        unfold handle in
        ap (λ pending. (receive pending w).1.pending) e ∙ receive-pending event events w in
      let cached : (handle resting w).1.cache ≡ w.cache =
        unfold handle in receive-cache w.pending w in
      let (v, more, kept, empty) = resting-Drains a events t (left ∙ popped) in
      (v, concat-Steps (first handles steps) more, kept ∙ same ∙ cached, empty)

  handler-Drains : (a : Starter) (h : Handler) (w : World) → Drains a h w
  handler-Drains a h w =
      let (t, steps, same, left) = handler-Rests a h w in
      let (v, more, kept, empty) = resting-Drains a t.pending t refl in
      (v, concat-Steps steps more, kept ∙ same, empty)

  -- From every state that is tracked, some steps lead to rest with the cache as it is, and
  -- then the store holds exactly the valid rules of the config maps in that cache, sorted.
  pub catches_up :
      (s : State)
      → IsTracked s
      → (t : State) × Steps s t
        × IsQuiet t
        × (t.world.cache ≡ s.world.cache)
        × (t.world.store ≡ replace new_store (valid_rules s.world.cache))
  catches_up s k =
      let (w, steps, same, empty) = handler-Drains s.starter s.handler s.world in
      let quiet : IsQuiet (at s.starter resting w) = (refl, empty) in
      (
        at s.starter resting w,
        steps,
        quiet,
        same,
        quiet-store k steps quiet ∙ ap (λ cache. replace new_store (valid_rules cache)) same,
      )

  abbrev started_world : World → World
  started_world w = record w {
    store = replace w.store (valid_rules w.cache);
    metrics = set_rules_loaded w.metrics (length (valid_rules w.cache));
    ready = true;
  }

  -- `Start` alone, while the handlers rest.
  starts-alone : (w : World) → Steps (at syncing resting w) (at started resting (started_world w))
  unfolding start rebuild_rules replace
  starts-alone w =
      first starts (first starts (first starts (first starts (first starts (first starts here)))))

  started_world-IsTracked : (w : World) → IsTracked (at started resting (started_world w))
  unfolding replace
  started_world-IsTracked w = (tt, (refl, inr refl))

  -- From every state in which `Start` waits for the caches, whatever events are waiting and wherever the
  -- handlers stand, some steps lead to a state that is tracked and at rest, with the cache as it is,
  -- and then the store holds exactly the valid rules of the config maps in that cache, sorted.
  pub starts_current :
      (h : Handler) (w : World)
      → (t : State) × Steps (record { starter = syncing; handler = h; world = w }) t
        × IsTracked t
        × IsQuiet t
        × (t.world.cache ≡ w.cache)
        × (t.world.store ≡ replace new_store (valid_rules w.cache))
  starts_current h w =
      let (v, steps, same, empty) = handler-Drains syncing h w in
      let quiet : IsQuiet (at started resting (started_world v)) = (refl, empty) in
      (
        at started resting (started_world v),
        concat-Steps steps (starts-alone v),
        started_world-IsTracked v,
        quiet,
        same,
        quiet-store {s = at started resting (started_world v)} (started_world-IsTracked v) here
              quiet
            ∙ ap (λ cache. replace new_store (valid_rules cache)) same,
      )
