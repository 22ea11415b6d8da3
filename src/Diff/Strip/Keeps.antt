-- ===== src/Diff/Strip/Keeps.antt =====
-- What `Strip` leaves of an object, leaf by leaf.
use drift_sentinel.Base.{
  ℕ, suc, true, false, List, [], ◌∷◌, ◌++◌, Option, none, some, ◌≡◌, ◌⊎◌, inl, inr, refl, ap,
  append_assoc, append-nil, Bool-cases, Option-cases,
}
use drift_sentinel.Base.Number.{pos}
use drift_sentinel.Diff.Segment.{
  Segments, Segment, field, index, append_path, PathPattern, matches_any_path,
}
use drift_sentinel.Diff.Value.{
  Value, Scalar, scalar, list, object, Items, nil, cons, Fields, end, entry, clone_value-eq,
  WellFormed, WellFormedFields,
}
use drift_sentinel.Diff.Strip.{map_or_empty, strip_value, strip_fields, strip_items, strip}
use drift_sentinel.Diff.Cover.{
  IsCovered, IsCovered-below, IsHole, IsOutside, IsOutside-cons, IsOutside-root,
  IsCovered-or_IsOutside, IsHole-below, IsHole-here,
}
use drift_sentinel.Diff.Children.{
  slot-some, value_at-empty, lookup-map_fields, map_fields, map_items, Makes, child-Makes,
  keep_fields-inv, keep_fields-some, WellFormed-child,
}
use drift_sentinel.Diff.Compare.Nodes.{child, value_at}

module _ (patterns : List PathPattern) where
  -- What becomes of a child of the value at `current`.
  abbrev strip_child : Segments → Segment → Value → Option Value
  strip_child current s v = strip_value v patterns (append_path current s)

  strip_fields-eq :
      (fs : Fields) (current : Segments)
      → strip_fields fs patterns current ≡ map_fields (strip_child current) fs
  unfolding strip_value map_fields
  strip_fields-eq end current = refl
  strip_fields-eq (entry key v fs) current = rw (strip_fields-eq fs current)

  strip_items-eq :
      (xs : Items) (current : Segments) (i : ℕ)
      → strip_items xs patterns current i ≡ map_items (strip_child current) xs i
  unfolding strip_value map_items
  strip_items-eq nil current i = refl
  strip_items-eq (cons v xs) current i = rw (strip_items-eq xs current (suc i))

  strip_value-matched :
      (v : Value) (current : Segments)
      → matches_any_path current patterns ≡ true
      → strip_value v patterns current ≡ none
  unfolding strip_value
  strip_value-matched (object fs) current h = rw h
  strip_value-matched (list xs) current h = rw h
  strip_value-matched (scalar s) current h = rw h

  strip_value-made :
      (v w : Value) (current : Segments)
      → matches_any_path current patterns ≡ false
      → strip_value v patterns current ≡ some w
      → Makes (strip_child current) v w
  unfolding strip_value
  strip_value-made (object fs) w current e h =
      rw (← strip_fields-eq fs current)
        (keep_fields-inv (strip_fields fs patterns current) w (rw e at h))
  strip_value-made (list xs) w current e h = rw (← strip_items-eq xs current 0) (cc (rw e at h))
  strip_value-made (scalar s) w current e h = cc (rw e at h, clone_value-eq (scalar s))

  pub strip_value-Makes :
      (v w : Value) (current : Segments)
      → strip_value v patterns current ≡ some w
      → (matches_any_path current patterns ≡ false) × Makes (strip_child current) v w
  strip_value-Makes v w current h = elim (Bool-cases (matches_any_path current patterns)) [
    | inl e ↦ cc (strip_value-matched v current e)
    | inr e ↦ (e, strip_value-made v w current e h)
  ]

  -- A value with a child that is kept is kept.
  strip_value-some :
      (s : Segment) (v u u' : Value) (current : Segments)
      → WellFormed v
      → matches_any_path current patterns ≡ false
      → child s v ≡ some u
      → strip_child current s u ≡ some u'
      → (w : Value) × (strip_value v patterns current ≡ some w)
  unfolding strip_value
  strip_value-some (field key) (object fs) u u' current h e c k = (
    object (strip_fields fs patterns current),
    rw e (
        keep_fields-some key u' (strip_fields fs patterns current) (
          rw (strip_fields-eq fs current, lookup-map_fields (strip_child current) key fs h, c, k))),
  )
  strip_value-some (index (pos n)) (list xs) u u' current h e c k =
      (list (strip_items xs patterns current 0), rw e)
  strip_value-some (index (pos n)) (object fs) u u' current h e c k = cc
  strip_value-some (index (pos n)) (scalar x) u u' current h e c k = cc
  strip_value-some s v u u' current h e c k = cc

  IsOutside-here :
      (current p : Segments)
      → IsOutside patterns current p
      → matches_any_path current patterns ≡ false
  IsOutside-here current p o = rw (append-nil current) at (o [] p refl)

  IsOutside-below :
      (current : Segments) (s : Segment) (p : Segments)
      → IsOutside patterns current (s ∷ p)
      → IsOutside patterns (append_path current s) p
  IsOutside-below current s p o q r e =
      rw (append_assoc current (s ∷ []) q) (o (s ∷ q) r (ap (λ x. s ∷ x) e))

  -- A leaf that no pattern covers is kept.
  pub strip_value-keeps :
      (p : Segments) (v : Value) (x : Scalar) (current : Segments)
      → WellFormed v
      → value_at p v ≡ some (scalar x)
      → IsOutside patterns current p
      → (w : Value) × (strip_value v patterns current ≡ some w) × (value_at p w ≡ some (scalar x))
  unfolding strip_value
  strip_value-keeps [] (scalar y) x current h e o =
      (scalar y, rw (IsOutside-here current [] o, clone_value-eq (scalar y)), e)
  strip_value-keeps [] (list xs) x current h e o = cc
  strip_value-keeps [] (object fs) x current h e o = cc
  strip_value-keeps (s ∷ p) v x current h e o = elim (Option-cases (child s v)) [
    | inl c ↦ cc (rw c at e)
    | inr (u, c) ↦
        let (u', k, l) =
          strip_value-keeps p u x (append_path current s) (WellFormed-child s v u h c) (rw c at e)
            (IsOutside-below current s p o) in
        let (w, k') = strip_value-some s v u u' current h (IsOutside-here current (s ∷ p) o) c k in
        let made = child-Makes (strip_child current) s v w h (strip_value-Makes v w current k').1 in
        (w, k', rw (made, c, k, slot-some s u') l)
  ]

  abbrev Origin : Segments → Segments → Value → Scalar → Type 0
  Origin current p v x =
      ((value_at p v ≡ some (scalar x)) × IsOutside patterns current p)
      ⊎ IsHole (IsCovered patterns current) v p x

  -- Each leaf of a value that is dropped is covered.
  strip_value-Covers :
      (u : Value) (current : Segments)
      → WellFormed u
      → strip_value u patterns current ≡ none
      → (r : Segments) (y : Scalar) → value_at r u ≡ some (scalar y)
      → IsCovered patterns current r
  strip_value-Covers u current h k r y e = elim (IsCovered-or_IsOutside patterns r current) [
    | inl c ↦ c
    | inr o ↦ let (w, kept, _) = strip_value-keeps r u y current h e o in cc
  ]

  Origin-below :
      (current : Segments) (s : Segment) (p : Segments) (v u : Value) (x : Scalar)
      → matches_any_path current patterns ≡ false
      → child s v ≡ some u
      → Origin (append_path current s) p u x
      → Origin current (s ∷ p) v x
  Origin-below current s p v u x e c (inl (a, o)) =
      inl (rw c a, IsOutside-cons patterns current s p e o)
  Origin-below current s p v u x e c (inr hole) = inr (
      IsHole-below (IsCovered patterns current) (IsCovered patterns (append_path current s)) v u s p
        x c (IsCovered-below patterns current s) hole)

  -- A leaf of the result was there before, or fills the slot of a dropped item.
  pub strip_value-Origin :
      (p : Segments) (v w : Value) (x : Scalar) (current : Segments)
      → WellFormed v
      → strip_value v patterns current ≡ some w
      → value_at p w ≡ some (scalar x)
      → Origin current p v x
  strip_value-Origin [] (scalar y) w x current h k e =
      let (m, made) = strip_value-Makes (scalar y) w current k in
      inl (cc (e, made), IsOutside-root patterns current m)
  strip_value-Origin [] (list xs) w x current h k e =
      cc ((strip_value-Makes (list xs) w current k).1)
  strip_value-Origin [] (object fs) w x current h k e =
      cc ((strip_value-Makes (object fs) w current k).1)
  strip_value-Origin (s ∷ p) v w x current h k e =
      let (m, made) = strip_value-Makes v w current k in
      let below = child-Makes (strip_child current) s v w h made in
      elim (Option-cases (child s v)) [
        | inl c ↦ cc (rw (below, c) at e)
        | inr (u, c) ↦ elim (Option-cases (strip_child current s u)) [
          | inl d ↦ inr (
              IsHole-here (IsCovered patterns current) v u s p x c (rw (below, c, d) at e) (λ r y l.
                IsCovered-below patterns current s r (
                  strip_value-Covers u (append_path current s) (WellFormed-child s v u h c) d r y
                    l)))
          | inr (u', d) ↦ Origin-below current s p v u x m c (
              strip_value-Origin p u u' x (append_path current s) (WellFormed-child s v u h c) d
                (rw (below, c, d, slot-some s u') at e))
        ]
      ]

module _ (patterns : List PathPattern) (obj : Fields) where
  strip-eq : strip obj patterns ≡ map_or_empty (strip_value (object obj) patterns [])
  unfolding strip
  strip-eq = refl

  strip-some :
      (w : Value) → strip_value (object obj) patterns [] ≡ some w → w ≡ object (strip obj patterns)
  strip-some w k =
      let (m, made) = strip_value-Makes patterns (object obj) w [] k in rw (strip-eq, k, made)

  -- `Strip` keeps every leaf at which, and above which, no pattern matches. The keys of a map are
  -- distinct.
  pub strip-keeps :
      (p : Segments) (x : Scalar)
      → WellFormedFields obj
      → value_at p (object obj) ≡ some (scalar x)
      → ((q r : Segments) → p ≡ q ++ r → matches_any_path q patterns ≡ false)
      → value_at p (object (strip obj patterns)) ≡ some (scalar x)
  strip-keeps p x h e o =
      let (w, k, l) = strip_value-keeps patterns p (object obj) x [] h e o in
      rw (← strip-some w k) l

  -- Every leaf of the result of `Strip` stood in the object at the same path, with no pattern matching
  -- there or above; or it is a `nil` in the slot of a list item of the object, each leaf of which has
  -- a pattern that matches there or above. The keys of a map are distinct.
  pub strip-origin :
      (p : Segments) (x : Scalar)
      → WellFormedFields obj
      → value_at p (object (strip obj patterns)) ≡ some (scalar x)
      → ((value_at p (object obj) ≡ some (scalar x))
          × ((q r : Segments) → p ≡ q ++ r → matches_any_path q patterns ≡ false))
        ⊎ IsHole (IsCovered patterns []) (object obj) p x
  strip-origin p x h e = elim (Option-cases (strip_value (object obj) patterns [])) [
    | inl k ↦ absurd (value_at-empty p x (rw (strip-eq, k) at e))
    | inr (w, k) ↦ strip_value-Origin patterns p (object obj) w x [] h k (rw (strip-some w k) e)
  ]
