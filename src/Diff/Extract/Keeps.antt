-- ===== src/Diff/Extract/Keeps.antt =====
-- Which leaves of an object `Extract` keeps.
use drift_sentinel.Base.{
  ℕ, zero, suc, ◌+◌, Bool, true, false, List, [], ◌∷◌, ◌++◌, some, any, ◌≡◌, inl, inr, refl,
  append_assoc, append-nil, arith, Bool-cases, Option-cases,
}
use native.Mathlib.Nat.{zero-add, add-zero}
use drift_sentinel.Base.Number.{pos}
use drift_sentinel.Diff.Segment.{
  Segments, Segment, field, index, append_path, PathPattern, all_match, prefix_matches,
  matches_any_path, has_any_descendant_match,
}
use drift_sentinel.Diff.Value.{
  Value, Scalar, scalar, list, object, Items, nil, cons, Fields, clone_value-eq, item_at,
  WellFormed, WellFormedFields,
}
use drift_sentinel.Diff.Extract.{keep_items, extract_value, extract_fields, extract_items, extract}
use drift_sentinel.Diff.Extract.Made.{
  extract_child, extract_fields-eq, extract_value-reached, extract_value-object,
}
use drift_sentinel.Diff.Children.{
  slot-some, lookup-map_fields, child-Makes, keep_fields-some, WellFormed-child,
}
use drift_sentinel.Diff.Compare.Nodes.{child, value_at}

-- A pattern that matches a path goes on from each path above it.
prefix_matches-append :
    (ps c q : Segments) → all_match ps (c ++ q) ≡ true → prefix_matches ps c ≡ true
unfolding all_match prefix_matches
prefix_matches-append ps [] q h = refl
prefix_matches-append [] (s ∷ c) q h = cc
prefix_matches-append (p ∷ ps) (s ∷ c) q h = ground (arith, prefix_matches-append ps c q)

any-map-true {ℓ} :
    {A : Type ℓ} (f g : A → Bool) (xs : List A)
    → ((x : A) → f x ≡ true → g x ≡ true)
    → any f xs ≡ true
    → any g xs ≡ true
any-map-true f g [] h k = k
any-map-true f g (x ∷ xs) h k = ground (arith, h x, any-map-true f g xs h)

module _ (patterns : List PathPattern) where
  has_any_descendant_match-above :
      (current q : Segments)
      → matches_any_path (current ++ q) patterns ≡ true
      → has_any_descendant_match current patterns ≡ true
  unfolding matches_any_path has_any_descendant_match
  has_any_descendant_match-above current q =
      any-map-true _ _ patterns (λ p. prefix_matches-append p.segments current q)

  extract_value-whole :
      (v : Value) (current : Segments)
      → matches_any_path current patterns ≡ true
      → extract_value v patterns current ≡ some v
  unfolding extract_value
  extract_value-whole (object fs) current h = rw (h, clone_value-eq (object fs))
  extract_value-whole (list xs) current h = rw (h, clone_value-eq (list xs))
  extract_value-whole (scalar s) current h = rw (h, clone_value-eq (scalar s))

  -- A list with an item that is kept is kept.
  extract_items-kept :
      (n : ℕ) (xs : Items) (i : ℕ) (u u' : Value) (current : Segments)
      → item_at n xs ≡ some u
      → extract_child patterns current (index (pos (n + i))) u ≡ some u'
      → (extract_items xs patterns current i).1 ≡ true
  unfolding extract_value item_at
  extract_items-kept n nil i u u' current a k = cc
  extract_items-kept zero (cons v xs) i u u' current a k =
      let same : v ≡ u = cc in rw (same, rw (zero-add i) at k) refl
  extract_items-kept (suc n) (cons v xs) i u u' current a k =
      let shift : suc n + i ≡ n + suc i = omega arith in
      rw (extract_items-kept n xs (suc i) u u' current a (rw shift at k)) (ground arith)

  keep_items-true : (r : Items × Bool) → r.1 ≡ true → keep_items r ≡ some (list r.0)
  keep_items-true (xs, true) h = refl
  keep_items-true (xs, false) h = cc

  extract_value-some :
      (s : Segment) (v u u' : Value) (current : Segments)
      → WellFormed v
      → matches_any_path current patterns ≡ false
      → has_any_descendant_match current patterns ≡ true
      → child s v ≡ some u
      → extract_child patterns current s u ≡ some u'
      → (w : Value) × (extract_value v patterns current ≡ some w)
  unfolding extract_value
  extract_value-some (field key) (object fs) u u' current h e d c k = (
    object (extract_fields fs patterns current),
    rw (e, d)
        (keep_fields-some key u' (extract_fields fs patterns current) (
          rw (
            extract_fields-eq patterns fs current,
            lookup-map_fields (extract_child patterns current) key fs h,
            c,
            k,
          ))),
  )
  extract_value-some (index (pos n)) (list xs) u u' current h e d c k = (
    list ((extract_items xs patterns current 0).0),
    rw (e, d)
        (keep_items-true (extract_items xs patterns current 0)
          (extract_items-kept n xs 0 u u' current c (rw (add-zero n) k))),
  )
  extract_value-some (index (pos n)) (object fs) u u' current h e d c k = cc
  extract_value-some (index (pos n)) (scalar x) u u' current h e d c k = cc
  extract_value-some s v u u' current h e d c k = cc

  pub extract_value-keeps :
      (q r : Segments) (v : Value) (x : Scalar) (current : Segments)
      → WellFormed v
      → value_at (q ++ r) v ≡ some (scalar x)
      → matches_any_path (current ++ q) patterns ≡ true
      → (w : Value) × (extract_value v patterns current ≡ some w)
        × (value_at (q ++ r) w ≡ some (scalar x))
  extract_value-keeps [] r v x current h e m =
      (v, extract_value-whole v current (rw (append-nil current) at m), e)
  extract_value-keeps (s ∷ q) r v x current h e m =
      elim (Bool-cases (matches_any_path current patterns)) [
        | inl a ↦ (v, extract_value-whole v current a, e)
        | inr a ↦ elim (Option-cases (child s v)) [
          | inl c ↦ cc (rw c at e)
          | inr (u, c) ↦
              let d = has_any_descendant_match-above current (s ∷ q) m in
              let (u', k, l) =
                extract_value-keeps q r u x (append_path current s) (WellFormed-child s v u h c)
                  (rw c at e) (rw (append_assoc current (s ∷ []) q) m) in
              let (w, k') = extract_value-some s v u u' current h a d c k in
              let made =
                child-Makes (extract_child patterns current) s v w h
                  (extract_value-reached patterns v w current a d k') in
              (w, k', rw (made, c, k, slot-some s u') l)
        ]
      ]

-- `Extract` keeps every leaf at which, or above which, some pattern matches. The keys of a map are
-- distinct.
pub extract-keeps :
    (patterns : List PathPattern) (obj : Fields) (q r : Segments) (x : Scalar)
    → WellFormedFields obj
    → value_at (q ++ r) (object obj) ≡ some (scalar x)
    → matches_any_path q patterns ≡ true
    → value_at (q ++ r) (object (extract obj patterns)) ≡ some (scalar x)
unfolding extract
extract-keeps patterns obj q r x h e m =
    let (w, k, l) = extract_value-keeps patterns q r (object obj) x [] h e m in
    let (fs, same) = extract_value-object patterns obj w k in rw (k, same) (rw same at l)
