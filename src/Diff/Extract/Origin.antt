-- ===== src/Diff/Extract/Origin.antt =====
-- Where the leaves of the result of `Extract` come from.
use drift_sentinel.Base.{
  true, false, List, [], ◌∷◌, ◌++◌, none, some, ◌≡◌, ◌⊎◌, inl, inr, refl, ap, append_assoc,
  append-nil, Bool-cases, Option-cases,
}
use drift_sentinel.Diff.Segment.{
  Segments, Segment, append_path, PathPattern, matches_any_path, has_any_descendant_match,
}
use drift_sentinel.Diff.Value.{
  Value, Scalar, scalar, list, object, Fields, WellFormed, WellFormedFields,
}
use drift_sentinel.Diff.Cover.{
  IsHole, IsOutside, IsOutside-cons, IsCovered-or_IsOutside, IsHole-below, IsHole-here,
}
use drift_sentinel.Diff.Extract.Made.{
  extract_child, extract_value-Makes, extract_value-matched, extract_value-object,
}
use drift_sentinel.Diff.Extract.Keeps.{extract_value-keeps}
use drift_sentinel.Diff.Extract.{extract_value, extract}
use drift_sentinel.Diff.Children.{slot-some, value_at-empty, child-Makes, WellFormed-child}
use drift_sentinel.Diff.Compare.Nodes.{child, value_at}

-- Some pattern matches the path or a path above it, or goes on from the path.
abbrev pub IsReached : List PathPattern → Segments → Segments → Type 0
IsReached patterns current p =
    ((q r : Segments) × (p ≡ q ++ r) × (matches_any_path (current ++ q) patterns ≡ true))
    ⊎ (has_any_descendant_match (current ++ p) patterns ≡ true)

module _ (patterns : List PathPattern) where
  abbrev Source : Segments → Segments → Value → Scalar → Type 0
  Source current p v x =
      ((value_at p v ≡ some (scalar x)) × IsReached patterns current p)
      ⊎ IsHole (IsOutside patterns current) v p x

  -- No leaf of a value that is dropped is covered.
  extract_value-Outside :
      (u : Value) (current : Segments)
      → WellFormed u
      → extract_value u patterns current ≡ none
      → (r : Segments) (y : Scalar) → value_at r u ≡ some (scalar y)
      → IsOutside patterns current r
  extract_value-Outside u current h k r y e = elim (IsCovered-or_IsOutside patterns r current) [
    | inl (q, t, same, m) ↦
        let (w, kept, _) = extract_value-keeps patterns q t u y current h (rw same at e) m in cc
    | inr o ↦ o
  ]

  IsReached-below :
      (current : Segments) (s : Segment) (p : Segments)
      → IsReached patterns (append_path current s) p
      → IsReached patterns current (s ∷ p)
  IsReached-below current s p (inl (q, r, e, m)) =
      inl (s ∷ q, r, ap (λ x. s ∷ x) e, rw (append_assoc current (s ∷ []) q) at m)
  IsReached-below current s p (inr d) = inr (rw (append_assoc current (s ∷ []) p) at d)

  Source-below :
      (current : Segments) (s : Segment) (p : Segments) (v u : Value) (x : Scalar)
      → matches_any_path current patterns ≡ false
      → child s v ≡ some u
      → Source (append_path current s) p u x
      → Source current (s ∷ p) v x
  Source-below current s p v u x m c (inl (a, o)) = inl (rw c a, IsReached-below current s p o)
  Source-below current s p v u x m c (inr hole) = inr (
      IsHole-below (IsOutside patterns current) (IsOutside patterns (append_path current s)) v u s p
        x c (λ r. IsOutside-cons patterns current s r m) hole)

  Source-matched :
      (current p : Segments) (v w : Value) (x : Scalar)
      → matches_any_path current patterns ≡ true
      → extract_value v patterns current ≡ some w
      → value_at p w ≡ some (scalar x)
      → Source current p v x
  Source-matched current p v w x m k e = inl (
    rw (← extract_value-matched patterns v w current m k) e,
    inl ([], p, refl, rw (append-nil current) m),
  )

  Source-root :
      (current : Segments) (v w : Value) (x : Scalar)
      → matches_any_path current patterns ≡ false
      → extract_value v patterns current ≡ some w
      → value_at [] w ≡ some (scalar x)
      → Source current [] v x
  Source-root current (scalar y) w x m k e =
      let (d, made) = extract_value-Makes patterns (scalar y) w current m k in
      inl (cc (e, made), inr (rw (append-nil current) d))
  Source-root current (list xs) w x m k e =
      cc ((extract_value-Makes patterns (list xs) w current m k).1)
  Source-root current (object fs) w x m k e =
      cc ((extract_value-Makes patterns (object fs) w current m k).1)

  extract_value-Source :
      (p : Segments) (v w : Value) (x : Scalar) (current : Segments)
      → WellFormed v
      → extract_value v patterns current ≡ some w
      → value_at p w ≡ some (scalar x)
      → Source current p v x
  extract_value-Source [] v w x current h k e =
      elim (Bool-cases (matches_any_path current patterns)) [
        | inl m ↦ Source-matched current [] v w x m k e
        | inr m ↦ Source-root current v w x m k e
      ]
  extract_value-Source (s ∷ p) v w x current h k e =
      elim (Bool-cases (matches_any_path current patterns)) [
        | inl m ↦ Source-matched current (s ∷ p) v w x m k e
        | inr m ↦
            let (d, made) = extract_value-Makes patterns v w current m k in
            let below = child-Makes (extract_child patterns current) s v w h made in
            elim (Option-cases (child s v)) [
              | inl c ↦ cc (rw (below, c) at e)
              | inr (u, c) ↦ elim (Option-cases (extract_child patterns current s u)) [
                | inl n ↦ inr (
                    IsHole-here (IsOutside patterns current) v u s p x c (rw (below, c, n) at e)
                      (λ r y l. IsOutside-cons patterns current s r m (
                        extract_value-Outside u (append_path current s) (WellFormed-child s v u h c)
                          n r y l)))
                | inr (u', d) ↦ Source-below current s p v u x m c (
                    extract_value-Source p u u' x (append_path current s)
                      (WellFormed-child s v u h c) d (rw (below, c, d, slot-some s u') at e))
              ]
            ]
      ]

-- Every leaf of the result of `Extract` stood in the object at the same path, with a pattern that
-- matches there or above or that goes on from there; or it is a `nil` in the slot of a list item of the
-- object, no leaf of which has a pattern that matches there or above. The keys of a map are distinct.
pub extract-Origin :
    (patterns : List PathPattern) (obj : Fields) (p : Segments) (x : Scalar)
    → WellFormedFields obj
    → value_at p (object (extract obj patterns)) ≡ some (scalar x)
    → ((value_at p (object obj) ≡ some (scalar x)) × IsReached patterns [] p)
      ⊎ IsHole (IsOutside patterns []) (object obj) p x
unfolding extract
extract-Origin patterns obj p x h e = elim (Option-cases (extract_value (object obj) patterns [])) [
  | inl k ↦ absurd (value_at-empty p x (rw k at e))
  | inr (w, k) ↦
      let (fs, same) = extract_value-object patterns obj w k in
      extract_value-Source patterns p (object obj) w x [] h k (rw same (rw (k, same) at e))
]
