-- ===== src/Diff/Cover.antt =====
-- Which paths some patterns cover, and the slots that dropped list items leave.
use mathlib.Core.Path.{subst}
use drift_sentinel.Base.{
  true, false, List, [], ◌∷◌, ◌++◌, some, none, ◌≡◌, ◌⊎◌, inl, inr, refl, sym, ap, append_assoc,
  append-nil, Bool-cases,
}
use drift_sentinel.Base.Number.{ℤ}
use drift_sentinel.Diff.Segment.{
  Segments, Segment, index, append_path, PathPattern, matches_any_path,
}
use drift_sentinel.Diff.Value.{Value, Scalar, scalar, null}
use drift_sentinel.Diff.Children.{slot, value_at-scalar}
use drift_sentinel.Diff.Compare.Nodes.{child, follow, value_at}

-- No pattern matches the path or a path above it.
abbrev pub IsOutside : List PathPattern → Segments → Segments → Type 0
IsOutside patterns current p =
    (q r : Segments) → p ≡ q ++ r → matches_any_path (current ++ q) patterns ≡ false

-- Some pattern matches the path or a path above it.
abbrev pub IsCovered : List PathPattern → Segments → Segments → Type 0
IsCovered patterns current p =
    (q : Segments) × (r : Segments) × (p ≡ q ++ r)
    × (matches_any_path (current ++ q) patterns ≡ true)

module _ (patterns : List PathPattern) where
  pub IsOutside-root :
      (current : Segments)
      → matches_any_path current patterns ≡ false
      → IsOutside patterns current []
  IsOutside-root current h [] r e = rw (append-nil current) h
  IsOutside-root current h (t ∷ q) r e = cc

  pub IsOutside-cons :
      (current : Segments) (s : Segment) (p : Segments)
      → matches_any_path current patterns ≡ false
      → IsOutside patterns (append_path current s) p
      → IsOutside patterns current (s ∷ p)
  IsOutside-cons current s p e o [] r eq = rw (append-nil current) e
  IsOutside-cons current s p e o (t ∷ q) r eq =
      let same : s ≡ t = cc in rw (← same) (rw (append_assoc current (s ∷ []) q) at (o q r (cc)))

  IsCovered-here :
      (current p : Segments)
      → matches_any_path current patterns ≡ true
      → IsCovered patterns current p
  IsCovered-here current p m = ([], p, refl, rw (append-nil current) m)

  pub IsCovered-below :
      (current : Segments) (s : Segment) (p : Segments)
      → IsCovered patterns (append_path current s) p
      → IsCovered patterns current (s ∷ p)
  IsCovered-below current s p (q, r, e, m) =
      (s ∷ q, r, ap (λ x. s ∷ x) e, rw (append_assoc current (s ∷ []) q) at m)

  pub IsCovered-or_IsOutside :
      (p current : Segments) → IsCovered patterns current p ⊎ IsOutside patterns current p
  IsCovered-or_IsOutside [] current = elim (Bool-cases (matches_any_path current patterns)) [
    | inl m ↦ inl (IsCovered-here current [] m)
    | inr m ↦ inr (IsOutside-root current m)
  ]
  IsCovered-or_IsOutside (s ∷ p) current = elim (Bool-cases (matches_any_path current patterns)) [
    | inl m ↦ inl (IsCovered-here current (s ∷ p) m)
    | inr m ↦ elim (IsCovered-or_IsOutside p (append_path current s)) [
      | inl c ↦ inl (IsCovered-below current s p c)
      | inr o ↦ inr (IsOutside-cons current s p m o)
    ]
  ]

-- A `nil` in the slot of a list item of the value, of which each leaf is lost.
abbrev pub IsHole : (Segments → Type 0) → Value → Segments → Scalar → Type 0
IsHole Lost v p x =
    (x ≡ null)
    × ((q : Segments) × (i : ℤ) × (p ≡ q ++ index i ∷ []))
    × ((item : Value) × (value_at p v ≡ some item)
        × ((r : Segments) (y : Scalar) → value_at r item ≡ some (scalar y) → Lost (p ++ r)))

pub IsHole-here :
    (Lost : Segments → Type 0) (v u : Value) (s : Segment) (p : Segments) (x : Scalar)
    → child s v ≡ some u
    → follow (value_at p) (slot s none) ≡ some (scalar x)
    → ((r : Segments) (y : Scalar) → value_at r u ≡ some (scalar y) → Lost (s ∷ r))
    → IsHole Lost v (s ∷ p) x
IsHole-here Lost v u (index i) p x c h lost =
    let (root, same) = value_at-scalar p null x h in
    subst (λ p. IsHole Lost v (index i ∷ p) x) (sym root)
      (same, ([], i, refl), (u, rw c refl, lost))
IsHole-here Lost v u _ p x c h lost = cc

pub IsHole-below :
    (Lost Below : Segments → Type 0) (v u : Value) (s : Segment) (p : Segments) (x : Scalar)
    → child s v ≡ some u
    → ((r : Segments) → Below r → Lost (s ∷ r))
    → IsHole Below u p x
    → IsHole Lost v (s ∷ p) x
IsHole-below Lost Below v u s p x c f (same, (q, i, b), (item, e, lost)) =
    (same, (s ∷ q, i, ap (λ y. s ∷ y) b), (item, rw c e, λ r y l. f (p ++ r) (lost r y l)))
