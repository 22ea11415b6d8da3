-- ===== src/Base/Sort.antt =====
-- Sorting, as the packages sort and slices do it: stable, by a test of "less".
use mathlib.Core.Path.{◌≡◌, refl}
use mathlib.Core.Bool.{Bool, true, false, ◌||◌}
use mathlib.Core.List.{List, [], ◌∷◌}
use native.Mathlib.Omega.{arith}
use drift_sentinel.Base.Tests.{if◌then◌else◌, Bool-cases}
use mathlib.Core.Logic.{◌⊎◌, inl, inr}
use drift_sentinel.Base.Lists.{any}

module _ {ℓ} {A : Type ℓ} (less : A → A → Bool) where
  unfoldable pub insert : A → List A → List A
  insert x [] = x ∷ []
  insert x (y ∷ ys) = if less y x then y ∷ insert x ys else x ∷ y ∷ ys

  unfoldable pub sort : List A → List A
  unfolding insert
  sort [] = []
  sort (x ∷ xs) = insert x (sort xs)

module _ {ℓ} {A : Type ℓ} (less : A → A → Bool) (f : A → Bool) where
  pub any-insert : (x : A) (ys : List A) → any f (insert less x ys) ≡ (f x || any f ys)
  unfolding insert
  any-insert x [] = refl
  any-insert x (y ∷ ys) = ground (arith, any-insert x ys)

  -- Sorting keeps the elements.
  pub any-sort : (xs : List A) → any f (sort less xs) ≡ any f xs
  unfolding sort
  any-sort [] = refl
  any-sort (x ∷ xs) = ground (arith, any-insert x (sort less xs), any-sort xs)

-- No element is less than the one before it.
abbrev pub IsSorted {ℓ} : {A : Type ℓ} → (A → A → Bool) → List A → Type 0
IsSorted less [] = Unit
IsSorted less (x ∷ []) = Unit
IsSorted less (x ∷ y ∷ ys) = (less y x ≡ false) × IsSorted less (y ∷ ys)

module _ {ℓ} {A : Type ℓ} (less : A → A → Bool)
    (asym : (x y : A) → less x y ≡ true → less y x ≡ false) where
  insert-IsSorted : (x : A) (ys : List A) → IsSorted less ys → IsSorted less (insert less x ys)
  unfolding insert
  insert-IsSorted x [] h = tt
  insert-IsSorted x (y ∷ []) h = elim (Bool-cases (less y x)) [
    | inl e ↦ rw e (asym y x e, tt)
    | inr e ↦ rw e (e, tt)
  ]
  insert-IsSorted x (y ∷ z ∷ ys) h = elim (Bool-cases (less y x)) [
    | inl e ↦ rw e (elim (Bool-cases (less z x)) [
      | inl f ↦
          let rest : IsSorted less (insert less x (z ∷ ys)) = insert-IsSorted x (z ∷ ys) h.1 in
          rw f (h.0, rw f at rest)
      | inr f ↦ rw f (asym y x e, (f, h.1))
    ])
    | inr e ↦ rw e (e, h)
  ]

  pub sort-IsSorted : (xs : List A) → IsSorted less (sort less xs)
  unfolding sort
  sort-IsSorted [] = tt
  sort-IsSorted (x ∷ xs) = insert-IsSorted x (sort less xs) (sort-IsSorted xs)

  -- Sorting twice is sorting once.
  sort-eq : (xs : List A) → IsSorted less xs → sort less xs ≡ xs
  unfolding sort
  sort-eq [] h = refl
  sort-eq (x ∷ []) h = refl
  sort-eq (x ∷ y ∷ ys) h = rw (sort-eq (y ∷ ys) h.1) (unfold insert in rw h.0)

  pub sort-sort : (xs : List A) → sort less (sort less xs) ≡ sort less xs
  sort-sort xs = sort-eq (sort less xs) (sort-IsSorted xs)

-- The element is in the list.
abbrev pub In : {A : Type 0} → A → List A → Type 0
In x [] = ⊥
In x (y ∷ ys) = (x ≡ y) ⊎ In x ys

-- No later element is less than an earlier one.
abbrev pub IsOrdered : {A : Type 0} → (A → A → Bool) → List A → Type 0
IsOrdered less [] = Unit
IsOrdered {A} less (x ∷ xs) = ((y : A) → In y xs → less y x ≡ false) × IsOrdered less xs

module _ {A : Type 0} (less : A → A → Bool) where
  insert→In : (x y : A) (ys : List A) → In x (insert less y ys) → (x ≡ y) ⊎ In x ys
  unfolding insert
  insert→In x y [] h = h
  insert→In x y (z ∷ ys) h = elim (Bool-cases (less z y)) [
    | inl e ↦ elim (rw e at h) [
      | inl p ↦ inr (inl p)
      | inr q ↦ elim (insert→In x y ys q) [ inl p ↦ inl p | inr r ↦ inr (inr r) ]
    ]
    | inr e ↦ rw e at h
  ]

  In→insert : (x y : A) (ys : List A) → (x ≡ y) ⊎ In x ys → In x (insert less y ys)
  unfolding insert
  In→insert x y [] h = h
  In→insert x y (z ∷ ys) h = elim (Bool-cases (less z y)) [
    | inl e ↦ rw e (elim h [
      | inl p ↦ inr (In→insert x y ys (inl p))
      | inr q ↦ elim q [ inl p ↦ inl p | inr r ↦ inr (In→insert x y ys (inr r)) ]
    ])
    | inr e ↦ rw e h
  ]

  pub sort→In : (x : A) (xs : List A) → In x (sort less xs) → In x xs
  unfolding sort
  sort→In x [] h = h
  sort→In x (y ∷ ys) h = elim (insert→In x y (sort less ys) h) [
    | inl p ↦ inl p
    | inr q ↦ inr (sort→In x ys q)
  ]

  pub In→sort : (x : A) (xs : List A) → In x xs → In x (sort less xs)
  unfolding sort
  In→sort x [] h = h
  In→sort x (y ∷ ys) (inl p) = In→insert x y (sort less ys) (inl p)
  In→sort x (y ∷ ys) (inr q) = In→insert x y (sort less ys) (inr (In→sort x ys q))

module _ {A : Type 0} (less : A → A → Bool) (asym : (x y : A) → less x y ≡ true → less y x ≡ false)
    (negtrans : (x y z : A) → less y x ≡ false → less z y ≡ false → less z x ≡ false) where
  insert-IsOrdered : (x : A) (ys : List A) → IsOrdered less ys → IsOrdered less (insert less x ys)
  unfolding insert
  insert-IsOrdered x [] h = (λ y m. absurd m, tt)
  insert-IsOrdered x (y ∷ ys) h = elim (Bool-cases (less y x)) [
    | inl e ↦ rw e (
      λ z m. elim (insert→In less z x ys m) [ inl p ↦ rw p (asym y x e) | inr q ↦ h.0 z q ],
      insert-IsOrdered x ys h.1,
    )
    | inr e ↦ rw e (λ z m. elim m [ inl p ↦ rw p e | inr q ↦ negtrans x y z e (h.0 z q) ], h)
  ]

  pub sort-IsOrdered : (xs : List A) → IsOrdered less (sort less xs)
  unfolding sort
  sort-IsOrdered [] = tt
  sort-IsOrdered (x ∷ xs) = insert-IsOrdered x (sort less xs) (sort-IsOrdered xs)
