-- ===== src/Base/Lexicographic.antt =====
-- Orders that compare by one key and, where it is the same, by another.
use mathlib.Core.Path.{◌≡◌}
use mathlib.Core.Bool.{Bool, true, false, not, ◌&&◌, ◌||◌}
use native.Mathlib.Omega.{arith}

abbrev pub Asymmetric {ℓ} : {A : Type ℓ} → (A → A → Bool) → Type ℓ
Asymmetric {A} less = (x y : A) → less x y ≡ true → less y x ≡ false

-- `x ≤ y` and `y ≤ z` give `x ≤ z`.
abbrev pub Transitive {ℓ} : {A : Type ℓ} → (A → A → Bool) → Type ℓ
Transitive {A} less = (x y z : A) → less y x ≡ false → less z y ≡ false → less z x ≡ false

-- First by `p`, then by `q`.
abbrev pub lex {ℓ} : {A : Type ℓ} → (A → A → Bool) → (A → A → Bool) → A → A → Bool
lex p q x y = p x y || (not (p y x) && q x y)

module _ {ℓ} {A : Type ℓ} (p q : A → A → Bool) where
  pub lex-Asymmetric : Asymmetric p → Asymmetric q → Asymmetric (lex p q)
  lex-Asymmetric a b x y h = ground (arith, a x y, a y x, b x y)

  pub lex-Transitive : Transitive p → Transitive q → Transitive (lex p q)
  lex-Transitive a b x y z h k = ground (arith, a x y z, a y z x, a z x y, b x y z)
