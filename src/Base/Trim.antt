-- ===== src/Base/Trim.antt =====
-- What trimming leaves as it is.
use mathlib.Core.Path.{◌≡◌, refl, sym, ap, ◌∙◌}
use mathlib.Core.Logic.{inl, inr}
use mathlib.Core.Bool.{Bool, true, false}
use mathlib.Core.List.{[], ◌∷◌, ◌++◌, append_assoc, reverse, reverse-append, reverse-reverse}
use Prim.Native.Nat.{ℕ}
use drift_sentinel.Base.Tests.{Bool-cases}
use native.Mathlib.Omega.{arith}
use drift_sentinel.Base.Lists.{all}
use drift_sentinel.Base.Number.{is_numeral}
use drift_sentinel.Base.Text.{Text, is_space, text_eq, trim_left, trim_right, trim_space}

-- The text has a last character, and that is no white space.
abbrev pub EndsSolid : Text → Type 0
EndsSolid t = (s : Text) × (c : ℕ) × (t ≡ s ++ c ∷ []) × (is_space c ≡ false)

abbrev pub StartsSolid : Text → Type 0
StartsSolid [] = ⊥
StartsSolid (c ∷ s) = is_space c ≡ false

pub EndsSolid-append : (t u : Text) → EndsSolid u → EndsSolid (t ++ u)
EndsSolid-append t u (s, c, e, h) = (t ++ s, c, rw e (sym (append_assoc t s (c ∷ []))), h)

module _ (f : ℕ → Bool) where
  pub trim_right-append :
      (s : Text) (d : ℕ) → f d ≡ false → trim_right f (s ++ d ∷ []) ≡ s ++ d ∷ []
  unfolding trim_right
  trim_right-append s d h =
      rw (reverse-append s (d ∷ []), h)
        (reverse-append (d ∷ []) (reverse s) ∙ ap (λ x. x ++ d ∷ []) (reverse-reverse s))

  trim_left-append :
      (s : Text) (d : ℕ) → f d ≡ false → trim_left f (s ++ d ∷ []) ≡ trim_left f s ++ d ∷ []
  unfolding trim_left
  trim_left-append [] d h = rw h
  trim_left-append (c ∷ s) d h = elim (Bool-cases (f c)) [
    | inl e ↦ rw e (trim_left-append s d h)
    | inr e ↦ rw e
  ]

trim_left-solid : (t : Text) → StartsSolid t → trim_left is_space t ≡ t
unfolding trim_left
trim_left-solid [] h = refl
trim_left-solid (c ∷ t) h = rw h

-- Before a last character that is no white space, only the front is trimmed.
pub trim_space-append :
    (s : Text) (d : ℕ)
    → is_space d ≡ false
    → trim_space (s ++ d ∷ []) ≡ trim_left is_space s ++ d ∷ []
trim_space-append s d h =
    trim_space-eq (s ++ d ∷ [])
    ∙ (ap (trim_right is_space) (trim_left-append is_space s d h)
        ∙ trim_right-append is_space (trim_left is_space s) d h)
  where
    trim_space-eq : (x : Text) → trim_space x ≡ trim_right is_space (trim_left is_space x)
    trim_space-eq x = unfold trim_space in refl

-- Nothing is trimmed off a text that is solid at both ends.
pub trim_space-solid : (t : Text) → StartsSolid t → EndsSolid t → trim_space t ≡ t
trim_space-solid t h (s, d, e, k) =
    ap trim_space e
    ∙ trim_space-append s d k
    ∙ sym (trim_left-append is_space s d k)
    ∙ ap (trim_left is_space) (sym e)
    ∙ trim_left-solid t h

pub append-not_empty : (s : Text) (d : ℕ) → text_eq (s ++ d ∷ []) [] ≡ false
unfolding text_eq
append-not_empty [] d = refl
append-not_empty (c ∷ s) d = refl

pub trim_space-space : (s : Text) → trim_space (32 ∷ s) ≡ trim_space s
unfolding trim_space
trim_space-space s = refl

is_numeral-solid : (c : ℕ) → is_numeral c ≡ true → is_space c ≡ false
unfolding is_space
is_numeral-solid c h = ground arith

-- A printed number ends with no white space, and nothing is trimmed off it.
pub IsNumeral-EndsSolid : (c : ℕ) (s : Text) → all is_numeral (c ∷ s) ≡ true → EndsSolid (c ∷ s)
IsNumeral-EndsSolid c [] h = ([], c, refl, is_numeral-solid c (ground arith))
IsNumeral-EndsSolid c (d ∷ s) h =
    let (t, e, p, k) = IsNumeral-EndsSolid d s (ground arith) in (c ∷ t, e, ap (λ r. c ∷ r) p, k)

pub trim_space-numeral :
    (c : ℕ) (s : Text) → all is_numeral (c ∷ s) ≡ true → trim_space (c ∷ s) ≡ c ∷ s
trim_space-numeral c s h =
    trim_space-solid (c ∷ s) (is_numeral-solid c (ground arith)) (IsNumeral-EndsSolid c s h)
