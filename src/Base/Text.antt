-- ===== src/Base/Text.antt =====
-- Go strings as lists of code points, and what the sources use of the packages strings, strconv,
-- unicode and fmt. The texts of the program are valid UTF-8 (they come from JSON and from the API
-- server), so equality, order, cutting at ASCII characters and trimming agree with Go's on bytes.
use Prim.Native.Nat.{ℕ, ◌+◌}
use Prim.Native.Char.{code}
use Prim.Native.String.{String}
use mathlib.Core.Path.{◌≡◌, refl}
use mathlib.Core.Logic.{◌↔◌}
use mathlib.Core.Bool.{Bool, true, false, not, ◌&&◌, ◌||◌}
use mathlib.Core.Option.{Option, none, some}
use mathlib.Core.List.{List, [], ◌∷◌, ◌++◌, map, reverse}
use native.Mathlib.Omega.{arith}
use drift_sentinel.Base.Tests.{ltb, leb, ◌==◌, if◌then◌else◌}

abbrev pub Text : Type 0
Text = List ℕ

-- The code points of a literal.
abbrev pub codes : String → Text
codes String.[] = []
codes (String.◌∷◌ c s) = code c ∷ codes s

unfoldable pub text_eq : Text → Text → Bool
text_eq [] [] = true
text_eq (x ∷ s) (y ∷ t) = x == y && text_eq s t
text_eq _ _ = false

pub text_eq_refl : (s : Text) → text_eq s s ≡ true
unfolding text_eq
text_eq_refl [] = refl
text_eq_refl (x ∷ s) = ground (arith, text_eq_refl s)

text_eq→eq : (s t : Text) → text_eq s t ≡ true → s ≡ t
unfolding text_eq
text_eq→eq [] [] h = refl
text_eq→eq [] (y ∷ t) h = ground arith
text_eq→eq (x ∷ s) [] h = ground arith
text_eq→eq (x ∷ s) (y ∷ t) h = ground (arith, text_eq→eq s t)

pub text_eq_iff : (s t : Text) → (text_eq s t ≡ true) ↔ (s ≡ t)
text_eq_iff s t = (text_eq→eq s t, λ e. rw e (text_eq_refl t))

pub text_eq_comm : (s t : Text) → text_eq s t ≡ text_eq t s
unfolding text_eq
text_eq_comm [] [] = refl
text_eq_comm [] (y ∷ t) = refl
text_eq_comm (x ∷ s) [] = refl
text_eq_comm (x ∷ s) (y ∷ t) = ground (arith, text_eq_comm s t)

-- `s < t` on strings.
unfoldable pub text_ltb : Text → Text → Bool
text_ltb [] [] = false
text_ltb [] (y ∷ t) = true
text_ltb (x ∷ s) [] = false
text_ltb (x ∷ s) (y ∷ t) = if x == y then text_ltb s t else ltb x y

pub text_ltb_asym : (s t : Text) → text_ltb s t ≡ true → text_ltb t s ≡ false
unfolding text_ltb
text_ltb_asym [] [] h = refl
text_ltb_asym [] (y ∷ t) h = refl
text_ltb_asym (x ∷ s) [] h = cc
text_ltb_asym (x ∷ s) (y ∷ t) h = ground (arith, text_ltb_asym s t)

pub text_ltb_refl : (s : Text) → text_ltb s s ≡ false
unfolding text_ltb
text_ltb_refl [] = refl
text_ltb_refl (x ∷ s) = ground (arith, text_ltb_refl s)

pub text_ltb_antisym : (s t : Text) → text_ltb s t ≡ false → text_ltb t s ≡ false → s ≡ t
unfolding text_ltb
text_ltb_antisym [] [] h k = refl
text_ltb_antisym [] (y ∷ t) h k = cc
text_ltb_antisym (x ∷ s) [] h k = cc
text_ltb_antisym (x ∷ s) (y ∷ t) h k = ground (arith, text_ltb_antisym s t)

-- `a ≤ b` and `b ≤ c` give `a ≤ c`, for the order that `<` leaves.
pub text_ltb_negtrans :
    (s t v : Text) → text_ltb t s ≡ false → text_ltb v t ≡ false → text_ltb v s ≡ false
unfolding text_ltb
text_ltb_negtrans [] [] v h k = k
text_ltb_negtrans [] (y ∷ t) [] h k = refl
text_ltb_negtrans [] (y ∷ t) (z ∷ v) h k = refl
text_ltb_negtrans (x ∷ s) [] v h k = cc
text_ltb_negtrans (x ∷ s) (y ∷ t) [] h k = cc
text_ltb_negtrans (x ∷ s) (y ∷ t) (z ∷ v) h k = ground (arith, text_ltb_negtrans s t v)

-- Equal is neither less nor greater.
pub text_eq-text_ltb : (s t : Text) → text_eq s t ≡ (not (text_ltb s t) && not (text_ltb t s))
unfolding text_eq text_ltb
text_eq-text_ltb [] [] = refl
text_eq-text_ltb [] (y ∷ t) = refl
text_eq-text_ltb (x ∷ s) [] = refl
text_eq-text_ltb (x ∷ s) (y ∷ t) = ground (arith, text_eq-text_ltb s t)

-- `unicode.IsSpace`.
unfoldable pub is_space : ℕ → Bool
is_space c =
    (leb 9 c && leb c 13)
    || c == 32
    || c == 0x85
    || c == 0xa0
    || c == 0x1680
    || (leb 0x2000 c && leb c 0x200a)
    || c == 0x2028
    || c == 0x2029
    || c == 0x202f
    || c == 0x205f
    || c == 0x3000

unfoldable pub trim_left : (ℕ → Bool) → Text → Text
trim_left f [] = []
trim_left f (c ∷ s) = if f c then trim_left f s else c ∷ s

unfoldable pub trim_right : (ℕ → Bool) → Text → Text
unfolding trim_left
trim_right f s = reverse (trim_left f (reverse s))

-- `strings.TrimSpace`.
unfoldable pub trim_space : Text → Text
unfolding trim_left trim_right is_space
trim_space s = trim_right is_space (trim_left is_space s)

abbrev pub lower : ℕ → ℕ
lower c = if leb b'A' c && leb c b'Z' then c + 32 else c

-- `strings.EqualFold` with "true", whose letters fold with no character above ASCII.
unfoldable pub folds_to_true : Text → Bool
folds_to_true s = text_eq (map lower s) (codes "true")

-- The text before the first `q`, and the text behind it.
unfoldable pub cut_at : ℕ → Text → Option (Text × Text)
cut_at q [] = none
cut_at q (c ∷ s) =
    if c == q
    then some ([], s)
    else elim (cut_at q s) [ none ↦ none | some (before, after) ↦ some (c ∷ before, after) ]

abbrev pub cons_head : ℕ → List Text → List Text
cons_head c [] = (c ∷ []) ∷ []
cons_head c (s ∷ ss) = (c ∷ s) ∷ ss

-- `strings.Split` at one character.
unfoldable pub split_at : ℕ → Text → List Text
split_at q [] = [] ∷ []
split_at q (c ∷ s) = let rest = split_at q s in if c == q then [] ∷ rest else cons_head c rest

-- `strings.TrimPrefix`, with the answer of `strings.HasPrefix`.
unfoldable pub cut_prefix : Text → Text → Option Text
cut_prefix [] s = some s
cut_prefix (p ∷ ps) [] = none
cut_prefix (p ∷ ps) (c ∷ s) = if c == p then cut_prefix ps s else none

-- `strings.Join`.
unfoldable pub join : Text → List Text → Text
join separator [] = []
join separator (s ∷ []) = s
join separator (s ∷ t ∷ ts) = s ++ (separator ++ join separator (t ∷ ts))

-- The tables of the package unicode for the characters above ASCII. Letters and digits are no white
-- space there.
pub record Unicode : Type 0 where
  pub letter : ℕ → Bool
  pub digit : ℕ → Bool
  pub print : ℕ → Bool
  pub letter_not_space : (c : ℕ) → letter c ≡ true → is_space c ≡ false
  pub digit_not_space : (c : ℕ) → digit c ≡ true → is_space c ≡ false

abbrev pub is_ascii_letter : ℕ → Bool
is_ascii_letter c = (leb b'A' c && leb c b'Z') || (leb b'a' c && leb c b'z')

abbrev pub is_ascii_digit : ℕ → Bool
is_ascii_digit c = leb b'0' c && leb c b'9'

-- `unicode.IsLetter`, `unicode.IsDigit`.
unfoldable pub is_letter : ⦃u : Unicode⦄ → ℕ → Bool
is_letter ⦃u⦄ c = if ltb c 128 then is_ascii_letter c else u.letter c

unfoldable pub is_digit : ⦃u : Unicode⦄ → ℕ → Bool
is_digit ⦃u⦄ c = if ltb c 128 then is_ascii_digit c else u.digit c
