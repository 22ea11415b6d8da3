-- ===== src/Base/Number.antt =====
-- Go's `int` (64 bits), `strconv.Atoi` and the verb %d.
use Prim.Native.Nat.{ℕ, zero, suc, ◌+◌, ◌-◌, ◌*◌, ◌/◌, ◌%◌, ◌≤◌, ◌<◌}
use mathlib.Core.Path.{◌≡◌, refl, ◌∙◌}
use mathlib.Core.Bool.{Bool, true, false, not, ◌&&◌, ◌||◌}
use mathlib.Core.Option.{Option, none, some}
use mathlib.Core.List.{[], ◌∷◌}
use native.Mathlib.Omega.{arith}
use drift_sentinel.Base.Tests.{ltb, leb, ◌==◌, if◌then◌else◌, if-both}
use drift_sentinel.Base.Lists.{all}
use drift_sentinel.Base.Text.{Text, codes, is_ascii_digit}

-- `negsuc n` is -(n + 1).
pub data ℤ : Type 0 where
  pos : ℕ → ℤ
  negsuc : ℕ → ℤ

abbrev pub int_eq : ℤ → ℤ → Bool
int_eq (pos a) (pos b) = a == b
int_eq (negsuc a) (negsuc b) = a == b
int_eq _ _ = false

pub int_eq_refl : (a : ℤ) → int_eq a a ≡ true
int_eq_refl (pos a) = ground arith
int_eq_refl (negsuc a) = ground arith

pub int_eq→eq : (a b : ℤ) → int_eq a b ≡ true → a ≡ b
int_eq→eq a b h = ground arith

-- `a < b`.
abbrev pub int_ltb : ℤ → ℤ → Bool
int_ltb (pos a) (pos b) = ltb a b
int_ltb (pos a) (negsuc b) = false
int_ltb (negsuc a) (pos b) = true
int_ltb (negsuc a) (negsuc b) = ltb b a

pub int_ltb_asym : (a b : ℤ) → int_ltb a b ≡ true → int_ltb b a ≡ false
int_ltb_asym a b h = ground arith

pub int_ltb_negtrans : (a b c : ℤ) → int_ltb b a ≡ false → int_ltb c b ≡ false → int_ltb c a ≡ false
int_ltb_negtrans a b c h k = ground arith

-- Equal is neither less nor greater.
pub int_eq-int_ltb : (a b : ℤ) → int_eq a b ≡ (not (int_ltb a b) && not (int_ltb b a))
int_eq-int_ltb a b = ground arith

abbrev pub max_int : ℕ
max_int = 9223372036854775807

-- The values of the type `int`.
abbrev pub IsInt : ℤ → Type 0
IsInt (pos n) = n ≤ max_int
IsInt (negsuc n) = n ≤ max_int

-- The digits of `n` before `acc`, with fuel above `n`.
unfoldable pub digits : ℕ → ℕ → Text → Text
digits zero n acc = acc
digits (suc f) n acc =
    let rest = digits f (n / 10) ((b'0' + n % 10) ∷ acc) in
    if ltb n 10 then (b'0' + n) ∷ acc else rest

unfoldable pub decimal : ℕ → Text
unfolding digits
decimal n = digits (suc n) n []

unfoldable pub print_int : ℤ → Text
unfolding decimal
print_int (pos n) = decimal n
print_int (negsuc n) = b'-' ∷ decimal (suc n)

unfoldable pub read_digits : Text → ℕ → Option ℕ
read_digits [] acc = some acc
read_digits (c ∷ s) acc = if is_ascii_digit c then read_digits s (acc * 10 + (c - b'0')) else none

-- The two errors of `strconv.Atoi`.
pub data AtoiError : Type 0 where
  syntax range : AtoiError

pub data Atoi : Type 0 where
  number : ℤ → Atoi
  failed : AtoiError → Atoi

abbrev in_range : (ℕ → ℤ) → ℕ → ℕ → Atoi
in_range sign limit n = if leb n limit then number (sign n) else failed range

abbrev negate : ℕ → ℤ
negate zero = pos 0
negate (suc n) = negsuc n

abbrev read_in_range : (ℕ → ℤ) → ℕ → Option ℕ → Atoi
read_in_range sign limit none = failed syntax
read_in_range sign limit (some n) = in_range sign limit n

-- An unsigned run of digits, which must not be empty.
magnitude : (ℕ → ℤ) → ℕ → Text → Atoi
magnitude sign limit [] = failed syntax
magnitude sign limit (c ∷ s) = read_in_range sign limit (read_digits (c ∷ s) 0)

unfoldable pub atoi : Text → Atoi
unfolding read_digits magnitude
atoi [] = failed syntax
atoi (c ∷ s) =
    if c == b'-'
    then magnitude negate (max_int + 1) s
    else if c == b'+'
    then magnitude pos max_int s
    else magnitude pos max_int (c ∷ s)

-- A number that was read is an `int`.
abbrev pub GivesInt : Atoi → Type 0
GivesInt (number n) = IsInt n
GivesInt (failed e) = Unit

in_range-pos : (n : ℕ) → GivesInt (in_range pos max_int n)
in_range-pos n = ground arith

in_range-negate : (n : ℕ) → GivesInt (in_range negate (max_int + 1) n)
in_range-negate zero = ground arith
in_range-negate (suc n) = ground arith

read_in_range-GivesInt :
    (sign : ℕ → ℤ) (limit : ℕ) (o : Option ℕ)
    → ((n : ℕ) → GivesInt (in_range sign limit n))
    → GivesInt (read_in_range sign limit o)
read_in_range-GivesInt sign limit none h = tt
read_in_range-GivesInt sign limit (some n) h = h n

magnitude-GivesInt :
    (sign : ℕ → ℤ) (limit : ℕ) (s : Text)
    → ((n : ℕ) → GivesInt (in_range sign limit n))
    → GivesInt (magnitude sign limit s)
unfolding magnitude
magnitude-GivesInt sign limit [] h = tt
magnitude-GivesInt sign limit (c ∷ s) h =
    read_in_range-GivesInt sign limit (read_digits (c ∷ s) 0) h

pub atoi-GivesInt : (s : Text) → GivesInt (atoi s)
unfolding atoi
atoi-GivesInt [] = tt
atoi-GivesInt (c ∷ s) =
    if-both GivesInt (c == b'-') (magnitude-GivesInt negate (max_int + 1) s in_range-negate) (
      if-both GivesInt (c == b'+') (magnitude-GivesInt pos max_int s in_range-pos)
        (magnitude-GivesInt pos max_int (c ∷ s) in_range-pos))

read_digits-digits :
    (f n : ℕ) (acc : Text) → n < f → read_digits (digits f n acc) 0 ≡ read_digits acc n
unfolding read_digits digits
read_digits-digits zero n acc h = absurd (omega arith)
read_digits-digits (suc f) n acc h =
    ground (arith, read_digits-digits f (n / 10) ((b'0' + n % 10) ∷ acc))

-- The first digit of a print, which is a digit and no sign.
abbrev StartsDigit : Text → Type 0
StartsDigit [] = ⊥
StartsDigit (c ∷ s) = is_ascii_digit c ≡ true

digits-StartsDigit : (f n : ℕ) (acc : Text) → n < f → StartsDigit (digits f n acc)
unfolding digits
digits-StartsDigit zero n acc h = absurd (omega arith)
digits-StartsDigit (suc f) n acc h =
    ground (arith, digits-StartsDigit f (n / 10) ((b'0' + n % 10) ∷ acc))

atoi-digits :
    (s : Text) (n : ℕ)
    → StartsDigit s
    → read_digits s 0 ≡ some n
    → n ≤ max_int
    → atoi s ≡ number (pos n)
unfolding atoi
atoi-digits [] n d e h = absurd d
atoi-digits (c ∷ s) n d e h = ground arith

-- A printed index reads back.
pub atoi-decimal : (n : ℕ) → n ≤ max_int → atoi (decimal n) ≡ number (pos n)
unfolding decimal read_digits
atoi-decimal n h =
    atoi-digits (digits (suc n) n []) n (digits-StartsDigit (suc n) n [] (omega arith))
      (read_digits-digits (suc n) n [] (omega arith)) h

magnitude-digits :
    (sign : ℕ → ℤ) (limit : ℕ) (s : Text) (n : ℕ)
    → StartsDigit s
    → read_digits s 0 ≡ some n
    → n ≤ limit
    → magnitude sign limit s ≡ number (sign n)
unfolding magnitude
magnitude-digits sign limit [] n d e h = absurd d
magnitude-digits sign limit (c ∷ s) n d e h = ground arith

-- A printed number reads back.
pub atoi-print_int : (a : ℤ) → IsInt a → atoi (print_int a) ≡ number a
unfolding print_int
atoi-print_int (pos n) h = atoi-decimal n h
atoi-print_int (negsuc n) h =
    unfold atoi decimal in
    magnitude-digits negate (max_int + 1) (digits (suc (suc n)) (suc n) []) (suc n)
      (digits-StartsDigit (suc (suc n)) (suc n) [] (omega arith))
      (read_digits-digits (suc (suc n)) (suc n) [] (omega arith) ∙ unfold read_digits in refl)
      (omega arith)

-- What a print consists of.
pub all-digits :
    (f n : ℕ) (acc : Text)
    → all is_ascii_digit acc ≡ true
    → all is_ascii_digit (digits f n acc) ≡ true
unfolding digits
all-digits zero n acc h = h
all-digits (suc f) n acc h = ground (arith, all-digits f (n / 10) ((b'0' + n % 10) ∷ acc))

-- A digit or a sign.
abbrev pub is_numeral : ℕ → Bool
is_numeral c = is_ascii_digit c || c == b'-'

all-is_numeral : (s : Text) → all is_ascii_digit s ≡ true → all is_numeral s ≡ true
all-is_numeral [] h = refl
all-is_numeral (c ∷ s) h = ground (arith, all-is_numeral s)

-- Not empty, and all digits or signs.
abbrev pub IsNumeral : Text → Type 0
IsNumeral [] = ⊥
IsNumeral (c ∷ s) = all is_numeral (c ∷ s) ≡ true

digits-IsNumeral : (s : Text) → StartsDigit s → all is_ascii_digit s ≡ true → IsNumeral s
digits-IsNumeral [] d h = d
digits-IsNumeral (c ∷ s) d h = all-is_numeral (c ∷ s) h

decimal-IsNumeral : (n : ℕ) → IsNumeral (decimal n)
unfolding decimal
decimal-IsNumeral n =
    digits-IsNumeral (digits (suc n) n []) (digits-StartsDigit (suc n) n [] (omega arith))
      (all-digits (suc n) n [] refl)

pub IsNumeral-all : (s : Text) → IsNumeral s → all is_numeral s ≡ true
IsNumeral-all [] h = refl
IsNumeral-all (c ∷ s) h = h

pub print_int-IsNumeral : (a : ℤ) → IsNumeral (print_int a)
unfolding print_int
print_int-IsNumeral (pos n) = decimal-IsNumeral n
print_int-IsNumeral (negsuc n) = IsNumeral-all (decimal (suc n)) (decimal-IsNumeral (suc n))

runs : atoi (codes "-120") ≡ number (negsuc 119)
unfolding atoi
runs = refl

runs_print : print_int (negsuc 119) ≡ codes "-120"
unfolding print_int
runs_print = refl
