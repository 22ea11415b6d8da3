-- ===== src/Diff/Value.antt =====
-- pkg/diff/diff.go: decoded objects (Go's `any`), `cloneValue` and `valuesEqual`.
use drift_sentinel.Base.{
  ℕ, zero, suc, ◌-◌, ◌*◌, ◌/◌, ◌%◌, ◌≡◌, refl, Bool, true, false, not, ◌&&◌, ◌||◌, Option, none,
  some, if◌then◌else◌, ◌==◌,
}
use drift_sentinel.Base.Text.{Text, text_eq}
use drift_sentinel.Base.Number.{ℤ, int_eq}

-- The integer types that `valuesEqual` tells apart.
pub data IntKind : Type 0 where
  int int8 int16 int32 int64 uint uint8 uint16 uint32 uint64 : IntKind

abbrev pub kind_eq : IntKind → IntKind → Bool
kind_eq int int = true
kind_eq int8 int8 = true
kind_eq int16 int16 = true
kind_eq int32 int32 = true
kind_eq int64 int64 = true
kind_eq uint uint = true
kind_eq uint8 uint8 = true
kind_eq uint16 uint16 = true
kind_eq uint32 uint32 = true
kind_eq uint64 uint64 = true
kind_eq _ _ = false

-- The values that are neither maps nor lists. Floats are their IEEE 754 bit patterns.
pub data Scalar : Type 0 where
  null : Scalar
  bool : Bool → Scalar
  string : Text → Scalar
  float64 : ℕ → Scalar
  float32 : ℕ → Scalar
  integer : IntKind → ℤ → Scalar

-- A map is the list of its entries in the order of some iteration.
mutual
  pub data Value : Type 0 where
    scalar : Scalar → Value
    list : Items → Value
    object : Fields → Value

  pub data Items : Type 0 where
    nil : Items
    cons : Value → Items → Items

  pub data Fields : Type 0 where
    end : Fields
    entry : Text → Value → Fields → Fields

-- `==` on floats of `e` exponent and `m` mantissa bits, below the sign: NaN equals nothing, and the
-- two zeros are equal.
is_nan : ℕ → ℕ → ℕ → Bool
is_nan exponents mantissas bits =
    (bits / mantissas) % exponents == exponents - 1 && not (bits % mantissas == 0)

float_eq : ℕ → ℕ → ℕ → ℕ → Bool
float_eq exponents mantissas a b =
    not (is_nan exponents mantissas a)
    && not (is_nan exponents mantissas b)
    && (a == b || (a % (exponents * mantissas) == 0 && b % (exponents * mantissas) == 0))

float64_eq : ℕ → ℕ → Bool
float64_eq = float_eq 2048 4503599627370496

float32_eq : ℕ → ℕ → Bool
float32_eq = float_eq 256 8388608

unfoldable pub values_equal : Scalar → Scalar → Bool
unfolding float64_eq float32_eq float_eq is_nan
values_equal (string s) (string t) = text_eq s t
values_equal (bool true) (bool b) = b
values_equal (bool false) (bool b) = not b
values_equal null null = true
values_equal (float64 a) (float64 b) = float64_eq a b
values_equal (float32 a) (float32 b) = float32_eq a b
values_equal (integer k a) (integer l b) = kind_eq k l && int_eq a b
values_equal _ _ = false

unfoldable pub lookup : Text → Fields → Option Value
lookup k end = none
lookup k (entry j v fs) = if text_eq j k then some v else lookup k fs

unfoldable pub item_at : ℕ → Items → Option Value
item_at i nil = none
item_at zero (cons v xs) = some v
item_at (suc i) (cons v xs) = item_at i xs

unfoldable mutual
  pub clone_value : Value → Value
  clone_value (object fs) = object (clone_fields fs)
  clone_value (list xs) = list (clone_items xs)
  clone_value (scalar s) = scalar s

  pub clone_items : Items → Items
  clone_items nil = nil
  clone_items (cons v xs) = cons (clone_value v) (clone_items xs)

  pub clone_fields : Fields → Fields
  clone_fields end = end
  clone_fields (entry k v fs) = entry k (clone_value v) (clone_fields fs)

mutual
  unfolding clone_value

  clone-eq : (v : Value) → clone_value v ≡ v
  clone-eq (scalar s) = refl
  clone-eq (list xs) = rw (clone_items-eq xs)
  clone-eq (object fs) = rw (clone_fields-eq fs)

  clone_items-eq : (xs : Items) → clone_items xs ≡ xs
  clone_items-eq nil = refl
  clone_items-eq (cons v xs) = rw (clone-eq v, clone_items-eq xs)

  clone_fields-eq : (fs : Fields) → clone_fields fs ≡ fs
  clone_fields-eq end = refl
  clone_fields-eq (entry k v fs) = rw (clone-eq v, clone_fields-eq fs)

-- A clone holds the same data: what the program gains by it is that nothing is shared.
pub clone_value-eq : (v : Value) → clone_value v ≡ v
clone_value-eq v = clone-eq v

-- A Go map has each key once, and so have the maps inside it.
abbrev mutual
  pub WellFormed : Value → Type 0
  WellFormed (scalar s) = Unit
  WellFormed (list xs) = WellFormedItems xs
  WellFormed (object fs) = WellFormedFields fs

  pub WellFormedItems : Items → Type 0
  WellFormedItems nil = Unit
  WellFormedItems (cons v xs) = WellFormed v × WellFormedItems xs

  pub WellFormedFields : Fields → Type 0
  WellFormedFields end = Unit
  WellFormedFields (entry key v fs) = (lookup key fs ≡ none) × WellFormed v × WellFormedFields fs
