-- ===== src/Base/Result.antt =====
-- A value with Go's `error`, seen through its message. `out_of_fuel` belongs to the model only.
use mathlib.Core.Path.{◌≡◌, subst}
use mathlib.Core.Bool.{Bool, true, false}
use drift_sentinel.Base.Tests.{if◌then◌else◌}
use drift_sentinel.Base.Text.{Text}

pub data Result {ℓ} (A : Type ℓ) : Type ℓ where
  ok : A → Result A
  err : Text → Result A
  out_of_fuel : Result A

infixl 5 ◌>>=◌
abbrev pub ◌>>=◌ {ℓ κ} : {A : Type ℓ} {B : Type κ} → Result A → (A → Result B) → Result B
ok a >>= f = f a
err e >>= f = err e
out_of_fuel >>= f = out_of_fuel

-- `fmt.Errorf("…: %w", err)`: the message with a prefix.
abbrev pub wrap {ℓ} : {A : Type ℓ} → (Text → Text) → Result A → Result A
wrap f (ok a) = ok a
wrap f (err e) = err (f e)
wrap f out_of_fuel = out_of_fuel

-- The call ended within its fuel.
abbrev pub Ends {ℓ} : {A : Type ℓ} → Result A → Type 0
Ends (ok a) = Unit
Ends (err e) = Unit
Ends out_of_fuel = ⊥

-- The call ended within its fuel, and a value that it gave has the property.
pub data Delivers {ℓ} {A : Type ℓ} (P : A → Type 0) : Result A → Type ℓ where
  delivers : {a : A} → P a → Delivers P (ok a)
  fails : {e : Text} → Delivers P (err e)

pub Delivers-bind {ℓ κ} :
    {A : Type ℓ} {B : Type κ} {P : A → Type 0} {Q : B → Type 0} {m : Result A} {f : A → Result B}
    → Delivers P m
    → ((a : A) → P a → Delivers Q (f a))
    → Delivers Q (m >>= f)
Delivers-bind (delivers h) k = k _ h
Delivers-bind fails k = fails

pub Delivers-wrap {ℓ} :
    {A : Type ℓ} {P : A → Type 0} {m : Result A} (f : Text → Text)
    → Delivers P m
    → Delivers P (wrap f m)
Delivers-wrap f (delivers h) = delivers h
Delivers-wrap f fails = fails

pub Delivers-if {ℓ} :
    {A : Type ℓ} {P : A → Type 0} {m n : Result A} (b : Bool)
    → Delivers P m
    → Delivers P n
    → Delivers P (if b then m else n)
Delivers-if true h k = h
Delivers-if false h k = k

pub Delivers-map {ℓ} :
    {A : Type ℓ} {P Q : A → Type 0} {m : Result A}
    → ((a : A) → P a → Q a)
    → Delivers P m
    → Delivers Q m
Delivers-map f (delivers h) = delivers (f _ h)
Delivers-map f fails = fails

-- No condition on the value.
abbrev pub Any {ℓ} : {A : Type ℓ} → A → Type 0
Any a = Unit

pub ruleset delivers_rules = (delivers, fails, Delivers-bind, Delivers-wrap, Delivers-if)

-- A value that the call gave has the property.
pub Delivers-ok {ℓ} :
    {A : Type ℓ} (P : A → Type 0) (m : Result A) (a : A) → Delivers P m → m ≡ ok a → P a
Delivers-ok P (ok b) a (delivers h) e = let same : b ≡ a = cc in subst P same h
Delivers-ok P (err e') a h e = cc
Delivers-ok P out_of_fuel a h e = cc
