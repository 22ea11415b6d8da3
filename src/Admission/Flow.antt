-- ===== src/Admission/Flow.antt =====
-- pkg/admission/validator.go: the validator, the steps of `Validate` as a flow that a decision stops,
-- and the decoding of objects.
use drift_sentinel.Base.{ℕ, Bool, true, false, [], Option, none, some, if◌then◌else◌}
use drift_sentinel.Base.Text.{Text, codes, text_eq}
use drift_sentinel.Base.Result.{Result, ok, err, out_of_fuel}
use drift_sentinel.Rules.Types.{Rule, Mode, mode_off, Resolved}
use drift_sentinel.Rules.Store.{Store, new_store}
use drift_sentinel.Diff.Value.{Fields, end}
use drift_sentinel.Admission.Review.{Decision, empty_decision}

-- The outcome of `json.Unmarshal` into a map: an error, `null`, or a map.
pub data Unmarshalled : Type 0 where
  malformed : Text → Unmarshalled
  nothing : Unmarshalled
  decoded : Fields → Unmarshalled

pub record Validator : Type 0 where
  pub store : Store
  pub resolver : Option (Text → Resolved)

unfoldable pub new_validator : Option Store → Option (Text → Resolved) → Validator
new_validator none resolver = record { store = new_store; resolver = resolver }
new_validator (some store) resolver = record { store = store; resolver = resolver }

pub data Flow {ℓ} (A : Type ℓ) : Type ℓ where
  go : A → Flow A
  stop : Decision → Flow A

infixl 5 ◌>>=◌ ◌>>◌
abbrev pub ◌>>=◌ {ℓ κ} : {A : Type ℓ} {B : Type κ} → Flow A → (A → Flow B) → Flow B
go a >>= f = f a
stop d >>= f = stop d

abbrev pub ◌>>◌ {ℓ} : {B : Type ℓ} → Flow (Unit {0}) → Flow B → Flow B
m >> k = m >>= λ _. k

-- `if test { return d }`.
abbrev pub stop_if : Bool → Decision → Flow (Unit {0})
stop_if true d = stop d
stop_if false d = go tt

abbrev pub run : Flow Decision → Decision
run (go d) = d
run (stop d) = d

abbrev pub allow : Text → Text → Mode → Decision
allow reason rule_name mode = record empty_decision {
  allowed = true;
  reason = reason;
  result = codes "allowed";
  rule_name = rule_name;
  mode = mode;
}

abbrev pub error_decision : Option Rule → ℕ → Text → Decision
error_decision none code reason = record empty_decision {
  status_code = code;
  reason = reason;
  result = codes "denied";
  mode = mode_off;
}
error_decision (some rule) code reason = record empty_decision {
  status_code = code;
  reason = reason;
  result = codes "denied";
  rule_name = rule.name;
  mode = rule.mode;
}

-- `if err != nil { return … }`. `out_of_fuel` belongs to the model only.
abbrev pub or_stop {ℓ} : {A : Type ℓ} → (Text → Decision) → Result A → Flow A
or_stop f (ok a) = go a
or_stop f (err e) = stop (f e)
or_stop f out_of_fuel = stop (f [])

abbrev pub map_or_stop : (Text → Decision) → Unmarshalled → Flow Fields
map_or_stop f (malformed e) = stop (f e)
map_or_stop f nothing = go end
map_or_stop f (decoded fs) = go fs

unfoldable pub decode_object : (Text → Unmarshalled) → (Text → Decision) → Text → Flow Fields
decode_object unmarshal f raw = if text_eq raw [] then go end else map_or_stop f (unmarshal raw)
