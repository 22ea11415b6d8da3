-- ===== src/Admission/Validator/Selected.antt =====
-- Which requests `Validate` judges.
use drift_sentinel.Base.{Bool, true, false, not, ◌&&◌, [], Option, none, some, is_empty, ◌≡◌, refl}
use mathlib.Core.Path.{subst}
use drift_sentinel.Base.Text.{Text, codes, Unicode, text_eq}
use drift_sentinel.Base.Result.{Result, ok, err, out_of_fuel}
use drift_sentinel.Rules.Matcher.{store_match}
use drift_sentinel.Rules.Types.{Rule}
use drift_sentinel.Diff.Value.{Fields}
use drift_sentinel.Admission.Review.{AdmissionRequest, Decision}
use drift_sentinel.Admission.Object.{has_true_annotation, contains_string}
use drift_sentinel.Admission.Validator.{
  rule_or_stop, check_operation, decode_old, decode_new, input_of, check_users, check_bypass,
  select,
}
use drift_sentinel.Admission.Flow.{Unmarshalled, Validator, Flow, go, stop, ◌>>=◌, stop_if, or_stop}

-- A flow that goes on with a value did so at each step.
bind-inv {ℓ κ} :
    {A : Type ℓ} {B : Type κ} (m : Flow A) (f : A → Flow B) (b : B)
    → (m >>= f) ≡ go b
    → (a : A) × (m ≡ go a) × (f a ≡ go b)
bind-inv (go a) f b h = (a, refl, h)
bind-inv (stop d) f b h = cc

pub stop_if-inv : (b : Bool) (d : Decision) → stop_if b d ≡ go tt → b ≡ false
stop_if-inv true d h = cc
stop_if-inv false d h = refl

rule_or_stop-inv : (r : Option Rule) (rule : Rule) → rule_or_stop r ≡ go rule → r ≡ some rule
rule_or_stop-inv none rule h = cc
rule_or_stop-inv (some r) rule h = cc

pub or_stop-inv {ℓ} :
    {A : Type ℓ} (f : Text → Decision) (r : Result A) (a : A) → or_stop f r ≡ go a → r ≡ ok a
or_stop-inv f (ok b) a h = cc
or_stop-inv f (err e) a h = cc
or_stop-inv f out_of_fuel a h = cc

module _ ⦃u : Unicode⦄ where
  -- The request is an update or names no operation, the two objects are its decoded objects, the rule
  -- is the store's match for it and covers its user, and the new object has no bypass annotation.
  abbrev pub IsSelected :
      (Text → Unmarshalled) → Validator → AdmissionRequest → Fields × Fields × Rule → Type 0
  IsSelected unmarshal v req (old, new, rule) =
      ((not (text_eq req.operation []) && not (text_eq req.operation (codes "UPDATE"))) ≡ false)
      × (decode_old unmarshal req ≡ go old)
      × (decode_new unmarshal req ≡ go new)
      × (store_match v.store (input_of req new) ≡ some rule)
      × ((not (is_empty rule.users) && not (contains_string rule.users req.user_info.username))
          ≡ false)
      × (has_true_annotation new rule.bypass ≡ false)

  pub select-inv :
      (unmarshal : Text → Unmarshalled) (v : Validator) (req : AdmissionRequest)
      (t : Fields × Fields × Rule)
      → select unmarshal v req ≡ go t
      → IsSelected unmarshal v req t
  unfolding select
  select-inv unmarshal v req t h =
      let (_, a, h) = bind-inv (check_operation req) _ t h in
      let (old, b, h) = bind-inv (decode_old unmarshal req) _ t h in
      let (new, c, h) = bind-inv (decode_new unmarshal req) _ t h in
      let (rule, d, h) = bind-inv (rule_or_stop (store_match v.store (input_of req new))) _ t h in
      let (_, e, h) = bind-inv (check_users req rule) _ t h in
      let (_, f, h) = bind-inv (check_bypass new rule) _ t h in
      let same : (old, new, rule) ≡ t = cc in
      subst (IsSelected unmarshal v req) same
        (stop_if-inv _ _ a, b, c, rule_or_stop-inv _ rule d, stop_if-inv _ _ e, stop_if-inv _ _ f)
