-- ===== src/Metrics/Counters.antt =====
-- The counters: which sample a label set is counted in.
pub mod Keys
use drift_sentinel.Base.{
  ℕ, ◌+◌, ◌%◌, false, List, [], ◌∷◌, Option, none, some, if◌then◌else◌, ◌≡◌, refl, ap, ◌∙◌, arith,
  Bool-cases, inl, inr,
}
use native.Mathlib.Nat.{zero-add}
use drift_sentinel.Base.Text.{Text, text_eq, text_eq_refl, text_eq_iff}
use drift_sentinel.Base.Assoc.{find}
use drift_sentinel.Rules.Types.{TextMap}
use drift_sentinel.Metrics.Histogram.{bit, increment-bit}
use drift_sentinel.Metrics.Labels.{
  Counters, CounterSample, increment, increment_at, increment_counter, label_key, uint64_size,
}
use drift_sentinel.Metrics.Registry.{Registry, new_registry, record_violation}
pub use Keys.{
  Violation, violation_labels, same_labels, IsPlain, ArePlain, count_same, violation_key,
  violation_key-eq,
}

abbrev pub sample_value : Option CounterSample → ℕ
sample_value none = 0
sample_value (some sample) = sample.value

-- The count under a key.
abbrev pub value_at : Text → Counters → ℕ
value_at key counters = sample_value (find key counters)

-- Equal to one and not to the other.
text_eq-other : (k key j : Text) → k ≡ key → text_eq k j ≡ false → text_eq j key ≡ false
text_eq-other k key j same other = elim (Bool-cases (text_eq j key)) [
  | inl e ↦ let equal : j ≡ key = (text_eq_iff j key).0 e in let reflexive = text_eq_refl key in cc
  | inr e ↦ e
]

value_at-increment_at :
    (key j : Text) (labels : TextMap) (counters : Counters)
    → value_at key (increment_at counters j labels)
      ≡ (if text_eq j key then increment (value_at key counters) else value_at key counters)
unfolding increment_at find
value_at-increment_at key j labels [] = elim (Bool-cases (text_eq j key)) [
  | inl e ↦ rw e
  | inr e ↦ rw e
]
value_at-increment_at key j labels ((k, sample) ∷ counters) = elim (Bool-cases (text_eq k j)) [
  | inl e ↦
      let same : k ≡ j = (text_eq_iff k j).0 e in
      rw (e, same) (elim (Bool-cases (text_eq j key)) [ inl d ↦ rw d | inr d ↦ rw d ])
  | inr e ↦ rw e (elim (Bool-cases (text_eq k key)) [
    | inl d ↦ let other = text_eq-other k key j ((text_eq_iff k key).0 d) e in rw (d, other)
    | inr d ↦ rw d (value_at-increment_at key j labels counters)
  ])
]

abbrev pub record_violations : Registry → List Violation → Registry
record_violations r [] = r
record_violations r (v ∷ vs) =
    record_violations (record_violation r v.namespace v.resource v.field v.mode) vs

-- The counter of the violations with the labels of that one.
abbrev pub violation_count : Violation → Registry → ℕ
violation_count v r = value_at (label_key (violation_labels v)) r.violations

violation_count-step :
    (r : Registry) (v w : Violation) (n : ℕ)
    → IsPlain v
    → IsPlain w
    → violation_count w r ≡ n % uint64_size
    → violation_count w (record_violation r v.namespace v.resource v.field v.mode)
      ≡ (n + bit (same_labels v w)) % uint64_size
unfolding record_violation increment_counter violation_labels
violation_count-step r v w n h k e =
    value_at-increment_at (violation_key w) (violation_key v) (violation_labels v) r.violations
    ∙ rw (violation_key-eq v w h k, e) (increment-bit (same_labels v w) n)

violation_count-record_violations :
    (vs : List Violation) (r : Registry) (w : Violation) (n : ℕ)
    → IsPlain w
    → ArePlain vs
    → violation_count w r ≡ n % uint64_size
    → violation_count w (record_violations r vs) ≡ (n + count_same w vs) % uint64_size
violation_count-record_violations [] r w n h k e = omega arith
violation_count-record_violations (v ∷ vs) r w n h k e =
    let rest =
      violation_count-record_violations vs
        (record_violation r v.namespace v.resource v.field v.mode) w (n + bit (same_labels v w)) h
        k.1 (violation_count-step r v w n k.0 h e) in
    omega arith

-- After any calls of `RecordViolation` on a new registry, the counter that the labels of a violation
-- name is the number of the calls with the same four labels, modulo 2^64: distinct labels never
-- share a counter. The namespaces, resources and modes have no comma; the fields can have some.
pub record_violations-counts :
    (vs : List Violation) (w : Violation)
    → IsPlain w
    → ArePlain vs
    → violation_count w (record_violations new_registry vs) ≡ count_same w vs % uint64_size
record_violations-counts vs w h k =
    let counted = violation_count-record_violations vs new_registry w 0 h k (unfold find in refl) in
    counted ∙ ap (λ n. n % uint64_size) (zero-add (count_same w vs))
