-- ===== src/Metrics/Histogram.antt =====
-- The histogram of the durations.
use drift_sentinel.Base.{
  ℕ, zero, suc, ◌+◌, ◌*◌, ◌%◌, ◌≤◌, ◌<◌, Bool, true, false, List, [], ◌∷◌, map, if◌then◌else◌, leb,
  length, all, ◌≡◌, refl, ap, ◌∙◌, arith,
}
use native.Mathlib.Nat.{zero-add}
use drift_sentinel.Base.Text.{Text}
use drift_sentinel.Metrics.Labels.{increment, uint64_size}
use drift_sentinel.Metrics.Registry.{
  Registry, Float64, new_registry, histogram_buckets, observe, record_admission,
}
use drift_sentinel.Metrics.Render.{cumulative_counts}

-- The arguments of one call of `RecordAdmission`.
pub record Observation : Type 0 where
  pub namespace : Text
  pub resource : Text
  pub result : Text
  pub duration : ℕ

-- The calls one after the other.
abbrev pub record_all : ⦃f : Float64⦄ → Registry → List Observation → Registry
record_all r [] = r
record_all r (o ∷ os) =
    record_all (record_admission r o.namespace o.resource o.result o.duration) os

abbrev pub bit : Bool → ℕ
bit true = 1
bit false = 0

-- How many observations take at most that long.
abbrev pub count_within : List Observation → ℕ → ℕ
count_within [] bound = 0
count_within (o ∷ os) bound = bit (leb o.duration bound) + count_within os bound

abbrev bucket_counts : (ℕ → ℕ) → List (ℕ × Text) → List ℕ
bucket_counts n = map (λ bucket. n bucket.0 % uint64_size)

pub increment-bit :
    (b : Bool) (n : ℕ)
    → (if b then increment (n % uint64_size) else n % uint64_size) ≡ (n + bit b) % uint64_size
increment-bit true n = omega arith
increment-bit false n = omega arith

observe-bucket_counts :
    (duration : ℕ) (buckets : List (ℕ × Text)) (n : ℕ → ℕ)
    → observe duration buckets (bucket_counts n buckets)
      ≡ bucket_counts (λ bound. n bound + bit (leb duration bound)) buckets
unfolding observe
observe-bucket_counts duration [] n = refl
observe-bucket_counts duration ((bound, text) ∷ buckets) n =
    rw (increment-bit (leb duration bound) (n bound), observe-bucket_counts duration buckets n)

bucket_counts-ext :
    (n k : ℕ → ℕ) (buckets : List (ℕ × Text))
    → ((bound : ℕ) → n bound ≡ k bound)
    → bucket_counts n buckets ≡ bucket_counts k buckets
bucket_counts-ext n k [] h = refl
bucket_counts-ext n k ((bound, text) ∷ buckets) h = rw (h bound, bucket_counts-ext n k buckets h)

module _ ⦃f : Float64⦄ where
  record_admission-buckets :
      (r : Registry) (o : Observation) (n : ℕ → ℕ)
      → r.duration_buckets ≡ bucket_counts n histogram_buckets
      → (record_admission r o.namespace o.resource o.result o.duration).duration_buckets
        ≡ bucket_counts (λ bound. n bound + bit (leb o.duration bound)) histogram_buckets
  unfolding record_admission
  record_admission-buckets r o n h =
      ap (observe o.duration histogram_buckets) h
      ∙ observe-bucket_counts o.duration histogram_buckets n

  record_all-buckets :
      (os : List Observation) (r : Registry) (n : ℕ → ℕ)
      → r.duration_buckets ≡ bucket_counts n histogram_buckets
      → (record_all r os).duration_buckets
        ≡ bucket_counts (λ bound. n bound + count_within os bound) histogram_buckets
  record_all-buckets [] r n h =
      h ∙ bucket_counts-ext n (λ bound. n bound + 0) histogram_buckets (λ bound. omega arith)
  record_all-buckets (o ∷ os) r n h =
      record_all-buckets os (record_admission r o.namespace o.resource o.result o.duration)
        (λ bound. n bound + bit (leb o.duration bound)) (record_admission-buckets r o n h)
      ∙ bucket_counts-ext (λ bound. n bound + bit (leb o.duration bound) + count_within os bound)
          (λ bound. n bound + count_within (o ∷ os) bound) histogram_buckets (λ bound. omega arith)

  record_admission-count :
      (r : Registry) (o : Observation)
      → (record_admission r o.namespace o.resource o.result o.duration).duration_count
        ≡ increment r.duration_count
  unfolding record_admission
  record_admission-count r o = refl

  record_all-count :
      (os : List Observation) (r : Registry) (n : ℕ)
      → r.duration_count ≡ n % uint64_size
      → (record_all r os).duration_count ≡ (n + length os) % uint64_size
  record_all-count [] r n h = omega arith
  record_all-count (o ∷ os) r n h =
      let rest =
        record_all-count os (record_admission r o.namespace o.resource o.result o.duration) (n + 1)
          (omega (arith, record_admission-count r o)) in
      omega arith

  -- After any calls of `RecordAdmission` on a new registry, the counter of each bucket is the number of
  -- calls whose duration is at most its bound, and the counter of all is the number of calls, both
  -- modulo 2^64.
  pub record_all-histogram :
      (os : List Observation)
      → ((record_all new_registry os).duration_buckets
          ≡ map (λ bucket. count_within os bucket.0 % uint64_size) histogram_buckets)
        × ((record_all new_registry os).duration_count ≡ length os % uint64_size)
  record_all-histogram os = (
    record_all-buckets os new_registry (λ _. 0) refl
        ∙ bucket_counts-ext (λ bound. 0 + count_within os bound) (count_within os) histogram_buckets
            (λ bound. omega arith),
    record_all-count os new_registry 0 refl ∙ ap (λ n. n % uint64_size) (zero-add (length os)),
  )

-- Each call took at most 5 ms, the bound of the first bucket.
abbrev pub AreFast : List Observation → Type 0
AreFast [] = Unit
AreFast (o ∷ os) = (o.duration ≤ 5000000) × AreFast os

count_within-fast :
    (os : List Observation) (bound : ℕ)
    → 5000000 ≤ bound
    → AreFast os
    → count_within os bound ≡ length os
count_within-fast [] bound l h = refl
count_within-fast (o ∷ os) bound l h = ground (arith, count_within-fast os bound l h.1)

-- `total + n`, `total + 2 * n` and so on, `k` of them.
abbrev pub multiples : ℕ → ℕ → ℕ → List ℕ
multiples n total zero = []
multiples n total (suc k) = (total + n) ∷ multiples n (total + n) k

abbrev repeat : ℕ → ℕ → List ℕ
repeat n zero = []
repeat n (suc k) = n ∷ repeat n k

abbrev Fits : ℕ → ℕ → ℕ → Type 0
Fits n total zero = Unit
Fits n total (suc k) = (total + n < uint64_size) × Fits n (total + n) k

cumulative_counts-repeat :
    (n total k : ℕ) → Fits n total k → cumulative_counts total (repeat n k) ≡ multiples n total k
unfolding cumulative_counts
cumulative_counts-repeat n total zero h = refl
cumulative_counts-repeat n total (suc k) h =
    let whole : (total + n) % uint64_size ≡ total + n = omega (arith, h.0) in
    rw (whole, cumulative_counts-repeat n (total + n) k h.1)

-- All of the buckets hold that many.
abbrev HoldAll : ℕ → List Observation → List (ℕ × Text) → Type 0
HoldAll n os [] = Unit
HoldAll n os (bucket ∷ buckets) = (count_within os bucket.0 ≡ n) × HoldAll n os buckets

bucket_counts-repeat :
    (n : ℕ) (os : List Observation) (buckets : List (ℕ × Text))
    → n < uint64_size
    → HoldAll n os buckets
    → bucket_counts (count_within os) buckets ≡ repeat n (length buckets)
bucket_counts-repeat n os [] l h = refl
bucket_counts-repeat n os ((bound, text) ∷ buckets) l h =
    let whole : count_within os bound % uint64_size ≡ n = omega (arith, h.0) in
    rw (whole, bucket_counts-repeat n os buckets l h.1)

HoldAll-fast :
    (os : List Observation) (buckets : List (ℕ × Text))
    → AreFast os
    → all (λ bucket. leb 5000000 bucket.0) buckets ≡ true
    → HoldAll (length os) os buckets
HoldAll-fast os [] fast h = tt
HoldAll-fast os ((bound, text) ∷ buckets) fast h =
    (count_within-fast os bound (ground arith) fast, HoldAll-fast os buckets fast (ground arith))

-- After `n` calls of `RecordAdmission` on a new registry, each with a duration of at most 5 ms, the
-- totals that the text of the registry has for the ten buckets are n, 2n and so on up to 10n. Ten times
-- the calls are fewer than 2^64.
pub cumulative_counts-fast :
    ⦃f : Float64⦄ (os : List Observation)
    → AreFast os
    → 10 * length os < uint64_size
    → cumulative_counts 0 (record_all new_registry os).duration_buckets ≡ multiples (length os) 0 10
cumulative_counts-fast os fast small =
    ap (cumulative_counts 0) (
      (record_all-histogram os).0
      ∙ bucket_counts-repeat (length os) os histogram_buckets (omega arith)
          (HoldAll-fast os histogram_buckets fast refl))
    ∙ cumulative_counts-repeat (length os) 0 10 (omega arith)
