-- ===== src/Metrics/Registry.antt =====
-- pkg/metrics/metrics.go: the registry. Each method holds the lock for its whole effect.
use drift_sentinel.Base.{ℕ, List, [], ◌∷◌, map, if◌then◌else◌, leb}
use drift_sentinel.Base.Text.{Text, codes}
use drift_sentinel.Metrics.Labels.{Counters, increment, increment_counter, namespace_or_unknown}

-- The operations on `float64` that the sum of the durations needs, on bit patterns: the seconds of a
-- duration, the sum, and the verb %g.
pub record Float64 : Type 0 where
  pub seconds : ℕ → ℕ
  pub add : ℕ → ℕ → ℕ
  pub print : ℕ → Text

-- The bounds of the buckets: nanoseconds, and the text of the bound in seconds. A duration has at most
-- as many seconds as a bound exactly if it has at most as many nanoseconds.
abbrev pub histogram_buckets : List (ℕ × Text)
histogram_buckets =
    (5000000, codes "0.005")
    ∷ (10000000, codes "0.01")
    ∷ (25000000, codes "0.025")
    ∷ (50000000, codes "0.05")
    ∷ (100000000, codes "0.1")
    ∷ (250000000, codes "0.25")
    ∷ (500000000, codes "0.5")
    ∷ (1000000000, codes "1")
    ∷ (2500000000, codes "2.5")
    ∷ (5000000000, codes "5")
    ∷ []

pub record Registry : Type 0 where
  pub admission_requests : Counters
  pub violations : Counters
  pub config_events : Counters
  pub rules_loaded : ℕ
  pub duration_count : ℕ
  pub duration_sum : ℕ
  pub duration_buckets : List ℕ

abbrev pub new_registry : Registry
new_registry = record {
  admission_requests = [];
  violations = [];
  config_events = [];
  rules_loaded = 0;
  duration_count = 0;
  duration_sum = 0;
  duration_buckets = map (λ bucket. 0) histogram_buckets;
}

-- The loop over the buckets, with their counts.
unfoldable pub observe : ℕ → List (ℕ × Text) → List ℕ → List ℕ
observe duration ((bound, text) ∷ buckets) (count ∷ counts) =
    (if leb duration bound then increment count else count) ∷ observe duration buckets counts
observe duration _ counts = counts

unfoldable pub record_admission : ⦃f : Float64⦄ → Registry → Text → Text → Text → ℕ → Registry
unfolding increment_counter namespace_or_unknown observe
record_admission ⦃f⦄ r namespace resource result duration = record r {
  admission_requests = increment_counter r.admission_requests (
      (codes "namespace", namespace_or_unknown namespace)
      ∷ (codes "resource", namespace_or_unknown resource)
      ∷ (codes "result", namespace_or_unknown result)
      ∷ []);
  duration_count = increment r.duration_count;
  duration_sum = f.add r.duration_sum (f.seconds duration);
  duration_buckets = observe duration histogram_buckets r.duration_buckets;
}

unfoldable pub record_violation : Registry → Text → Text → Text → Text → Registry
unfolding increment_counter namespace_or_unknown
record_violation r namespace resource field mode = record r {
  violations = increment_counter r.violations (
      (codes "namespace", namespace_or_unknown namespace)
      ∷ (codes "resource", namespace_or_unknown resource)
      ∷ (codes "field", namespace_or_unknown field)
      ∷ (codes "mode", namespace_or_unknown mode)
      ∷ []);
}

unfoldable pub record_config_event : Registry → Text → Registry
unfolding increment_counter namespace_or_unknown
record_config_event r event_type = record r {
  config_events =
      increment_counter r.config_events
        ((codes "event_type", namespace_or_unknown event_type) ∷ []);
}

unfoldable pub set_rules_loaded : Registry → ℕ → Registry
set_rules_loaded r count = record r { rules_loaded = count }
