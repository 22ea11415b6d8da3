-- ===== src/Tests/Metrics.antt =====
-- pkg/metrics at concrete calls.
use drift_sentinel.Base.{ℕ, ◌+◌, ◌%◌, [], ◌∷◌, map, all, true, length, ◌↔◌, ◌++◌, ◌≡◌, refl, arith}
use drift_sentinel.Base.Text.{codes, join, text_eq}
use drift_sentinel.Base.Sort.{sort}
use drift_sentinel.Base.Assoc.{find}
use drift_sentinel.Base.Number.{decimal}
use drift_sentinel.Metrics.Labels.{
  uint64_size, namespace_or_unknown, format_labels, sorted_names, escape_label_value,
}
use drift_sentinel.Metrics.Registry.{Float64, new_registry, histogram_buckets}
use drift_sentinel.Metrics.Histogram.{
  Observation, record_all, count_within, multiples, record_all-histogram, cumulative_counts-fast,
}
use drift_sentinel.Metrics.Render.{cumulative_counts}
use drift_sentinel.Metrics.Counters.{
  Violation, record_violations, record_violations-counts, violation_count, count_same,
}
use drift_sentinel.Metrics.Labels.Escape.{is_unescaped, format_labels-quote}
use drift_sentinel.Base.Quote.{quote}
use drift_sentinel.Tests.{ascii}

-- Numbers in the place of floats.
instance abbrev pub whole : Float64
whole = record { seconds = λ n. n; add = λ a b. a + b; print = decimal }

abbrev taking : ℕ → Observation
taking duration = record {
  namespace = codes "prod";
  resource = codes "apps/v1/deployments";
  result = codes "allowed";
  duration = duration;
}

record_all-histogram_example :
    ((record_all new_registry (taking 4000000 ∷ taking 20000000 ∷ [])).duration_buckets
      ≡ map
          (λ bucket. count_within (taking 4000000 ∷ taking 20000000 ∷ []) bucket.0 % uint64_size)
          histogram_buckets)
    × ((record_all new_registry (taking 4000000 ∷ taking 20000000 ∷ [])).duration_count
        ≡ length (taking 4000000 ∷ taking 20000000 ∷ []) % uint64_size)
record_all-histogram_example = record_all-histogram (taking 4000000 ∷ taking 20000000 ∷ [])

cumulative_counts-fast_example :
    cumulative_counts 0
      (record_all new_registry (taking 4000000 ∷ taking 3000000 ∷ [])).duration_buckets
    ≡ multiples 2 0 10
cumulative_counts-fast_example =
    cumulative_counts-fast (taking 4000000 ∷ taking 3000000 ∷ []) (omega arith) (omega arith)

abbrev pub on_path : Violation
on_path = record {
  namespace = codes "prod";
  resource = codes "apps/v1/deployments";
  field = codes "spec.a, b";
  mode = codes "enforce";
}

abbrev elsewhere : Violation
elsewhere = record on_path { namespace = [] }

record_violations-counts_example :
    violation_count on_path (record_violations new_registry (on_path ∷ elsewhere ∷ on_path ∷ []))
    ≡ count_same on_path (on_path ∷ elsewhere ∷ on_path ∷ []) % uint64_size
unfolding namespace_or_unknown
record_violations-counts_example =
    record_violations-counts (on_path ∷ elsewhere ∷ on_path ∷ []) on_path (refl, refl, refl)
      ((refl, refl, refl), ((refl, refl, refl), ((refl, refl, refl), tt)))

runs_format_labels :
    format_labels ((codes "field", codes "a\"b") ∷ []) ≡ codes "field=" ++ codes "\"a\\\\\\\"b\""
unfolding format_labels sorted_names sort find join quote escape_label_value text_eq
runs_format_labels = refl

format_labels-quote_example :
    (format_labels ((codes "field", codes "a\"b") ∷ [])
      ≡ codes "field" ++ b'=' ∷ quote (codes "a\"b"))
    ↔ (all is_unescaped (codes "a\"b") ≡ true)
format_labels-quote_example = format_labels-quote (codes "field") (codes "a\"b")
