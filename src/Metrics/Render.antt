-- ===== src/Metrics/Render.antt =====
-- pkg/metrics/metrics.go: the text of the registry.
use drift_sentinel.Base.{
  ℕ, ◌+◌, ◌%◌, List, [], ◌∷◌, ◌++◌, map, Option, none, some, if◌then◌else◌, is_empty,
}
use drift_sentinel.Base.Text.{Text, Unicode, codes, text_ltb, join}
use drift_sentinel.Base.Assoc.{find}
use drift_sentinel.Base.Number.{decimal}
use drift_sentinel.Base.Quote.{quote}
use drift_sentinel.Base.Sort.{sort}
use drift_sentinel.Http.{Response}
use drift_sentinel.Metrics.Labels.{Counters, CounterSample, format_labels, uint64_size}
use drift_sentinel.Metrics.Registry.{Registry, Float64, histogram_buckets}

abbrev pub line : Text → Text
line text = text ++ 10 ∷ []

abbrev pub duration_metric : Text
duration_metric = codes "drift_sentinel_admission_duration_seconds"

-- The running total of the loop over the buckets.
unfoldable pub cumulative_counts : ℕ → List ℕ → List ℕ
cumulative_counts total [] = []
cumulative_counts total (count ∷ counts) =
    let next = (total + count) % uint64_size in next ∷ cumulative_counts next counts

module _ ⦃u : Unicode⦄ where
  abbrev sample_labels : CounterSample → Text
  sample_labels sample =
      if is_empty sample.labels then [] else b'{' ∷ (format_labels sample.labels ++ b'}' ∷ [])

  abbrev sample_line : Text → Option CounterSample → Text
  sample_line name none = []
  sample_line name (some sample) =
      line (name ++ (sample_labels sample ++ b' ' ∷ decimal sample.value))

  abbrev concat : List Text → Text
  concat texts = join [] texts

  unfoldable pub write_counter_metric : Text → Text → Counters → Text
  unfolding find join decimal format_labels
  write_counter_metric name help samples =
      line (codes "# HELP " ++ (name ++ b' ' ∷ help))
      ++ (line (codes "# TYPE " ++ (name ++ codes " counter"))
          ++ concat (
              map (λ key. sample_line name (find key samples))
                (sort text_ltb (map (λ entry. entry.0) samples))))

  bucket_line : Text → ℕ → Text
  bucket_line bound count =
      line
        (duration_metric ++ (codes "_bucket{le=" ++ (quote bound ++ (codes "} " ++ decimal count))))

  bucket_lines : List (ℕ × Text) → List ℕ → Text
  unfolding bucket_line
  bucket_lines ((bound, text) ∷ buckets) (count ∷ counts) =
      bucket_line text count ++ bucket_lines buckets counts
  bucket_lines _ _ = []

  unfoldable pub render : ⦃f : Float64⦄ → Registry → Text
  unfolding write_counter_metric bucket_lines bucket_line cumulative_counts decimal
  render ⦃f⦄ r =
      write_counter_metric (codes "drift_sentinel_admission_requests_total")
        (codes "Total admission requests processed.") r.admission_requests
      ++ (write_counter_metric (codes "drift_sentinel_violations_total")
            (codes "Total immutable field violations detected.") r.violations
          ++ (line (
                codes "# HELP "
                ++ (duration_metric ++ codes " Admission request processing latency."))
              ++ (line (codes "# TYPE " ++ (duration_metric ++ codes " histogram"))
                  ++ (bucket_lines histogram_buckets (cumulative_counts 0 r.duration_buckets)
                      ++ (bucket_line (codes "+Inf") r.duration_count
                          ++ (line (duration_metric ++ (codes "_sum " ++ f.print r.duration_sum))
                              ++ (line (
                                    duration_metric
                                    ++ (codes "_count " ++ decimal r.duration_count))
                                  ++ (line (
                                        codes
                                          "# HELP drift_sentinel_rules_loaded_total Active rules loaded.")
                                      ++ (line
                                            (codes "# TYPE drift_sentinel_rules_loaded_total gauge")
                                          ++ (line (
                                                codes "drift_sentinel_rules_loaded_total "
                                                ++ decimal r.rules_loaded)
                                              ++ write_counter_metric
                                                  (codes "drift_sentinel_config_events_total")
                                                  (codes "ConfigMap watch events processed.")
                                                  r.config_events))))))))))

  -- The response of `Handler`, whatever the request.
  unfoldable pub metrics_response : ⦃f : Float64⦄ → Registry → Response
  unfolding render
  metrics_response r = record {
    status = 200;
    headers = (codes "Content-Type", codes "text/plain; version=0.0.4; charset=utf-8") ∷ [];
    body = render r;
  }
