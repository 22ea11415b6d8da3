-- ===== src/Metrics/Labels.antt =====
-- pkg/metrics/metrics.go: labels, and the counters that they index.
pub mod Escape
use drift_sentinel.Base.{ℕ, ◌+◌, ◌%◌, List, [], ◌∷◌, ◌++◌, map, if◌then◌else◌, ◌==◌}
use drift_sentinel.Base.Text.{Text, Unicode, codes, text_eq, text_ltb, join}
use drift_sentinel.Base.Assoc.{find, get}
use drift_sentinel.Base.Quote.{quote}
use drift_sentinel.Base.Sort.{sort}
use drift_sentinel.Rules.Types.{TextMap}

-- The values of `uint64`.
abbrev pub uint64_size : ℕ
uint64_size = 18446744073709551616

-- `n++` on a `uint64`.
abbrev pub increment : ℕ → ℕ
increment n = (n + 1) % uint64_size

unfoldable pub sorted_names : TextMap → List Text
sorted_names labels = sort text_ltb (map (λ label. label.0) labels)

unfoldable pub label_key : TextMap → Text
unfolding sorted_names find join
label_key labels =
    join (codes ",") (map (λ name. name ++ b'=' ∷ get name labels) (sorted_names labels))

-- One character under `strings.NewReplacer` of `escapeLabelValue`.
abbrev pub escape_label_char : ℕ → Text
escape_label_char c =
    if c == 92
    then 92 ∷ 92 ∷ []
    else if c == 10
    then 92 ∷ b'n' ∷ []
    else if c == 34
    then 92 ∷ 34 ∷ []
    else c ∷ []

unfoldable pub escape_label_value : Text → Text
escape_label_value [] = []
escape_label_value (c ∷ s) = escape_label_char c ++ escape_label_value s

unfoldable pub format_labels : ⦃u : Unicode⦄ → TextMap → Text
unfolding sorted_names find join escape_label_value
format_labels labels = join (codes ",") (
    map (λ name. name ++ b'=' ∷ quote (escape_label_value (get name labels))) (sorted_names labels))

unfoldable pub namespace_or_unknown : Text → Text
namespace_or_unknown [] = codes "unknown"
namespace_or_unknown (c ∷ s) = c ∷ s

pub record CounterSample : Type 0 where
  pub labels : TextMap
  pub value : ℕ

-- A map from the keys of labels to samples.
abbrev pub Counters : Type 0
Counters = List (Text × CounterSample)

-- `cloneLabels`: a new map with the same entries.
abbrev pub clone_labels : TextMap → TextMap
clone_labels labels = labels

abbrev pub count_one : CounterSample → CounterSample
count_one sample = record sample { value = increment sample.value }

-- The sample of the key counted once more, and a new one where there is none.
unfoldable pub increment_at : Counters → Text → TextMap → Counters
increment_at [] key labels =
    (key, count_one (record { labels = clone_labels labels; value = 0 })) ∷ []
increment_at ((j, sample) ∷ target) key labels =
    let rest = increment_at target key labels in
    if text_eq j key then (j, count_one sample) ∷ target else (j, sample) ∷ rest

unfoldable pub increment_counter : Counters → TextMap → Counters
unfolding increment_at label_key
increment_counter target labels = increment_at target (label_key labels) labels
