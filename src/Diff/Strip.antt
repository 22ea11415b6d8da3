-- ===== src/Diff/Strip.antt =====
-- pkg/diff/strip.go: `Strip` removes what the patterns match.
pub mod Keeps
use drift_sentinel.Base.{ℕ, suc, List, [], Option, none, some, if◌then◌else◌}
use drift_sentinel.Base.Text.{Text}
use drift_sentinel.Base.Number.{pos}
use drift_sentinel.Diff.Segment.{
  Segments, Segment, field, index, append_path, PathPattern, matches_any_path,
}
use drift_sentinel.Diff.Value.{
  Value, scalar, null, list, object, Items, nil, cons, Fields, end, entry, clone_value,
}

-- `result[key] = child` if the child is kept.
abbrev pub put_field : Text → Option Value → Fields → Fields
put_field key none fs = fs
put_field key (some v) fs = entry key v fs

-- A slot that is not assigned stays `nil`.
abbrev pub put_item : Option Value → Items → Items
put_item none xs = cons (scalar null) xs
put_item (some v) xs = cons v xs

-- A map with no entry left is dropped.
abbrev pub keep_fields : Fields → Option Value
keep_fields end = none
keep_fields (entry key v fs) = some (object (entry key v fs))

unfoldable mutual
  pub strip_value : Value → List PathPattern → Segments → Option Value
  strip_value (object fs) patterns current =
      if matches_any_path current patterns
      then none
      else keep_fields (strip_fields fs patterns current)
  strip_value (list xs) patterns current =
      if matches_any_path current patterns
      then none
      else some (list (strip_items xs patterns current 0))
  strip_value (scalar s) patterns current =
      if matches_any_path current patterns then none else some (clone_value (scalar s))

  pub strip_fields : Fields → List PathPattern → Segments → Fields
  strip_fields end patterns current = end
  strip_fields (entry key v fs) patterns current =
      put_field key (strip_value v patterns (append_path current (field key)))
        (strip_fields fs patterns current)

  pub strip_items : Items → List PathPattern → Segments → ℕ → Items
  strip_items nil patterns current i = nil
  strip_items (cons v xs) patterns current i =
      put_item (strip_value v patterns (append_path current (index (pos i))))
        (strip_items xs patterns current (suc i))

-- The map in a result, and an empty one where there is none.
abbrev pub map_or_empty : Option Value → Fields
map_or_empty (some (object fs)) = fs
map_or_empty _ = end

unfoldable pub strip : Fields → List PathPattern → Fields
unfolding strip_value
strip obj patterns = map_or_empty (strip_value (object obj) patterns [])
