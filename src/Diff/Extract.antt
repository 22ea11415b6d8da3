-- ===== src/Diff/Extract.antt =====
-- pkg/diff/extract.go: `Extract` keeps what the patterns match.
pub mod Made
pub mod Keeps
pub mod Origin
use drift_sentinel.Base.{
  ℕ, suc, Bool, true, false, not, ◌||◌, List, [], Option, none, some, if◌then◌else◌,
}
use drift_sentinel.Base.Number.{pos}
use drift_sentinel.Diff.Segment.{
  Segments, field, index, append_path, PathPattern, matches_any_path, has_any_descendant_match,
}
use drift_sentinel.Diff.Value.{
  Value, scalar, list, object, Items, nil, cons, Fields, end, entry, clone_value,
}
use drift_sentinel.Diff.Strip.{put_field, put_item, keep_fields, map_or_empty}

abbrev pub is_kept : Option Value → Bool
is_kept none = false
is_kept (some v) = true

-- A list is kept if one of its items is.
abbrev pub keep_items : Items × Bool → Option Value
keep_items (xs, kept) = if kept then some (list xs) else none

unfoldable mutual
  pub extract_value : Value → List PathPattern → Segments → Option Value
  extract_value (object fs) patterns current =
      if matches_any_path current patterns
      then some (clone_value (object fs))
      else if not (has_any_descendant_match current patterns)
      then none
      else keep_fields (extract_fields fs patterns current)
  extract_value (list xs) patterns current =
      if matches_any_path current patterns
      then some (clone_value (list xs))
      else if not (has_any_descendant_match current patterns)
      then none
      else keep_items (extract_items xs patterns current 0)
  extract_value (scalar s) patterns current =
      if matches_any_path current patterns
      then some (clone_value (scalar s))
      else if not (has_any_descendant_match current patterns)
      then none
      else some (clone_value (scalar s))

  pub extract_fields : Fields → List PathPattern → Segments → Fields
  extract_fields end patterns current = end
  extract_fields (entry key v fs) patterns current =
      put_field key (extract_value v patterns (append_path current (field key)))
        (extract_fields fs patterns current)

  -- The new list, and whether an item was kept.
  pub extract_items : Items → List PathPattern → Segments → ℕ → Items × Bool
  extract_items nil patterns current i = (nil, false)
  extract_items (cons v xs) patterns current i =
      let extracted = extract_value v patterns (append_path current (index (pos i))) in
      let (items, kept) = extract_items xs patterns current (suc i) in
      (put_item extracted items, is_kept extracted || kept)

unfoldable pub extract : Fields → List PathPattern → Fields
unfolding extract_value
extract obj patterns = map_or_empty (extract_value (object obj) patterns [])
