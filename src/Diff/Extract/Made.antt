-- ===== src/Diff/Extract/Made.antt =====
-- How `Extract` makes a map or a list child by child.
use drift_sentinel.Base.{
  ℕ, suc, Bool, true, false, List, [], Option, none, some, ◌≡◌, inl, inr, refl, Bool-cases,
}
use drift_sentinel.Diff.Segment.{
  Segments, Segment, append_path, PathPattern, matches_any_path, has_any_descendant_match,
}
use drift_sentinel.Diff.Value.{
  Value, scalar, list, object, Items, nil, cons, Fields, end, entry, clone_value-eq,
}
use drift_sentinel.Diff.Extract.{keep_items, extract_value, extract_fields, extract_items}
use drift_sentinel.Diff.Children.{map_fields, map_items, Makes, keep_fields-inv}

keep_items-inv : (r : Items × Bool) (w : Value) → keep_items r ≡ some w → w ≡ list (r.0)
keep_items-inv (xs, true) w h = cc
keep_items-inv (xs, false) w h = cc

module _ (patterns : List PathPattern) where
  abbrev pub extract_child : Segments → Segment → Value → Option Value
  extract_child current s v = extract_value v patterns (append_path current s)

  pub extract_fields-eq :
      (fs : Fields) (current : Segments)
      → extract_fields fs patterns current ≡ map_fields (extract_child current) fs
  unfolding extract_value map_fields
  extract_fields-eq end current = refl
  extract_fields-eq (entry key v fs) current = rw (extract_fields-eq fs current)

  extract_items-eq :
      (xs : Items) (current : Segments) (i : ℕ)
      → (extract_items xs patterns current i).0 ≡ map_items (extract_child current) xs i
  unfolding extract_value map_items
  extract_items-eq nil current i = refl
  extract_items-eq (cons v xs) current i = rw (extract_items-eq xs current (suc i))

  pub extract_value-matched :
      (v w : Value) (current : Segments)
      → matches_any_path current patterns ≡ true
      → extract_value v patterns current ≡ some w
      → w ≡ v
  unfolding extract_value
  extract_value-matched (object fs) w current h k = cc (rw h at k, clone_value-eq (object fs))
  extract_value-matched (list xs) w current h k = cc (rw h at k, clone_value-eq (list xs))
  extract_value-matched (scalar s) w current h k = cc (rw h at k, clone_value-eq (scalar s))

  extract_value-unreached :
      (v : Value) (current : Segments)
      → matches_any_path current patterns ≡ false
      → has_any_descendant_match current patterns ≡ false
      → extract_value v patterns current ≡ none
  unfolding extract_value
  extract_value-unreached (object fs) current h d = rw (h, d)
  extract_value-unreached (list xs) current h d = rw (h, d)
  extract_value-unreached (scalar s) current h d = rw (h, d)

  pub extract_value-reached :
      (v w : Value) (current : Segments)
      → matches_any_path current patterns ≡ false
      → has_any_descendant_match current patterns ≡ true
      → extract_value v patterns current ≡ some w
      → Makes (extract_child current) v w
  unfolding extract_value
  extract_value-reached (object fs) w current h d k =
      rw (← extract_fields-eq fs current)
        (keep_fields-inv (extract_fields fs patterns current) w (rw (h, d) at k))
  extract_value-reached (list xs) w current h d k =
      rw (← extract_items-eq xs current 0)
        (keep_items-inv (extract_items xs patterns current 0) w (rw (h, d) at k))
  extract_value-reached (scalar s) w current h d k = cc (rw (h, d) at k, clone_value-eq (scalar s))

  pub extract_value-Makes :
      (v w : Value) (current : Segments)
      → matches_any_path current patterns ≡ false
      → extract_value v patterns current ≡ some w
      → (has_any_descendant_match current patterns ≡ true) × Makes (extract_child current) v w
  extract_value-Makes v w current h k =
      elim (Bool-cases (has_any_descendant_match current patterns)) [
        | inl d ↦ (d, extract_value-reached v w current h d k)
        | inr d ↦ cc (extract_value-unreached v current h d)
      ]

-- What is made of a map is a map.
pub extract_value-object :
    (patterns : List PathPattern) (obj : Fields) (w : Value)
    → extract_value (object obj) patterns [] ≡ some w
    → (fs : Fields) × (w ≡ object fs)
extract_value-object patterns obj w k = elim (Bool-cases (matches_any_path [] patterns)) [
  | inl m ↦ (obj, extract_value-matched patterns (object obj) w [] m k)
  | inr m ↦ (
    map_fields (extract_child patterns []) obj,
    (extract_value-Makes patterns (object obj) w [] m k).1,
  )
]
