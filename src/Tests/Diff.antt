-- ===== src/Tests/Diff.antt =====
-- pkg/diff at concrete objects.
use drift_sentinel.Base.{true, false, List, [], ◌∷◌, ◌++◌, some, ◌≡◌, ◌↔◌, ◌⊎◌, refl, arith}
use drift_sentinel.Base.Text.{codes, text_eq, text_ltb, is_letter}
use drift_sentinel.Base.Number.{pos}
use drift_sentinel.Base.Result.{ok, Ends}
use drift_sentinel.Base.Sort.{sort}
use drift_sentinel.Diff.Segment.{
  Segments, field, index, PathPattern, matches_any_path, has_any_descendant_match, segments_match,
}
use drift_sentinel.Diff.Value.{
  Value, scalar, null, integer, int64, object, list, nil, cons, Fields, end, entry, lookup,
  values_equal, clone_value, WellFormedFields,
}
use drift_sentinel.Diff.Render.{render_path}
use drift_sentinel.Diff.Parse.{parse_path}
use drift_sentinel.Diff.Parse.Fuel.{parse_path-Ends}
use drift_sentinel.Diff.RoundTrip.{parse_path-render_path}
use drift_sentinel.Diff.Strip.{strip}
use drift_sentinel.Diff.Extract.{extract}
use drift_sentinel.Diff.Extract.Keeps.{extract-keeps}
use drift_sentinel.Diff.Cover.{IsCovered, IsHole, IsOutside}
use drift_sentinel.Diff.Extract.Origin.{IsReached, extract-Origin}
use drift_sentinel.Diff.Strip.Keeps.{strip-keeps, strip-origin}
use drift_sentinel.Diff.Compare.{compare}
use drift_sentinel.Diff.Compare.Nodes.{value_at, differs_at, IsFirstDifference}
use drift_sentinel.Diff.Compare.Report.{Listed, compare-Listed, compare-identical}
use drift_sentinel.Tests.{ascii}

abbrev one : Value
one = scalar (integer int64 (pos 1))

abbrev two : Value
two = scalar (integer int64 (pos 2))

abbrev old_object : Fields
old_object = entry (codes "b") one (entry (codes "a") (list (cons (scalar null) nil)) end)

abbrev new_object : Fields
new_object = entry (codes "a") (list nil) (entry (codes "b") two end)

runs_compare : (compare old_object new_object).changed_paths ≡ codes "a[0]" ∷ codes "b" ∷ []
unfolding compare sort text_eq text_ltb lookup values_equal render_path is_letter
runs_compare = refl

compare-Listed_example : Listed (codes "b") (compare old_object new_object).changed_paths ↔ (
    (p : Segments) × IsFirstDifference p (object old_object) (object new_object)
    × (codes "b" ≡ render_path p))
compare-Listed_example = compare-Listed old_object new_object (codes "b")

compare-identical_example :
    ((compare old_object new_object).identical ≡ true)
    ↔ ((p : Segments) → differs_at p (object old_object) (object new_object) ≡ false)
compare-identical_example = compare-identical old_object new_object

parse_path-Ends_example : Ends (parse_path (codes "spec[0]."))
parse_path-Ends_example = parse_path-Ends (codes "spec[0].")

abbrev image_path : Segments
image_path = index (pos 0) ∷ field (codes "a b") ∷ []

parse_path-render_path_example :
    parse_path (render_path (field (codes "spec") ∷ image_path))
    ≡ ok (record {
      raw = render_path (field (codes "spec") ∷ image_path);
      segments = field (codes "spec") ∷ image_path;
    })
parse_path-render_path_example =
    parse_path-render_path (field (codes "spec")) image_path (refl, (omega arith, (refl, tt)))

-- A pattern that matches the key `b` at the root.
abbrev b_patterns : List PathPattern
b_patterns = record { raw = codes "b"; segments = field (codes "b") ∷ [] } ∷ []

abbrev small_object : Fields
small_object = entry (codes "b") one (entry (codes "a") two end)

small_object-WellFormed : WellFormedFields small_object
unfolding lookup text_eq
small_object-WellFormed = (refl, tt, (refl, tt, tt))

outside_b :
    (q r : Segments) → field (codes "a") ∷ [] ≡ q ++ r → matches_any_path q b_patterns ≡ false
unfolding matches_any_path text_eq segments_match
outside_b [] r e = refl
outside_b (s ∷ q) r e = let same : field (codes "a") ≡ s = cc in rw (← same)

value_at_a : value_at (field (codes "a") ∷ []) (object small_object) ≡ some two
unfolding lookup text_eq
value_at_a = refl

strip-keeps_example :
    value_at (field (codes "a") ∷ []) (object (strip small_object b_patterns)) ≡ some two
strip-keeps_example =
    strip-keeps b_patterns small_object (field (codes "a") ∷ []) (integer int64 (pos 2))
      small_object-WellFormed value_at_a outside_b

stripped_at_a :
    value_at (field (codes "a") ∷ []) (object (strip small_object b_patterns)) ≡ some two
unfolding strip lookup text_eq matches_any_path segments_match clone_value
stripped_at_a = refl

strip-origin_example :
    ((value_at (field (codes "a") ∷ []) (object small_object) ≡ some two)
      × ((q r : Segments)
          → field (codes "a") ∷ [] ≡ q ++ r
          → matches_any_path q b_patterns ≡ false))
    ⊎ IsHole
        (IsCovered b_patterns [])
        (object small_object)
        (field (codes "a") ∷ [])
        (integer int64 (pos 2))
strip-origin_example =
    strip-origin b_patterns small_object (field (codes "a") ∷ []) (integer int64 (pos 2))
      small_object-WellFormed stripped_at_a

extracted_at_b :
    value_at (field (codes "b") ∷ []) (object (extract small_object b_patterns)) ≡ some one
unfolding extract lookup text_eq matches_any_path has_any_descendant_match segments_match
    clone_value
extracted_at_b = refl

extract-Origin_example :
    ((value_at (field (codes "b") ∷ []) (object small_object) ≡ some one)
      × IsReached b_patterns [] (field (codes "b") ∷ []))
    ⊎ IsHole
        (IsOutside b_patterns [])
        (object small_object)
        (field (codes "b") ∷ [])
        (integer int64 (pos 1))
extract-Origin_example =
    extract-Origin b_patterns small_object (field (codes "b") ∷ []) (integer int64 (pos 1))
      small_object-WellFormed extracted_at_b

b_matched : matches_any_path (field (codes "b") ∷ []) b_patterns ≡ true
unfolding matches_any_path segments_match text_eq
b_matched = refl

value_at_b : value_at (field (codes "b") ∷ []) (object small_object) ≡ some one
unfolding lookup text_eq
value_at_b = refl

extract-keeps_example :
    value_at (field (codes "b") ∷ []) (object (extract small_object b_patterns)) ≡ some one
extract-keeps_example =
    extract-keeps b_patterns small_object (field (codes "b") ∷ []) [] (integer int64 (pos 1))
      small_object-WellFormed value_at_b b_matched
