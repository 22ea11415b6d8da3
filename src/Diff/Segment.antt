-- ===== src/Diff/Segment.antt =====
-- pkg/diff/paths.go: segments, path patterns, and how a pattern meets an actual path.
use drift_sentinel.Base.{Bool, true, false, ◌&&◌, List, [], ◌∷◌, ◌++◌, any, ◌≡◌, refl, arith}
use drift_sentinel.Base.Text.{Text, text_eq, text_eq_refl, text_eq_iff}
use drift_sentinel.Base.Number.{ℤ, int_eq, int_eq_refl, int_eq→eq}

-- The struct `Segment`, by its kind: the fields that a kind does not use are zero in the program.
pub data Segment : Type 0 where
  field : Text → Segment
  field_wildcard : Segment
  index : ℤ → Segment
  index_wildcard : Segment

abbrev pub Segments : Type 0
Segments = List Segment

pub record PathPattern : Type 0 where
  pub raw : Text
  pub segments : Segments

unfoldable pub segments_match : Segment → Segment → Bool
segments_match field_wildcard (field k) = true
segments_match field_wildcard _ = false
segments_match index_wildcard (index i) = true
segments_match index_wildcard _ = false
segments_match (field j) (field k) = text_eq j k
segments_match (field j) _ = false
segments_match (index i) (index j) = int_eq i j
segments_match (index i) _ = false

-- The loop of `matchesPath`, with the test of the lengths: it ends at the shorter list.
unfoldable pub all_match : Segments → Segments → Bool
all_match [] [] = true
all_match (p ∷ ps) (s ∷ ss) = segments_match p s && all_match ps ss
all_match _ _ = false

unfoldable pub matches_path : PathPattern → PathPattern → Bool
unfolding all_match
matches_path pattern actual = all_match pattern.segments actual.segments

-- The loop of `hasDescendantMatch`, which runs over the prefix.
unfoldable pub prefix_matches : Segments → Segments → Bool
prefix_matches ps [] = true
prefix_matches [] (s ∷ ss) = false
prefix_matches (p ∷ ps) (s ∷ ss) = segments_match p s && prefix_matches ps ss

unfoldable pub has_descendant_match : PathPattern → Segments → Bool
unfolding prefix_matches
has_descendant_match pattern prefix = prefix_matches pattern.segments prefix

unfoldable pub matches_any_path : Segments → List PathPattern → Bool
unfolding matches_path
matches_any_path current patterns =
    let actual : PathPattern = record { raw = []; segments = current } in
    any (λ pattern. matches_path pattern actual) patterns

unfoldable pub has_any_descendant_match : Segments → List PathPattern → Bool
unfolding has_descendant_match
has_any_descendant_match current patterns =
    any (λ pattern. has_descendant_match pattern current) patterns

abbrev pub append_path : Segments → Segment → Segments
append_path current next = current ++ next ∷ []

-- The segments of an actual path: no wildcards.
abbrev pub is_concrete : Segment → Bool
is_concrete (field k) = true
is_concrete (index i) = true
is_concrete _ = false

-- Equality of segments, for membership in a list of paths.
unfoldable pub segment_eq : Segment → Segment → Bool
segment_eq (field j) (field k) = text_eq j k
segment_eq field_wildcard field_wildcard = true
segment_eq (index i) (index j) = int_eq i j
segment_eq index_wildcard index_wildcard = true
segment_eq _ _ = false

unfoldable pub path_eq : Segments → Segments → Bool
unfolding segment_eq
path_eq [] [] = true
path_eq (p ∷ ps) (s ∷ ss) = segment_eq p s && path_eq ps ss
path_eq _ _ = false

segment_eq→eq : (s t : Segment) → segment_eq s t ≡ true → s ≡ t
unfolding segment_eq
segment_eq→eq (field j) (field k) h = ground (arith, text_eq_iff j k)
segment_eq→eq field_wildcard field_wildcard h = refl
segment_eq→eq (index i) (index j) h = ground (arith, int_eq→eq i j)
segment_eq→eq index_wildcard index_wildcard h = refl
segment_eq→eq _ _ h = ground arith

segment_eq_refl : (s : Segment) → segment_eq s s ≡ true
unfolding segment_eq
segment_eq_refl (field k) = text_eq_refl k
segment_eq_refl field_wildcard = refl
segment_eq_refl (index i) = int_eq_refl i
segment_eq_refl index_wildcard = refl

pub path_eq→eq : (p q : Segments) → path_eq p q ≡ true → p ≡ q
unfolding path_eq
path_eq→eq [] [] h = refl
path_eq→eq (p ∷ ps) (s ∷ ss) h = ground (arith, segment_eq→eq p s, path_eq→eq ps ss)
path_eq→eq _ _ h = ground arith

pub path_eq_refl : (p : Segments) → path_eq p p ≡ true
unfolding path_eq
path_eq_refl [] = refl
path_eq_refl (p ∷ ps) = ground (arith, segment_eq_refl p, path_eq_refl ps)
