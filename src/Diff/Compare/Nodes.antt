-- ===== src/Diff/Compare/Nodes.antt =====
-- Where two values differ, described by what stands at a path and with no traversal in it.
use drift_sentinel.Base.{Bool, true, false, not, [], ◌∷◌, ◌++◌, Option, none, some, ◌≡◌, ◌≢◌}
use drift_sentinel.Base.Number.{pos}
use drift_sentinel.Diff.Segment.{Segment, Segments, field, index}
use drift_sentinel.Diff.Value.{Value, scalar, list, object, values_equal, lookup, item_at}

-- The child under a segment: a map's entry or a list's item.
abbrev pub child : Segment → Value → Option Value
child (field key) (object fs) = lookup key fs
child (index (pos i)) (list xs) = item_at i xs
child _ _ = none

abbrev pub follow : (Value → Option Value) → Option Value → Option Value
follow f none = none
follow f (some w) = f w

-- What stands at a path.
abbrev pub value_at : Segments → Value → Option Value
value_at [] v = some v
value_at (s ∷ p) v = follow (value_at p) (child s v)

-- Nothing on both sides, two maps, two lists, or two equal scalars.
abbrev pub same_node : Option Value → Option Value → Bool
same_node none none = true
same_node (some (scalar s)) (some (scalar t)) = values_equal s t
same_node (some (list xs)) (some (list ys)) = true
same_node (some (object fs)) (some (object gs)) = true
same_node _ _ = false

abbrev pub differs_at : Segments → Value → Value → Bool
differs_at p old new = not (same_node (value_at p old) (value_at p new))

-- The values differ at the path, and nowhere above it.
abbrev pub IsFirstDifference : Segments → Value → Value → Type 0
IsFirstDifference p old new =
    (differs_at p old new ≡ true)
    × ((q r : Segments) → p ≡ q ++ r → r ≢ [] → differs_at q old new ≡ false)
