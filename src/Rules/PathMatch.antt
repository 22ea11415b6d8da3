-- ===== src/Rules/PathMatch.antt =====
-- `path.Match` of Go's standard library, which pkg/rules/matcher.go and pkg/rules/config.go call. A
-- pattern is cut into chunks at its stars, and each chunk is placed as far left as possible.
use drift_sentinel.Base.{
  ℕ, Bool, true, false, not, ◌&&◌, ◌||◌, List, [], ◌∷◌, Option, none, some, if◌then◌else◌, ◌==◌,
  leb, any, ◌≡◌, refl, Option-cases, inl, inr,
}
use drift_sentinel.Base.Text.{Text, codes}

-- A test of one character.
pub data Item : Type 0 where
  any_char : Item
  literal : ℕ → Item
  class : Bool → List (ℕ × ℕ) → Item

-- Inside a class: before the low end of a range, behind it, and before the high end.
pub data ClassState : Type 0 where
  low : ClassState
  low_escaped : ClassState
  behind : ℕ → ClassState
  high : ℕ → ClassState
  high_escaped : ℕ → ClassState

pub data Scan : Type 0 where
  outside : Scan
  escaped : Scan
  opened : Scan
  inside : Bool → List (ℕ × ℕ) → ClassState → Scan

pub data ClassStep : Type 0 where
  bad : ClassStep
  next : Scan → ClassStep
  done : ClassStep

abbrev backslash : ℕ
backslash = 92

abbrev is_empty {ℓ} : {A : Type ℓ} → List A → Bool
is_empty [] = true
is_empty (x ∷ xs) = false

low_step : Bool → List (ℕ × ℕ) → ℕ → ClassStep
low_step negated ranges c =
    if c == b']' && not (is_empty ranges)
    then done
    else if c == b'-' || c == b']'
    then bad
    else if c == backslash
    then next (inside negated ranges low_escaped)
    else next (inside negated ranges (behind c))

class_step : Bool → List (ℕ × ℕ) → ClassState → ℕ → ClassStep
class_step negated ranges low c = low_step negated ranges c
class_step negated ranges low_escaped c = next (inside negated ranges (behind c))
class_step negated ranges (behind lo) c =
    if c == b'-'
    then next (inside negated ranges (high lo))
    else low_step negated ((lo, lo) ∷ ranges) c
class_step negated ranges (high lo) c =
    if c == b'-' || c == b']'
    then bad
    else if c == backslash
    then next (inside negated ranges (high_escaped lo))
    else next (inside negated ((lo, c) ∷ ranges) low)
class_step negated ranges (high_escaped lo) c = next (inside negated ((lo, c) ∷ ranges) low)

-- The ranges of a class that ends here.
closing_ranges : List (ℕ × ℕ) → ClassState → List (ℕ × ℕ)
closing_ranges ranges (behind lo) = (lo, lo) ∷ ranges
closing_ranges ranges _ = ranges

-- The items up to the first star, and the chunks behind the stars. `none` is `ErrBadPattern`.
abbrev Compiled : Type 0
Compiled = Option (List Item × List (List Item))

abbrev add_item : Item → Compiled → Compiled
add_item i none = none
add_item i (some (items, chunks)) = some (i ∷ items, chunks)

-- A star in front; a run of stars is one.
abbrev add_star : Compiled → Compiled
add_star none = none
add_star (some ([], c ∷ chunks)) = some ([], c ∷ chunks)
add_star (some (items, chunks)) = some ([], items ∷ chunks)

abbrev continue : ClassStep → Item → (Scan → Compiled) → Compiled
continue bad item rest = none
continue (next scan) item rest = rest scan
continue done item rest = add_item item (rest outside)

unfoldable pub compile : Scan → Text → Compiled
unfolding class_step low_step closing_ranges
compile outside [] = some ([], [])
compile _ [] = none
compile outside (c ∷ s) =
    if c == b'*'
    then add_star (compile outside s)
    else if c == b'?'
    then add_item any_char (compile outside s)
    else if c == backslash
    then compile escaped s
    else if c == b'['
    then compile opened s
    else add_item (literal c) (compile outside s)
compile escaped (c ∷ s) = add_item (literal c) (compile outside s)
compile opened (c ∷ s) =
    let rest = λ (scan : Scan). compile scan s in
    if c == b'^'
    then compile (inside true [] low) s
    else continue (class_step false [] low c) (class false []) rest
compile (inside negated ranges state) (c ∷ s) =
    continue (class_step negated ranges state c) (class negated (closing_ranges ranges state))
      (λ scan. compile scan s)

accepts : Item → ℕ → Bool
accepts any_char c = not (c == b'/')
accepts (literal x) c = c == x
accepts (class negated ranges) c =
    let inside_one = any (λ range. leb (range.0) c && leb c (range.1)) ranges in
    if negated then not inside_one else inside_one

-- The text behind the chunk, if the chunk matches at the start.
match_chunk : List Item → Text → Option Text
match_chunk [] name = some name
match_chunk (i ∷ items) [] = none
match_chunk (i ∷ items) (c ∷ name) = if accepts i c then match_chunk items name else none

-- The place is good for the last chunk only if nothing is left.
abbrev good_place : Bool → Option Text → Option Text
good_place last none = none
good_place last (some t) = if last && not (is_empty t) then none else some t

-- The leftmost place of a chunk behind a star, which passes no slash.
place : Bool → List Item → Text → Option Text
place last chunk [] = good_place last (match_chunk chunk [])
place last chunk (c ∷ name) =
    let later = place last chunk name in
    elim (good_place last (match_chunk chunk (c ∷ name))) [
      | some t ↦ some t
      | none ↦ if c == b'/' then none else later
    ]

match_stars : List (List Item) → Text → Bool
match_stars [] name = is_empty name
match_stars ([] ∷ []) name = not (any (λ c. c == b'/') name)
match_stars (chunk ∷ chunks) name = elim (place (is_empty chunks) chunk name) [
  | none ↦ false
  | some t ↦ match_stars chunks t
]

match_rest : List (List Item) → Option Text → Bool
match_rest chunks none = false
match_rest chunks (some t) = match_stars chunks t

match_compiled : Compiled → Text → Option Bool
match_compiled none name = none
match_compiled (some (items, chunks)) name = some (match_rest chunks (match_chunk items name))

-- `none` is `ErrBadPattern`.
unfoldable pub path_match : Text → Text → Option Bool
unfolding compile match_compiled match_rest match_stars place match_chunk accepts
path_match pattern name = match_compiled (compile outside pattern) name

-- A pattern that is good for one name is good for each.
pub path_match-valid :
    (pattern name other : Text) (matched : Bool)
    → path_match pattern name ≡ some matched
    → (b : Bool) × (path_match pattern other ≡ some b)
unfolding path_match match_compiled
path_match-valid pattern name other matched h = elim (Option-cases (compile outside pattern)) [
  | inl e ↦ cc (rw e at h)
  | inr ((items, chunks), e) ↦ (match_rest chunks (match_chunk items other), rw e refl)
]

star_suffix : path_match (codes "prod-*") (codes "prod-eu") ≡ some true
unfolding path_match
star_suffix = refl

two_stars : path_match (codes "*-[a-c]?*x") (codes "team-bbx") ≡ some true
unfolding path_match
two_stars = refl

no_slash : path_match (codes "a*") (codes "a/b") ≡ some false
unfolding path_match
no_slash = refl

bad_class : path_match (codes "x[]") (codes "a") ≡ none
unfolding path_match
bad_class = refl

negated_class : path_match (codes "[^a-c]") (codes "d") ≡ some true
unfolding path_match
negated_class = refl
