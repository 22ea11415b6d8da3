-- ===== src/Diff/Render.antt =====
-- pkg/diff/paths.go: `RenderPath` and `isBareIdentifier`.
pub mod Shape
use drift_sentinel.Base.{
  ℕ, Bool, true, false, not, ◌&&◌, ◌||◌, List, [], ◌∷◌, ◌++◌, if◌then◌else◌, ◌==◌, all, ◌≡◌, refl,
}
use drift_sentinel.Base.Text.{Text, codes, Unicode, is_letter, is_digit}
use drift_sentinel.Base.Number.{ℤ, print_int}
use drift_sentinel.Diff.Segment.{Segment, Segments, field, field_wildcard, index, index_wildcard}

module _ ⦃u : Unicode⦄ where
  unfoldable pub is_bare_char : ℕ → Bool
  is_bare_char c = is_letter c || is_digit c || c == b'_' || c == b'-'

  unfoldable pub is_bare_identifier : Text → Bool
  unfolding is_bare_char
  is_bare_identifier [] = false
  is_bare_identifier (c ∷ s) = all is_bare_char (c ∷ s)

-- `strings.ReplaceAll(key, "'", "\\'")`.
unfoldable pub escape_key : Text → Text
escape_key [] = []
escape_key (c ∷ s) = if c == b'\'' then 92 ∷ c ∷ escape_key s else c ∷ escape_key s

abbrev pub quoted : Text → Text
quoted key = codes "['" ++ (escape_key key ++ codes "']")

abbrev pub is_wildcard : Segment → Bool
is_wildcard field_wildcard = true
is_wildcard _ = false

module _ ⦃u : Unicode⦄ where
  -- What one round of the loop writes, at the first segment and after `previous`.
  unfoldable pub render_first : Segment → Text
  unfolding is_bare_identifier escape_key
  render_first (field key) = if is_bare_identifier key then key else quoted key
  render_first field_wildcard = codes "*"
  render_first (index i) = codes "[" ++ (print_int i ++ codes "]")
  render_first index_wildcard = codes "[*]"

  unfoldable pub render_next : Segment → Segment → Text
  unfolding is_bare_identifier escape_key
  render_next previous (field key) =
      if is_bare_identifier key
      then codes "." ++ key
      else if is_wildcard previous
      then codes "." ++ quoted key
      else quoted key
  render_next previous field_wildcard = codes ".*"
  render_next previous (index i) = codes "[" ++ (print_int i ++ codes "]")
  render_next previous index_wildcard = codes "[*]"

  unfoldable pub render_after : Segment → Segments → Text
  unfolding render_next
  render_after previous [] = []
  render_after previous (s ∷ ss) = render_next previous s ++ render_after s ss

  unfoldable pub render_path : Segments → Text
  unfolding render_first render_after print_int
  render_path [] = codes "<root>"
  render_path (s ∷ ss) = render_first s ++ render_after s ss
