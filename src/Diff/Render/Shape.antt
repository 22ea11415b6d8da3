-- ===== src/Diff/Render/Shape.antt =====
-- The shape of a rendered path: it begins and ends with no white space, and its segments are set
-- apart by separators.
use drift_sentinel.Base.{
  ℕ, true, false, ◌||◌, [], ◌∷◌, ◌++◌, ◌==◌, ◌≡◌, refl, append-nil, arith, Bool-cases, ltb, inl,
  inr,
}
use drift_sentinel.Base.Text.{
  Text, codes, Unicode, is_space, is_letter, is_digit, is_ascii_digit, is_ascii_letter, trim_space,
  text_eq,
}
use drift_sentinel.Base.Trim.{EndsSolid, EndsSolid-append, StartsSolid, trim_space-solid}
use drift_sentinel.Base.Number.{ℤ, print_int}
use drift_sentinel.Diff.Segment.{Segment, Segments, field, field_wildcard, index, index_wildcard}
use drift_sentinel.Diff.Render.{
  is_bare_char, is_bare_identifier, escape_key, quoted, is_wildcard, render_first, render_next,
  render_after, render_path,
}

ascii_solid :
    (c : ℕ)
    → (is_ascii_letter c || is_ascii_digit c || c == b'_' || c == b'-') ≡ true
    → is_space c ≡ false
unfolding is_space
ascii_solid c h = ground arith

module _ ⦃u : Unicode⦄ where
  is_letter-solid : (c : ℕ) → is_letter c ≡ true → is_space c ≡ false
  is_letter-solid c h = elim (Bool-cases (ltb c 128)) [
    | inl e ↦ ascii_solid c (unfold is_letter in ground arith)
    | inr e ↦ u.letter_not_space c (unfold is_letter in ground arith)
  ]

  is_digit-solid : (c : ℕ) → is_digit c ≡ true → is_space c ≡ false
  is_digit-solid c h = elim (Bool-cases (ltb c 128)) [
    | inl e ↦ ascii_solid c (unfold is_digit in ground arith)
    | inr e ↦ u.digit_not_space c (unfold is_digit in ground arith)
  ]

  pub is_bare_char-solid : (c : ℕ) → is_bare_char c ≡ true → is_space c ≡ false
  is_bare_char-solid c h = elim (Bool-cases (is_letter c)) [
    | inl e ↦ is_letter-solid c e
    | inr e ↦ elim (Bool-cases (is_digit c)) [
      | inl f ↦ is_digit-solid c f
      | inr f ↦ ascii_solid c (unfold is_bare_char in ground arith)
    ]
  ]

  -- A bare character is none of those with a meaning in a path.
  pub is_bare_char-plain :
      (c : ℕ)
      → is_bare_char c ≡ true
      → ((c == b'.') ≡ false) × ((c == b'[') ≡ false) × ((c == b'*') ≡ false)
  unfolding is_bare_char is_letter is_digit
  is_bare_char-plain c h = ground arith

  -- The ends of a rendered path.
  all-EndsSolid : (key : Text) → is_bare_identifier key ≡ true → EndsSolid key
  unfolding is_bare_identifier
  all-EndsSolid [] h = cc
  all-EndsSolid (c ∷ []) h = ([], c, refl, is_bare_char-solid c (ground arith))
  all-EndsSolid (c ∷ d ∷ key) h =
      EndsSolid-append (c ∷ []) (d ∷ key) (all-EndsSolid (d ∷ key) (ground arith))

  bracket-EndsSolid : EndsSolid (codes "]")
  bracket-EndsSolid = ([], 93, refl, unfold is_space in refl)

  star-EndsSolid : EndsSolid (codes "*")
  star-EndsSolid = ([], b'*', refl, unfold is_space in refl)

  quoted-EndsSolid : (key : Text) → EndsSolid (quoted key)
  quoted-EndsSolid key = EndsSolid-append (codes "['") (escape_key key ++ codes "']") (
      EndsSolid-append (escape_key key) (codes "']")
        (EndsSolid-append (codes "'") (codes "]") bracket-EndsSolid))

  index-EndsSolid : (i : ℤ) → EndsSolid (codes "[" ++ (print_int i ++ codes "]"))
  index-EndsSolid i =
      EndsSolid-append (codes "[") (print_int i ++ codes "]")
        (EndsSolid-append (print_int i) (codes "]") bracket-EndsSolid)

  EndsSolid-first : (s : Segment) → EndsSolid (render_first s)
  unfolding render_first
  EndsSolid-first (field key) = elim (Bool-cases (is_bare_identifier key)) [
    | inl e ↦ rw e (all-EndsSolid key e)
    | inr e ↦ rw e (quoted-EndsSolid key)
  ]
  EndsSolid-first field_wildcard = star-EndsSolid
  EndsSolid-first (index i) = index-EndsSolid i
  EndsSolid-first index_wildcard = EndsSolid-append (codes "[*") (codes "]") bracket-EndsSolid

  EndsSolid-next : (previous s : Segment) → EndsSolid (render_next previous s)
  unfolding render_next
  EndsSolid-next previous (field key) = elim (Bool-cases (is_bare_identifier key)) [
    | inl e ↦ rw e (EndsSolid-append (codes ".") key (all-EndsSolid key e))
    | inr e ↦ elim (Bool-cases (is_wildcard previous)) [
      | inl w ↦ rw (e, w) (EndsSolid-append (codes ".") (quoted key) (quoted-EndsSolid key))
      | inr w ↦ rw (e, w) (quoted-EndsSolid key)
    ]
  ]
  EndsSolid-next previous field_wildcard = EndsSolid-append (codes ".") (codes "*") star-EndsSolid
  EndsSolid-next previous (index i) = index-EndsSolid i
  EndsSolid-next previous index_wildcard =
      EndsSolid-append (codes "[*") (codes "]") bracket-EndsSolid

  EndsSolid-after :
      (t : Text) (previous : Segment) (ss : Segments)
      → EndsSolid t
      → EndsSolid (t ++ render_after previous ss)
  unfolding render_after
  EndsSolid-after t previous [] h = rw (append-nil t) h
  EndsSolid-after t previous (s ∷ ss) h =
      EndsSolid-append t (render_next previous s ++ render_after s ss)
        (EndsSolid-after (render_next previous s) s ss (EndsSolid-next previous s))

  StartsSolid-first : (s : Segment) (t : Text) → StartsSolid (render_first s ++ t)
  unfolding render_first is_bare_identifier
  StartsSolid-first (field []) t = unfold is_space in refl
  StartsSolid-first (field (c ∷ key)) t = elim (Bool-cases (is_bare_identifier (c ∷ key))) [
    | inl e ↦ rw e (is_bare_char-solid c (ground arith))
    | inr e ↦ rw e (unfold is_space in refl)
  ]
  StartsSolid-first (index i) t = unfold is_space in refl
  StartsSolid-first _ t = unfold is_space in refl

  -- A rendered path is trimmed to itself.
  pub trim_space-render :
      (s : Segment) (ss : Segments)
      → trim_space (render_first s ++ render_after s ss) ≡ render_first s ++ render_after s ss
  trim_space-render s ss =
      trim_space-solid (render_first s ++ render_after s ss)
        (StartsSolid-first s (render_after s ss))
        (EndsSolid-after (render_first s) s ss (EndsSolid-first s))

  pub StartsSolid-ne_nil : (t : Text) → StartsSolid t → text_eq t [] ≡ false
  StartsSolid-ne_nil [] h = absurd h
  StartsSolid-ne_nil (c ∷ t) h = unfold text_eq in refl

  pub render-ne_nil :
      (s : Segment) (ss : Segments) → text_eq (render_first s ++ render_after s ss) [] ≡ false
  render-ne_nil s ss = StartsSolid-ne_nil _ (StartsSolid-first s (render_after s ss))

  pub render_path-cons :
      (s : Segment) (ss : Segments) → render_path (s ∷ ss) ≡ render_first s ++ render_after s ss
  unfolding render_path
  render_path-cons s ss = refl
