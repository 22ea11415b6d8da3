-- ===== src/Diff/Compare/Report.antt =====
-- What `Compare` reports, in terms of the nodes of the two objects.
use drift_sentinel.Base.{
  true, false, not, List, [], ◌∷◌, any, is_empty, ◌≡◌, ◌↔◌, refl, arith, Bool-cases, inl, inr,
}
use drift_sentinel.Base.Text.{Text, Unicode, text_eq, text_eq_refl, text_eq_iff, text_ltb}
use mathlib.Core.Path.{subst}
use drift_sentinel.Base.Sort.{any-sort}
use drift_sentinel.Diff.Segment.{Segments, path_eq, path_eq_refl, path_eq→eq}
use drift_sentinel.Diff.Value.{Value, object, Fields}
use drift_sentinel.Diff.Render.{render_path}
use drift_sentinel.Diff.Compare.{compare, compare_value}
use drift_sentinel.Diff.Compare.Nodes.{differs_at, IsFirstDifference}
use drift_sentinel.Diff.Compare.Reference.{Paths, differences, compare_value-eq, report}
use drift_sentinel.Diff.Compare.Listing.{has}
use drift_sentinel.Diff.Compare.First.{has-differences_iff, difference-listed}

-- The text is in the list.
abbrev pub Listed : Text → List Text → Type 0
Listed t ts = any (text_eq t) ts ≡ true

module _ ⦃u : Unicode⦄ where
  Listed-report :
      (t : Text) (ps : Paths)
      → Listed t (report [] ps)
      → (p : Segments) × (has p ps ≡ true) × (t ≡ render_path p)
  Listed-report t [] h = cc
  Listed-report t (p ∷ ps) h = elim (Bool-cases (text_eq t (render_path p))) [
    | inl e ↦ (p, rw (path_eq_refl p), (text_eq_iff t (render_path p)).0 e)
    | inr e ↦ let (q, m, same) = Listed-report t ps (rw e at h) in (q, rw m (ground arith), same)
  ]

  report-Listed :
      (p : Segments) (ps : Paths) → has p ps ≡ true → Listed (render_path p) (report [] ps)
  report-Listed p [] h = cc
  report-Listed p (q ∷ ps) h = elim (Bool-cases (path_eq p q)) [
    | inl e ↦ rw (path_eq→eq p q e, text_eq_refl (render_path q))
    | inr e ↦ rw (report-Listed p ps (rw e at h)) (ground arith)
  ]

  -- The paths that are reported are the renderings of the first differences: those at which the two
  -- objects differ while they agree at every path above.
  pub compare-Listed :
      (old new : Fields) (t : Text)
      → Listed t (compare old new).changed_paths
        ↔ ((p : Segments) × IsFirstDifference p (object old) (object new) × (t ≡ render_path p))
  unfolding compare
  compare-Listed old new t =
      rw
        (
          any-sort text_ltb (text_eq t) (compare_value (object old) (object new) [] []),
          compare_value-eq (object old) (object new) [] [],
        )
        (
          λ h.
              let (p, m, e) = Listed-report t (differences (object old) (object new)) h in
              (p, (has-differences_iff p (object old) (object new)).0 m, e),
          λ (p, d, e). rw e (
              report-Listed p (differences (object old) (object new))
                ((has-differences_iff p (object old) (object new)).1 d)),
        )

  is_empty-any : (ts : List Text) → is_empty ts ≡ not (any (λ _. true) ts)
  is_empty-any [] = refl
  is_empty-any (t ∷ ts) = refl

  -- Nothing is listed exactly if nothing differs.
  nothing_listed :
      (ps : Paths) (v w : Value)
      → ps ≡ differences v w
      → (not (any (λ _. true) (report [] ps)) ≡ true) ↔ ((p : Segments) → differs_at p v w ≡ false)
  nothing_listed [] v w e = (
    λ _ p. elim (Bool-cases (differs_at p v w)) [
      | inl d ↦ let (q, m) = difference-listed p v w d in cc (rw (← e) at m)
      | inr d ↦ d
    ],
    λ _. refl,
  )
  nothing_listed (p ∷ ps) v w e = (
    λ h. cc,
    λ h.
        let m : has p (p ∷ ps) ≡ true = rw (path_eq_refl p) in
        cc (h p, ((has-differences_iff p v w).0 (subst (λ x. has p x ≡ true) e m)).0),
  )

  -- The objects count as identical exactly if they agree at every path: the same maps and lists, and
  -- equal scalars.
  pub compare-identical :
      (old new : Fields)
      → ((compare old new).identical ≡ true)
        ↔ ((p : Segments) → differs_at p (object old) (object new) ≡ false)
  unfolding compare
  compare-identical old new =
      rw
        (
          is_empty-any,
          any-sort text_ltb (λ _. true) (compare_value (object old) (object new) [] []),
          compare_value-eq (object old) (object new) [] [],
        )
        (nothing_listed (differences (object old) (object new)) (object old) (object new) refl)
