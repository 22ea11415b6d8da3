-- ===== src/Admission/Scope/Partition.antt =====
-- What the split of the changed paths gives, and how `MatchAny` meets the paths that `Compare` writes.
use drift_sentinel.Base.{
  Bool, true, false, not, List, [], ◌∷◌, if◌then◌else◌, all, ◌≡◌, ◌↔◌, refl, arith, Bool-cases, inl,
  inr,
}
use drift_sentinel.Base.Text.{Text, Unicode, text_eq, text_eq_iff, text_eq_refl}
use drift_sentinel.Diff.Segment.{Segment, Segments, PathPattern, matches_path, matches_any_path}
use drift_sentinel.Diff.Render.{render_path}
use drift_sentinel.Diff.Parse.{match_any}
use drift_sentinel.Diff.RoundTrip.{ArePrintable, parse_path-render_path}
use drift_sentinel.Diff.Compare.Report.{Listed}
use drift_sentinel.Admission.Scope.{partition_changed_paths}

-- The elements that pass the test, in their order.
abbrev pub filter : (Text → Bool) → List Text → List Text
filter f [] = []
filter f (t ∷ ts) = if f t then t ∷ filter f ts else filter f ts

split-step :
    (b : Bool) (t : Text) (ts us : List Text)
    → ◌≡◌ {A = List Text × List Text}
        (if b then (t ∷ ts, us) else (ts, t ∷ us))
        (if b then t ∷ ts else ts, if not b then t ∷ us else us)
split-step true t ts us = refl
split-step false t ts us = refl

module _ ⦃u : Unicode⦄ where
  -- The mutable paths are those that some pattern matches, the immutable ones the others, both in the
  -- order of the changed paths.
  pub partition_changed_paths-eq :
      (paths : List Text) (patterns : List PathPattern)
      → partition_changed_paths paths patterns
        ≡ (filter (λ p. match_any p patterns) paths, filter (λ p. not (match_any p patterns)) paths)
  unfolding partition_changed_paths
  partition_changed_paths-eq [] patterns = refl
  partition_changed_paths-eq (p ∷ paths) patterns =
      rw (partition_changed_paths-eq paths patterns) (split-step (match_any p patterns) p _ _)

  -- `MatchAny` on the text of a path finds what the pattern matching on segments finds. The path has a
  -- segment, its keys hold no single quote, and its indices are those of a list.
  pub match_any-render_path :
      (s : Segment) (ss : Segments) (patterns : List PathPattern)
      → ArePrintable (s ∷ ss)
      → match_any (render_path (s ∷ ss)) patterns ≡ matches_any_path (s ∷ ss) patterns
  unfolding match_any matches_any_path matches_path
  match_any-render_path s ss patterns h = rw (parse_path-render_path s ss h) refl

-- All elements pass exactly if each listed text does.
pub all-Listed :
    (f : Text → Bool) (ts : List Text) → (all f ts ≡ true) ↔ ((t : Text) → Listed t ts → f t ≡ true)
all-Listed f [] = (λ _ t h. cc, λ _. refl)
all-Listed f (t ∷ ts) = (
  λ h t' m. elim (Bool-cases (text_eq t' t)) [
    | inl e ↦ rw (((text_eq_iff t' t).0 e)) (ground arith)
    | inr e ↦ (all-Listed f ts).0 (ground arith) t' (rw e at m)
  ],
  λ h.
      let first : f t ≡ true = h t (rw (text_eq_refl t) (ground arith)) in
      let rest : all f ts ≡ true = (all-Listed f ts).1 (λ t' m. h t' (ground arith)) in
      ground arith,
)
