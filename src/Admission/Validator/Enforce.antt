-- ===== src/Admission/Validator/Enforce.antt =====
-- What `Validate` decides under the mode `enforce`.
use drift_sentinel.Base.{
  true, false, List, [], ◌∷◌, is_empty, all, ◌≡◌, ◌↔◌, refl, inl, inr, Bool-cases,
}
use drift_sentinel.Base.Text.{Text, Unicode, text_eq}
use drift_sentinel.Base.Result.{ok}
use drift_sentinel.Rules.Types.{Rule, mode_enforce}
use drift_sentinel.Diff.Value.{object, Fields}
use drift_sentinel.Diff.Segment.{Segments, PathPattern, matches_any_path}
use drift_sentinel.Diff.Render.{render_path}
use drift_sentinel.Diff.Parse.{parse_patterns, match_any}
use drift_sentinel.Diff.RoundTrip.{ArePrintable}
use drift_sentinel.Diff.Compare.{DiffResult, compare}
use drift_sentinel.Diff.Compare.Nodes.{IsFirstDifference}
use drift_sentinel.Diff.Compare.Report.{compare-Listed}
use drift_sentinel.Admission.Review.{AdmissionRequest}
use drift_sentinel.Admission.Scope.{prepare_objects}
use drift_sentinel.Admission.Scope.Partition.{match_any-render_path, all-Listed}
use drift_sentinel.Admission.Validator.{
  removes_bypass, effective_mode, violation, judge_paths, select, validate,
}
use drift_sentinel.Admission.Flow.{Unmarshalled, Validator, go}
use drift_sentinel.Admission.Validator.Settled.{
  settled, validate-settled, identical-lem, immutable_paths, judge_paths-eq, is_empty-eq,
}

module _ ⦃u : Unicode⦄ where
  violation-enforce :
      (rule : Rule) (changed immutable : List Text)
      → (violation rule mode_enforce changed immutable).allowed ≡ false
  unfolding violation text_eq
  violation-enforce rule changed immutable = refl

  judge_paths-enforce :
      (rule : Rule) (changed : List Text) (patterns : List PathPattern)
      → (judge_paths rule mode_enforce changed patterns).allowed
        ≡ all (λ p. match_any p patterns) changed
  judge_paths-enforce rule changed patterns =
      rw (judge_paths-eq rule mode_enforce changed patterns)
        (elim (Bool-cases (all (λ p. match_any p patterns) changed)) [
          | inl e ↦ rw e
          | inr e ↦ rw e (violation-enforce rule changed (immutable_paths changed patterns))
        ])

  settled-enforce :
      (rule : Rule) (diff : DiffResult) (patterns : List PathPattern)
      → diff.identical ≡ is_empty diff.changed_paths
      → (settled rule mode_enforce diff patterns).allowed
        ≡ all (λ p. match_any p patterns) diff.changed_paths
  settled-enforce rule diff patterns h = elim (Bool-cases diff.identical) [
    | inl e ↦ rw (e, is_empty-eq diff.changed_paths (rw e at h)) refl
    | inr e ↦ rw e (judge_paths-enforce rule diff.changed_paths patterns)
  ]

  root-same : (old new : Fields) → IsFirstDifference [] (object old) (object new) → ⊥
  root-same old new h = cc (h.0)

  matched-path :
      (old new : Fields) (patterns : List PathPattern) (p : Segments)
      → ArePrintable p
      → IsFirstDifference p (object old) (object new)
      → match_any (render_path p) patterns ≡ true
      → matches_any_path p patterns ≡ true
  matched-path old new patterns [] a d h = absurd (root-same old new d)
  matched-path old new patterns (s ∷ ss) a d h = rw (← match_any-render_path s ss patterns a) h

  matched-text :
      (old new : Fields) (patterns : List PathPattern) (p : Segments)
      → ArePrintable p
      → IsFirstDifference p (object old) (object new)
      → matches_any_path p patterns ≡ true
      → match_any (render_path p) patterns ≡ true
  matched-text old new patterns [] a d h = absurd (root-same old new d)
  matched-text old new patterns (s ∷ ss) a d h = rw (match_any-render_path s ss patterns a) h

  -- What the texts say is what the paths say.
  matched_iff :
      (old new : Fields) (patterns : List PathPattern)
      → ((p : Segments) → IsFirstDifference p (object old) (object new) → ArePrintable p)
      → (all (λ t. match_any t patterns) (compare old new).changed_paths ≡ true) ↔ (
          (p : Segments)
          → IsFirstDifference p (object old) (object new)
          → matches_any_path p patterns ≡ true)
  matched_iff old new patterns printable = (
    λ h p d. matched-path old new patterns p (printable p d) d (
        (all-Listed (λ t. match_any t patterns) (compare old new).changed_paths).0 h (render_path p)
          ((compare-Listed old new (render_path p)).1 (p, d, refl))),
    λ h. (all-Listed (λ t. match_any t patterns) (compare old new).changed_paths).1 (λ t l.
        let (p, d, e) = (compare-Listed old new t).0 l in
        rw e (matched-text old new patterns p (printable p d) d (h p d))),
  )

  -- For a request that is judged under the mode `enforce`, that does not take the bypass annotation
  -- away, whose objects are scoped and whose mutable patterns parse: it is allowed exactly if some
  -- mutable pattern matches each path at which the scoped objects differ while they agree above. The
  -- keys on these paths have no single quote, and the indices are those of a list.
  pub validate-enforce :
      (unmarshal : Text → Unmarshalled) (v : Validator) (req : AdmissionRequest)
      (old new scoped_old scoped_new : Fields) (rule : Rule) (patterns : List PathPattern)
      → select unmarshal v req ≡ go (old, new, rule)
      → effective_mode v rule req.namespace ≡ go mode_enforce
      → removes_bypass rule old new ≡ false
      → prepare_objects old new rule ≡ ok (scoped_old, scoped_new)
      → parse_patterns rule.mutable ≡ ok patterns
      → ((p : Segments)
          → IsFirstDifference p (object scoped_old) (object scoped_new)
          → ArePrintable p)
      → ((validate unmarshal v req).allowed ≡ true) ↔ (
          (p : Segments)
          → IsFirstDifference p (object scoped_old) (object scoped_new)
          → matches_any_path p patterns ≡ true)
  validate-enforce unmarshal v req old new scoped_old scoped_new rule patterns s e b p m printable =
      rw
        (
          validate-settled unmarshal v req old new scoped_old scoped_new rule mode_enforce patterns
              s e b p m,
          settled-enforce rule (compare scoped_old scoped_new) patterns
              (identical-lem scoped_old scoped_new),
        )
        (matched_iff scoped_old scoped_new patterns printable)
