-- ===== src/Admission/Validator/Lenient.antt =====
-- What `Validate` decides under the modes that let changes pass.
use drift_sentinel.Base.{
  Bool, true, false, not, List, [], is_empty, all, ◌≡◌, ◌⊎◌, refl, inl, inr, Bool-cases,
}
use drift_sentinel.Base.Text.{Text, Unicode, text_eq}
use drift_sentinel.Base.Result.{ok}
use drift_sentinel.Rules.Types.{Rule, Mode, mode_warn, mode_dry_run, mode_off}
use drift_sentinel.Diff.Value.{Fields}
use drift_sentinel.Diff.Segment.{PathPattern}
use drift_sentinel.Diff.Parse.{parse_patterns, match_any}
use drift_sentinel.Diff.Compare.{DiffResult, compare}
use drift_sentinel.Admission.Review.{AdmissionRequest, Decision}
use drift_sentinel.Admission.Scope.{prepare_objects}
use drift_sentinel.Admission.Scope.Partition.{filter}
use drift_sentinel.Admission.Validator.{removes_bypass, effective_mode, violation, select, validate}
use drift_sentinel.Admission.Flow.{Unmarshalled, Validator, go}
use drift_sentinel.Admission.Validator.Settled.{
  settled, validate-settled, identical-lem, immutable_paths, judge_paths-eq, is_empty-filter,
  is_empty-eq,
}

module _ ⦃u : Unicode⦄ where
  -- The modes that let a change of immutable paths pass.
  abbrev pub IsLenient : Mode → Type 0
  IsLenient mode = (mode ≡ mode_warn) ⊎ (mode ≡ mode_dry_run) ⊎ (mode ≡ mode_off)

  -- Allowed, with the changed paths and the immutable ones of them on the record.
  abbrev pub Records : Decision → List Text → List PathPattern → Type 0
  Records d changed patterns =
      (d.allowed ≡ true)
      × (d.changed_paths ≡ changed)
      × (d.denied_paths ≡ immutable_paths changed patterns)

  violation-lenient :
      (rule : Rule) (mode : Mode) (changed : List Text) (patterns : List PathPattern)
      → IsLenient mode
      → Records (violation rule mode changed (immutable_paths changed patterns)) changed patterns
  unfolding violation text_eq
  violation-lenient rule mode changed patterns (inl e) = rw e (refl, refl, refl)
  violation-lenient rule mode changed patterns (inr (inl e)) = rw e (refl, refl, refl)
  violation-lenient rule mode changed patterns (inr (inr e)) = rw e (refl, refl, refl)

  filter-none :
      (f : Text → Bool) (ts : List Text) → all f ts ≡ true → filter (λ t. not (f t)) ts ≡ []
  filter-none f ts h = is_empty-eq (filter (λ t. not (f t)) ts) (rw (is_empty-filter f ts, h) refl)

  settled-lenient :
      (rule : Rule) (mode : Mode) (diff : DiffResult) (patterns : List PathPattern)
      → diff.identical ≡ is_empty diff.changed_paths
      → IsLenient mode
      → Records (settled rule mode diff patterns) diff.changed_paths patterns
  settled-lenient rule mode diff patterns h l = elim (Bool-cases diff.identical) [
    | inl e ↦ rw (e, is_empty-eq diff.changed_paths (rw e at h)) (refl, refl, refl)
    | inr e ↦
        rw (e, judge_paths-eq rule mode diff.changed_paths patterns)
          (elim (Bool-cases (all (λ p. match_any p patterns) diff.changed_paths)) [
            | inl f ↦
                rw (f, filter-none (λ p. match_any p patterns) diff.changed_paths f)
                  (refl, refl, refl)
            | inr f ↦ rw f (violation-lenient rule mode diff.changed_paths patterns l)
          ])
  ]

  -- A request that is judged under the mode `warn`, `dry-run` or `off`, that does not take the bypass
  -- annotation away, whose objects are scoped and whose mutable patterns parse: it is allowed, whatever
  -- changed, and the decision records the changed paths and those of them that no mutable pattern matches.
  pub validate-lenient :
      (unmarshal : Text → Unmarshalled) (v : Validator) (req : AdmissionRequest)
      (old new scoped_old scoped_new : Fields) (rule : Rule) (mode : Mode)
      (patterns : List PathPattern)
      → select unmarshal v req ≡ go (old, new, rule)
      → effective_mode v rule req.namespace ≡ go mode
      → IsLenient mode
      → removes_bypass rule old new ≡ false
      → prepare_objects old new rule ≡ ok (scoped_old, scoped_new)
      → parse_patterns rule.mutable ≡ ok patterns
      → Records (validate unmarshal v req) (compare scoped_old scoped_new).changed_paths patterns
  validate-lenient unmarshal v req old new scoped_old scoped_new rule mode patterns s e l b p m =
      rw
        (validate-settled unmarshal v req old new scoped_old scoped_new rule mode patterns s e b p
          m)
        (settled-lenient rule mode (compare scoped_old scoped_new) patterns
          (identical-lem scoped_old scoped_new) l)
