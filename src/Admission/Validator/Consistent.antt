-- ===== src/Admission/Validator/Consistent.antt =====
-- Which decisions `Validate` makes, over all branches.
use drift_sentinel.Base.{
  ℕ, true, false, List, ◌++◌, Option, none, some, is_empty, if-both, ◌≡◌, ◌⊎◌, refl, inl, inr,
}
use drift_sentinel.Base.Text.{Text, codes, Unicode, text_eq}
use drift_sentinel.Rules.Types.{Rule, Mode, mode_enforce, mode_warn, mode_dry_run, mode_off}
use drift_sentinel.Diff.Value.{Fields}
use drift_sentinel.Diff.Segment.{PathPattern}
use drift_sentinel.Diff.Compare.{DiffResult}
use drift_sentinel.Admission.Review.{AdmissionRequest, Decision}
use drift_sentinel.Admission.Validator.{
  effective_mode, violation, bypass_removal, judge_paths, judge_bypass_removal, judge_changes,
  judge, select, validate, removes_bypass,
}
use drift_sentinel.Admission.Flow.{Unmarshalled, Validator, stop_if, or_stop, error_decision, allow}
use drift_sentinel.Diff.Compare.{compare}
use drift_sentinel.Admission.Validator.Stops.{
  Decides, Decides-bind, Stops-stop_if, Stops-or_stop, Stops-select, Stops-effective_mode,
}
use drift_sentinel.Diff.Parse.{parse_patterns}
use drift_sentinel.Admission.Scope.{
  prepare_objects, diff_without_bypass_annotation, partition_changed_paths,
}

-- The status codes of a denial.
abbrev pub IsDenialCode : ℕ → Type 0
IsDenialCode code = (code ≡ 400) ⊎ (code ≡ 403) ⊎ (code ≡ 500)

-- Allowed without a status code, or denied with one.
abbrev pub IsConsistent : Decision → Type 0
IsConsistent d =
    ((d.allowed ≡ true) × (d.status_code ≡ 0) × (d.result ≡ codes "allowed"))
    ⊎ ((d.allowed ≡ false) × IsDenialCode d.status_code × (d.result ≡ codes "denied"))

module _ ⦃u : Unicode⦄ where
  violation-IsConsistent :
      (rule : Rule) (mode : Mode) (changed immutable : List Text)
      → IsConsistent (violation rule mode changed immutable)
  unfolding violation
  violation-IsConsistent rule mode changed immutable =
      if-both IsConsistent (text_eq mode mode_enforce) (inr (refl, inr (inl refl), refl)) (
        if-both IsConsistent (text_eq mode mode_warn) (inl (refl, refl, refl)) (
          if-both IsConsistent (text_eq mode mode_dry_run) (inl (refl, refl, refl)) (
            if-both IsConsistent (text_eq mode mode_off) (inl (refl, refl, refl))
              (inr (refl, inr (inr refl), refl)))))

  bypass_removal-IsConsistent :
      (rule : Rule) (mode : Mode) (diff without_bypass : DiffResult)
      → IsConsistent (bypass_removal rule mode diff without_bypass)
  unfolding bypass_removal
  bypass_removal-IsConsistent rule mode diff without_bypass =
      if-both IsConsistent without_bypass.identical (inl (refl, refl, refl))
        (inr (refl, inr (inl refl), refl))

  judge_paths-IsConsistent :
      (rule : Rule) (mode : Mode) (changed : List Text) (patterns : List PathPattern)
      → IsConsistent (judge_paths rule mode changed patterns)
  unfolding judge_paths
  judge_paths-IsConsistent rule mode changed patterns =
      let (mutable, immutable) = partition_changed_paths changed patterns in
      if-both IsConsistent (is_empty immutable) (inl (refl, refl, refl))
        (violation-IsConsistent rule mode changed immutable)

  passes-IsConsistent : (reason name : Text) (mode : Mode) → IsConsistent (allow reason name mode)
  passes-IsConsistent reason name mode = inl (refl, refl, refl)

  fails-IsConsistent :
      (rule : Option Rule) (code : ℕ) (e : Text)
      → (code ≡ 400) ⊎ (code ≡ 500)
      → IsConsistent (error_decision rule code e)
  fails-IsConsistent none code e (inl h) = inr (refl, inl h, refl)
  fails-IsConsistent none code e (inr h) = inr (refl, inr (inr h), refl)
  fails-IsConsistent (some rule) code e (inl h) = inr (refl, inl h, refl)
  fails-IsConsistent (some rule) code e (inr h) = inr (refl, inr (inr h), refl)

  error-IsConsistent : (rule : Rule) (e : Text) → IsConsistent (error_decision (some rule) 500 e)
  error-IsConsistent rule e = fails-IsConsistent (some rule) 500 e (inr refl)

  judge-IsConsistent :
      (rule : Rule) (mode : Mode) (old new : Fields)
      → Decides IsConsistent (judge rule mode old new)
  unfolding judge judge_bypass_removal judge_changes
  judge-IsConsistent rule mode old new =
      Decides-bind IsConsistent
        (or_stop (error_decision (some rule) 500) (prepare_objects old new rule)) _
        (Stops-or_stop IsConsistent (error_decision (some rule) 500) (prepare_objects old new rule)
          (error-IsConsistent rule))
        λ (scoped_old, scoped_new).
          Decides-bind IsConsistent (stop_if (compare scoped_old scoped_new).identical _) _
            (Stops-stop_if IsConsistent (compare scoped_old scoped_new).identical _
              (inl (refl, refl, refl)))
            λ _.
              if-both (Decides IsConsistent) (removes_bypass rule old new)
                (Decides-bind IsConsistent _ _
                  (Stops-or_stop IsConsistent _ (diff_without_bypass_annotation old new rule)
                    (error-IsConsistent rule))
                  (bypass_removal-IsConsistent rule mode (compare scoped_old scoped_new)))
                (Decides-bind IsConsistent _ _
                  (Stops-or_stop IsConsistent _ (parse_patterns rule.mutable)
                    λ e. error-IsConsistent rule (codes "parse mutable patterns: " ++ e))
                  (judge_paths-IsConsistent rule mode
                    (compare scoped_old scoped_new).changed_paths))

  -- `Validate` allows with no status code, or denies with 400, 403 or 500, on every branch, and
  -- `Result` says which.
  pub validate-IsConsistent :
      (unmarshal : Text → Unmarshalled) (v : Validator) (req : AdmissionRequest)
      → IsConsistent (validate unmarshal v req)
  unfolding validate
  validate-IsConsistent unmarshal v req =
      Decides-bind IsConsistent (select unmarshal v req) _
        (Stops-select IsConsistent passes-IsConsistent fails-IsConsistent unmarshal v req)
        λ (old, new, rule).
          Decides-bind IsConsistent (effective_mode v rule req.namespace) _
            (Stops-effective_mode IsConsistent passes-IsConsistent fails-IsConsistent v rule
              req.namespace)
            λ mode. judge-IsConsistent rule mode old new
