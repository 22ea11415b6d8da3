-- ===== src/Admission/Validator/Forbidden.antt =====
-- When `Validate` forbids a request.
use drift_sentinel.Base.{
  ℕ, true, false, List, ◌++◌, Option, none, some, if◌then◌else◌, is_empty, ◌==◌, ◌≡◌, ◌⊎◌, refl,
  inl, inr, arith, Bool-cases,
}
use drift_sentinel.Base.Text.{Text, codes, Unicode, text_eq, text_eq_iff}
use drift_sentinel.Base.Result.{ok}
use drift_sentinel.Rules.Types.{Rule, Mode, mode_enforce}
use drift_sentinel.Diff.Value.{Fields}
use drift_sentinel.Diff.Segment.{PathPattern}
use drift_sentinel.Diff.Parse.{parse_patterns}
use drift_sentinel.Diff.Compare.{DiffResult, compare}
use drift_sentinel.Admission.Review.{AdmissionRequest, Decision}
use drift_sentinel.Admission.Scope.{
  prepare_objects, diff_without_bypass_annotation, partition_changed_paths,
}
use drift_sentinel.Admission.Validator.{
  effective_mode, violation, bypass_removal, judge_paths, judge_bypass_removal, judge_changes,
  removes_bypass, judge, select, validate,
}
use drift_sentinel.Admission.Flow.{
  Unmarshalled, Validator, Flow, go, stop, ◌>>=◌, stop_if, run, or_stop, allow, error_decision,
}
use drift_sentinel.Admission.Validator.Stops.{
  Stops, Stops-stop_if, Stops-or_stop, Stops-select, Stops-effective_mode,
}
use drift_sentinel.Admission.Validator.Selected.{IsSelected, select-inv, or_stop-inv, stop_if-inv}

abbrev pub IsForbidden : Decision → Type 0
IsForbidden d = d.status_code ≡ 403

abbrev Spares : Decision → Type 0
Spares d = (d.status_code == 403) ≡ false

-- A flow that ends with a 403 came through each step that never gives one.
IsForbidden-bind {ℓ} :
    {A : Type ℓ} (m : Flow A) (f : A → Flow Decision)
    → Stops Spares m
    → IsForbidden (run (m >>= f))
    → (a : A) × (m ≡ go a) × IsForbidden (run (f a))
IsForbidden-bind (go a) f h e = (a, refl, e)
IsForbidden-bind (stop d) f h e = absurd (ground arith)

passes-Spares : (reason name : Text) (mode : Mode) → Spares (allow reason name mode)
passes-Spares reason name mode = refl

fails-Spares :
    (rule : Option Rule) (code : ℕ) (e : Text)
    → (code ≡ 400) ⊎ (code ≡ 500)
    → Spares (error_decision rule code e)
fails-Spares none code e h = ground arith
fails-Spares (some rule) code e h = ground arith

module _ ⦃u : Unicode⦄ where
  -- Some path of the first list is one that no pattern matches.
  abbrev pub HasImmutable : List Text → List PathPattern → Type 0
  HasImmutable changed patterns = is_empty ((partition_changed_paths changed patterns).1) ≡ false

  -- The ways to a 403: an immutable path changed under the mode enforce, or the bypass annotation was
  -- taken away in a request that changes more.
  abbrev pub Offends : Rule → Mode → Fields → Fields → List Text → Type 0
  Offends rule mode old new changed =
      ((removes_bypass rule old new ≡ false)
        × (mode ≡ mode_enforce)
        × ((patterns : List PathPattern) × (parse_patterns rule.mutable ≡ ok patterns)
            × HasImmutable changed patterns))
      ⊎ ((removes_bypass rule old new ≡ true)
          × ((d : DiffResult) × (diff_without_bypass_annotation old new rule ≡ ok d)
              × (d.identical ≡ false)))

  violation-forbidden :
      (rule : Rule) (mode : Mode) (changed immutable : List Text)
      → IsForbidden (violation rule mode changed immutable)
      → mode ≡ mode_enforce
  unfolding violation
  violation-forbidden rule mode changed immutable h =
      elim (Bool-cases (text_eq mode mode_enforce)) [
        | inl e ↦ (text_eq_iff mode mode_enforce).0 e
        | inr e ↦ absurd (ground arith)
      ]

  judge_paths-forbidden :
      (rule : Rule) (mode : Mode) (changed : List Text) (patterns : List PathPattern)
      → IsForbidden (judge_paths rule mode changed patterns)
      → (mode ≡ mode_enforce) × HasImmutable changed patterns
  unfolding judge_paths
  judge_paths-forbidden rule mode changed patterns h =
      let (mutable, immutable) = partition_changed_paths changed patterns in
      elim (Bool-cases (is_empty immutable)) [
        | inl e ↦ absurd (omega (arith, rw e at h))
        | inr e ↦ (violation-forbidden rule mode changed immutable (rw e at h), e)
      ]

  judge_changes-forbidden :
      (rule : Rule) (mode : Mode) (diff : DiffResult)
      → IsForbidden (run (judge_changes rule mode diff))
      → (mode ≡ mode_enforce)
        × ((patterns : List PathPattern) × (parse_patterns rule.mutable ≡ ok patterns)
            × HasImmutable diff.changed_paths patterns)
  unfolding judge_changes
  judge_changes-forbidden rule mode diff h =
      let (patterns, a, h) =
        IsForbidden-bind
          (or_stop (λ e. error_decision (some rule) 500 (codes "parse mutable patterns: " ++ e))
            (parse_patterns rule.mutable))
          _
          (Stops-or_stop Spares _ (parse_patterns rule.mutable)
            λ e. fails-Spares (some rule) 500 (codes "parse mutable patterns: " ++ e) (inr refl))
          h in
      let (b, c) = judge_paths-forbidden rule mode diff.changed_paths patterns h in
      (b, (patterns, or_stop-inv _ (parse_patterns rule.mutable) patterns a, c))

  bypass_removal-forbidden :
      (rule : Rule) (mode : Mode) (diff without_bypass : DiffResult)
      → IsForbidden (bypass_removal rule mode diff without_bypass)
      → without_bypass.identical ≡ false
  unfolding bypass_removal
  bypass_removal-forbidden rule mode diff without_bypass h =
      elim (Bool-cases without_bypass.identical) [
        | inl e ↦ absurd (omega (arith, rw e at h))
        | inr e ↦ e
      ]

  judge_bypass_removal-forbidden :
      (rule : Rule) (mode : Mode) (old new : Fields) (diff : DiffResult)
      → IsForbidden (run (judge_bypass_removal rule mode old new diff))
      → (d : DiffResult) × (diff_without_bypass_annotation old new rule ≡ ok d)
        × (d.identical ≡ false)
  unfolding judge_bypass_removal
  judge_bypass_removal-forbidden rule mode old new diff h =
      let (d, a, h) =
        IsForbidden-bind
          (or_stop (error_decision (some rule) 500) (diff_without_bypass_annotation old new rule)) _
          (Stops-or_stop Spares _ (diff_without_bypass_annotation old new rule)
            λ e. fails-Spares (some rule) 500 e (inr refl))
          h in
      (
        d,
        or_stop-inv _ (diff_without_bypass_annotation old new rule) d a,
        bypass_removal-forbidden rule mode diff d h,
      )

  -- What was compared, and that it differs.
  abbrev pub Compared : Rule → Fields → Fields → DiffResult → Type 0
  Compared rule old new diff =
      ((scoped : Fields × Fields) × (prepare_objects old new rule ≡ ok scoped)
        × (compare scoped.0 scoped.1 ≡ diff))
      × (diff.identical ≡ false)

  branch-forbidden :
      (rule : Rule) (mode : Mode) (old new : Fields) (diff : DiffResult)
      → IsForbidden (
          run (
            if removes_bypass rule old new
            then judge_bypass_removal rule mode old new diff
            else judge_changes rule mode diff))
      → Offends rule mode old new diff.changed_paths
  branch-forbidden rule mode old new diff h = elim (Bool-cases (removes_bypass rule old new)) [
    | inl e ↦ inr (e, judge_bypass_removal-forbidden rule mode old new diff (rw e at h))
    | inr e ↦
        let (enforced, immutable) = judge_changes-forbidden rule mode diff (rw e at h) in
        inl (e, enforced, immutable)
  ]

  judge-forbidden :
      (rule : Rule) (mode : Mode) (old new : Fields)
      → IsForbidden (run (judge rule mode old new))
      → (diff : DiffResult) × Compared rule old new diff
        × Offends rule mode old new diff.changed_paths
  unfolding judge
  judge-forbidden rule mode old new h =
      let (scoped, a, h) =
        IsForbidden-bind (or_stop (error_decision (some rule) 500) (prepare_objects old new rule)) _
          (Stops-or_stop Spares _ (prepare_objects old new rule)
            λ e. fails-Spares (some rule) 500 e (inr refl))
          h in
      let diff = compare scoped.0 scoped.1 in
      let (_, b, h) =
        IsForbidden-bind
          (stop_if diff.identical (allow (codes "no changes detected") rule.name mode)) _
          (Stops-stop_if Spares _ _ (passes-Spares (codes "no changes detected") rule.name mode))
          h in
      let compared : Compared rule old new diff = (
        (scoped, or_stop-inv _ (prepare_objects old new rule) scoped a, refl),
        stop_if-inv _ _ b,
      ) in
      (diff, compared, branch-forbidden rule mode old new diff h)

  -- A request that `Validate` denies with 403 was selected: it is an update or names no operation, its
  -- objects decode, the store's match for it covers its user, and the new object has no bypass
  -- annotation. The two objects differ in the scope of that rule; and either the effective mode is
  -- `enforce` and some changed path is matched by no mutable pattern, or the request takes the bypass
  -- annotation away and the objects differ without it.
  pub validate-forbidden :
      (unmarshal : Text → Unmarshalled) (v : Validator) (req : AdmissionRequest)
      → (validate unmarshal v req).status_code ≡ 403
      → (old new : Fields) × (rule : Rule) × (mode : Mode) × (diff : DiffResult) × IsSelected
          unmarshal v req
          (old, new, rule)
        × (effective_mode v rule req.namespace ≡ go mode)
        × Compared rule old new diff
        × Offends rule mode old new diff.changed_paths
  unfolding validate
  validate-forbidden unmarshal v req h =
      let ((old, new, rule), a, h) =
        IsForbidden-bind (select unmarshal v req) _
          (Stops-select Spares passes-Spares fails-Spares unmarshal v req) h in
      let (mode, b, h) =
        IsForbidden-bind (effective_mode v rule req.namespace) _
          (Stops-effective_mode Spares passes-Spares fails-Spares v rule req.namespace) h in
      let (diff, c, d) = judge-forbidden rule mode old new h in
      (old, new, rule, mode, diff, select-inv unmarshal v req (old, new, rule) a, b, c, d)
