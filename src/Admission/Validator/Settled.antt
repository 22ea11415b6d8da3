-- ===== src/Admission/Validator/Settled.antt =====
-- The decision of `Validate` once the objects are scoped and the mutable patterns parsed.
use drift_sentinel.Base.{
  Bool, true, false, not, List, [], ◌∷◌, if◌then◌else◌, is_empty, all, ◌≡◌, refl, inl, inr,
  Bool-cases,
}
use drift_sentinel.Base.Text.{Text, codes, Unicode}
use drift_sentinel.Base.Result.{ok}
use drift_sentinel.Rules.Types.{Rule, Mode}
use drift_sentinel.Diff.Value.{Fields}
use drift_sentinel.Diff.Segment.{PathPattern}
use drift_sentinel.Diff.Parse.{parse_patterns, match_any}
use drift_sentinel.Diff.Compare.{DiffResult, compare}
use drift_sentinel.Admission.Review.{AdmissionRequest, Decision}
use drift_sentinel.Admission.Scope.{prepare_objects}
use drift_sentinel.Admission.Scope.Partition.{filter, partition_changed_paths-eq}
use drift_sentinel.Admission.Validator.{
  removes_bypass, effective_mode, violation, judge_paths, judge_changes, judge, select, validate,
}
use drift_sentinel.Admission.Flow.{Unmarshalled, Validator, go, run, allow}

pub is_empty-filter :
    (f : Text → Bool) (ts : List Text) → is_empty (filter (λ t. not (f t)) ts) ≡ all f ts
is_empty-filter f [] = refl
is_empty-filter f (t ∷ ts) = elim (Bool-cases (f t)) [
  | inl e ↦ rw e (is_empty-filter f ts)
  | inr e ↦ rw e
]

pub is_empty-eq : (ts : List Text) → true ≡ is_empty ts → ts ≡ []
is_empty-eq [] h = refl
is_empty-eq (t ∷ ts) h = cc

module _ ⦃u : Unicode⦄ where
  -- The decision, once the objects are scoped and the mutable patterns parsed.
  abbrev pub settled : Rule → Mode → DiffResult → List PathPattern → Decision
  settled rule mode diff patterns =
      if diff.identical
      then allow (codes "no changes detected") rule.name mode
      else judge_paths rule mode diff.changed_paths patterns

  pub judge-settled :
      (rule : Rule) (mode : Mode) (old new scoped_old scoped_new : Fields)
      (patterns : List PathPattern)
      → removes_bypass rule old new ≡ false
      → prepare_objects old new rule ≡ ok (scoped_old, scoped_new)
      → parse_patterns rule.mutable ≡ ok patterns
      → run (judge rule mode old new) ≡ settled rule mode (compare scoped_old scoped_new) patterns
  unfolding judge judge_changes
  judge-settled rule mode old new scoped_old scoped_new patterns b p m =
      rw (p, b, m)
        (elim (Bool-cases (compare scoped_old scoped_new).identical) [
          | inl e ↦ rw e
          | inr e ↦ rw e
        ])

  pub validate-settled :
      (unmarshal : Text → Unmarshalled) (v : Validator) (req : AdmissionRequest)
      (old new scoped_old scoped_new : Fields) (rule : Rule) (mode : Mode)
      (patterns : List PathPattern)
      → select unmarshal v req ≡ go (old, new, rule)
      → effective_mode v rule req.namespace ≡ go mode
      → removes_bypass rule old new ≡ false
      → prepare_objects old new rule ≡ ok (scoped_old, scoped_new)
      → parse_patterns rule.mutable ≡ ok patterns
      → validate unmarshal v req ≡ settled rule mode (compare scoped_old scoped_new) patterns
  unfolding validate
  validate-settled unmarshal v req old new scoped_old scoped_new rule mode patterns s e b p m =
      rw (s, e) (judge-settled rule mode old new scoped_old scoped_new patterns b p m)

  pub identical-lem :
      (old new : Fields) → (compare old new).identical ≡ is_empty (compare old new).changed_paths
  unfolding compare
  identical-lem old new = refl

  -- The immutable ones of the paths.
  abbrev pub immutable_paths : List Text → List PathPattern → List Text
  immutable_paths changed patterns = filter (λ p. not (match_any p patterns)) changed

  pub judge_paths-eq :
      (rule : Rule) (mode : Mode) (changed : List Text) (patterns : List PathPattern)
      → judge_paths rule mode changed patterns ≡ (
          if all (λ p. match_any p patterns) changed
          then record (allow (codes "only mutable fields changed") rule.name mode) {
            changed_paths = changed;
          }
          else violation rule mode changed (immutable_paths changed patterns))
  unfolding judge_paths
  judge_paths-eq rule mode changed patterns = rw (
    partition_changed_paths-eq changed patterns,
    is_empty-filter (λ p. match_any p patterns) changed,
  )
