-- ===== src/Admission/Scope.antt =====
-- pkg/admission/validator.go: the part of the objects that a rule compares, and the split of the
-- changed paths.
pub mod Partition
use drift_sentinel.Base.{
  Bool, true, false, List, [], ◌∷◌, ◌++◌, if◌then◌else◌, Option, none, some, ◌≡◌, refl,
}
use drift_sentinel.Base.Text.{Text, codes, Unicode, text_eq, trim_space}
use drift_sentinel.Base.Result.{Result, ok, err, out_of_fuel, ◌>>=◌, wrap}
use drift_sentinel.Rules.Types.{Rule}
use drift_sentinel.Diff.Segment.{PathPattern}
use drift_sentinel.Diff.Value.{Fields}
use drift_sentinel.Diff.Parse.{parse_path, parse_patterns, match_any}
use drift_sentinel.Diff.Strip.{strip}
use drift_sentinel.Diff.Extract.{extract}
use drift_sentinel.Diff.Compare.{DiffResult, compare}
use drift_sentinel.Admission.Object.{clone_object, remove_annotation}

abbrev pub implicit_exclude_paths : List Text
implicit_exclude_paths =
    codes "status"
    ∷ codes "metadata.managedFields"
    ∷ codes "metadata.resourceVersion"
    ∷ codes "metadata.generation"
    ∷ codes "metadata.uid"
    ∷ codes "metadata.creationTimestamp"
    ∷ codes "metadata.selfLink"
    ∷ []

-- An error would be a panic at the start of the program.
abbrev pub must : Result (List PathPattern) → List PathPattern
must (ok patterns) = patterns
must _ = []

module _ ⦃u : Unicode⦄ where
  unfoldable pub implicit_exclude_patterns : List PathPattern
  implicit_exclude_patterns = must (parse_patterns implicit_exclude_paths)

  -- The pair of the old and the new object.
  abbrev pub Pair : Type 0
  Pair = Fields × Fields

  unfoldable pub apply_include : List Text → Pair → Result Pair
  apply_include [] (old, new) = ok (old, new)
  apply_include (p ∷ ps) (old, new) = do
    patterns ← wrap (λ e. codes "parse include patterns: " ++ e) (parse_patterns (p ∷ ps))
    ok (extract old patterns, extract new patterns)

  unfoldable pub apply_exclude : List Text → Pair → Result Pair
  apply_exclude [] (old, new) = ok (old, new)
  apply_exclude (p ∷ ps) (old, new) = do
    patterns ← wrap (λ e. codes "parse exclude patterns: " ++ e) (parse_patterns (p ∷ ps))
    ok (strip old patterns, strip new patterns)

  unfoldable pub prepare_objects : Fields → Fields → Rule → Result Pair
  unfolding apply_include apply_exclude
  prepare_objects old new rule = do
    let scoped : Pair = (strip old implicit_exclude_patterns, strip new implicit_exclude_patterns)
    included ← apply_include rule.include scoped
    apply_exclude rule.exclude included

  unfoldable pub diff_without_bypass_annotation : Fields → Fields → Rule → Result DiffResult
  unfolding prepare_objects
  diff_without_bypass_annotation old new rule = do
    let old_without = remove_annotation (clone_object old) rule.bypass
    let new_without = remove_annotation (clone_object new) rule.bypass
    (scoped_old, scoped_new) ← prepare_objects old_without new_without rule
    ok (compare scoped_old scoped_new)

  -- The mutable and the immutable paths.
  unfoldable pub partition_changed_paths : List Text → List PathPattern → List Text × List Text
  partition_changed_paths [] patterns = ([], [])
  partition_changed_paths (path ∷ paths) patterns =
      let (mutable, immutable) = partition_changed_paths paths patterns in
      if match_any path patterns then (path ∷ mutable, immutable) else (mutable, path ∷ immutable)
