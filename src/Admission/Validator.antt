-- ===== src/Admission/Validator.antt =====
-- pkg/admission/validator.go: `Validate`. Each `return` of the method ends the flow of its steps.
pub mod Stops
pub mod Consistent
pub mod Selected
pub mod Forbidden
pub mod Settled
pub mod Enforce
pub mod Lenient
pub mod Bypass
use drift_sentinel.Base.{
  ℕ, Bool, true, false, not, ◌&&◌, ◌||◌, List, [], ◌∷◌, ◌++◌, Option, none, some, if◌then◌else◌,
  is_empty,
}
use drift_sentinel.Base.Text.{Text, codes, Unicode, text_eq, join}
use drift_sentinel.Base.Quote.{quote}
use drift_sentinel.Base.Result.{Result, ok, err, out_of_fuel}
use drift_sentinel.Rules.Types.{
  Resolved, found, unresolved, unset, Rule, Mode, mode_enforce, mode_warn, mode_dry_run, mode_off,
  namespace_mode_annotation, MatchInput,
}
use drift_sentinel.Rules.Store.{Store, new_store}
use drift_sentinel.Rules.Matcher.{store_match}
use drift_sentinel.Diff.Value.{Fields, end}
use drift_sentinel.Diff.Segment.{PathPattern}
use drift_sentinel.Diff.Parse.{parse_patterns}
use drift_sentinel.Diff.Compare.{DiffResult, compare}
use drift_sentinel.Admission.Review.{AdmissionRequest, Decision, empty_decision}
use drift_sentinel.Admission.Object.{has_true_annotation, extract_labels, contains_string}
use drift_sentinel.Admission.Scope.{
  prepare_objects, diff_without_bypass_annotation, partition_changed_paths,
}
use drift_sentinel.Admission.Flow.{
  Flow, Unmarshalled, Validator, allow, decode_object, decoded, error_decision, go, malformed,
  map_or_stop, new_validator, nothing, or_stop, run, stop, stop_if, ◌>>=◌, ◌>>◌,
}

abbrev pub no_matching_rule : Decision
no_matching_rule = allow (codes "no matching rule") [] mode_off

abbrev pub rule_or_stop : Option Rule → Flow Rule
rule_or_stop none = stop no_matching_rule
rule_or_stop (some rule) = go rule

-- The mode of the namespace, if a resolver is set and finds one.
abbrev pub resolved_mode : ⦃u : Unicode⦄ → Rule → Resolved → Flow Mode
resolved_mode rule unset = go rule.mode
resolved_mode rule (found mode) = go mode
resolved_mode rule (unresolved e) = stop (
    error_decision (some rule) 500
      (codes "resolve namespace annotation " ++ quote namespace_mode_annotation ++ codes ": " ++ e))

abbrev pub resolve_with : ⦃u : Unicode⦄ → Rule → Option (Text → Resolved) → Text → Flow Mode
resolve_with rule none namespace = go rule.mode
resolve_with rule (some resolve) namespace =
    if text_eq namespace [] then go rule.mode else resolved_mode rule (resolve namespace)

unfoldable pub effective_mode : ⦃u : Unicode⦄ → Validator → Rule → Text → Flow Mode
effective_mode v rule namespace = resolve_with rule v.resolver namespace

abbrev pub violation_reason : List Text → Text
violation_reason immutable =
    codes "Drift Sentinel: immutable fields changed: " ++ join (codes ", ") immutable

module _ ⦃u : Unicode⦄ where
  -- The switch over the mode, for a change of immutable paths.
  unfoldable pub violation : Rule → Mode → List Text → List Text → Decision
  violation rule mode changed immutable =
      let reason = violation_reason immutable in
      let decision : Decision = record empty_decision {
        changed_paths = changed;
        denied_paths = immutable;
        rule_name = rule.name;
        mode = mode;
      } in
      if text_eq mode mode_enforce
      then record decision {
        allowed = false;
        status_code = 403;
        reason = reason;
        result = codes "denied";
      }
      else if text_eq mode mode_warn
      then record decision {
        allowed = true;
        reason = reason;
        result = codes "allowed";
        warnings = reason ∷ [];
      }
      else if text_eq mode mode_dry_run
      then record decision {
        allowed = true;
        reason = codes "would deny: " ++ reason;
        result = codes "allowed";
      }
      else if text_eq mode mode_off
      then record decision { allowed = true; reason = reason; result = codes "allowed" }
      else error_decision (some rule) 500 (codes "unsupported mode " ++ quote mode)

  -- The bypass annotation was removed: nothing else may change.
  unfoldable pub bypass_removal : Rule → Mode → DiffResult → DiffResult → Decision
  bypass_removal rule mode diff without_bypass =
      if without_bypass.identical
      then record (allow (codes "bypass marker removed") rule.name mode) {
        changed_paths = diff.changed_paths;
      }
      else record empty_decision {
        status_code = 403;
        reason = codes "bypass annotation removal must be the only change in the request";
        result = codes "denied";
        changed_paths = diff.changed_paths;
        denied_paths = without_bypass.changed_paths;
        rule_name = rule.name;
        mode = mode;
      }

  -- From the changed paths to the decision.
  unfoldable pub judge_paths : Rule → Mode → List Text → List PathPattern → Decision
  unfolding violation
  judge_paths rule mode changed patterns =
      let (mutable, immutable) = partition_changed_paths changed patterns in
      if is_empty immutable
      then record (allow (codes "only mutable fields changed") rule.name mode) {
        changed_paths = changed;
      }
      else violation rule mode changed immutable

  -- The branch for a request that takes the bypass annotation away.
  unfoldable pub judge_bypass_removal : Rule → Mode → Fields → Fields → DiffResult → Flow Decision
  unfolding bypass_removal
  judge_bypass_removal rule mode old new diff = do
    without_bypass ←
        or_stop (error_decision (some rule) 500) (diff_without_bypass_annotation old new rule)
    go (bypass_removal rule mode diff without_bypass)

  unfoldable pub judge_changes : Rule → Mode → DiffResult → Flow Decision
  unfolding judge_paths
  judge_changes rule mode diff = do
    patterns ←
        or_stop (λ e. error_decision (some rule) 500 (codes "parse mutable patterns: " ++ e))
          (parse_patterns rule.mutable)
    go (judge_paths rule mode diff.changed_paths patterns)

  abbrev pub removes_bypass : Rule → Fields → Fields → Bool
  removes_bypass rule old new =
      has_true_annotation old rule.bypass && not (has_true_annotation new rule.bypass)

  -- `Validate` from the call of `prepareObjects` on.
  unfoldable pub judge : Rule → Mode → Fields → Fields → Flow Decision
  unfolding judge_bypass_removal judge_changes
  judge rule mode old new = do
    (scoped_old, scoped_new) ←
        or_stop (error_decision (some rule) 500) (prepare_objects old new rule)
    let diff = compare scoped_old scoped_new
    stop_if diff.identical (allow (codes "no changes detected") rule.name mode)
    if removes_bypass rule old new
        then judge_bypass_removal rule mode old new diff
        else judge_changes rule mode diff

  -- Only updates are judged.
  abbrev pub check_operation : AdmissionRequest → Flow (Unit {0})
  check_operation req =
      stop_if (not (text_eq req.operation []) && not (text_eq req.operation (codes "UPDATE")))
        (allow (codes "operation not enforced") [] [])

  abbrev pub decode_old : (Text → Unmarshalled) → AdmissionRequest → Flow Fields
  decode_old unmarshal req =
      decode_object unmarshal (λ e. error_decision none 400 (codes "invalid oldObject: " ++ e))
        req.old_object

  abbrev pub decode_new : (Text → Unmarshalled) → AdmissionRequest → Flow Fields
  decode_new unmarshal req =
      decode_object unmarshal (λ e. error_decision none 400 (codes "invalid object: " ++ e))
        req.object

  abbrev pub input_of : AdmissionRequest → Fields → MatchInput
  input_of req new = record {
    namespace = req.namespace;
    api_group = req.resource.group;
    kind = req.kind.kind;
    labels = extract_labels new;
  }

  -- The rule, unless its users or the bypass annotation let the request pass.
  abbrev pub check_users : AdmissionRequest → Rule → Flow (Unit {0})
  check_users req rule =
      stop_if (not (is_empty rule.users) && not (contains_string rule.users req.user_info.username))
        (allow (codes "user not in scoped user list") rule.name rule.mode)

  abbrev pub check_bypass : Fields → Rule → Flow (Unit {0})
  check_bypass new rule =
      stop_if (has_true_annotation new rule.bypass)
        (allow (codes "bypass marker present") rule.name rule.mode)

  -- `Validate` up to the bypass annotation: the decoded objects and the rule that applies.
  unfoldable pub select :
      (Text → Unmarshalled) → Validator → AdmissionRequest → Flow (Fields × Fields × Rule)
  unfolding decode_object
  select unmarshal v req = do
    check_operation req
    old ← decode_old unmarshal req
    new ← decode_new unmarshal req
    rule ← rule_or_stop (store_match v.store (input_of req new))
    check_users req rule
    check_bypass new rule
    go (old, new, rule)

  unfoldable pub validate : (Text → Unmarshalled) → Validator → AdmissionRequest → Decision
  unfolding select effective_mode judge
  validate unmarshal v req = run (do
    (old, new, rule) ← select unmarshal v req
    mode ← effective_mode v rule req.namespace
    judge rule mode old new)
