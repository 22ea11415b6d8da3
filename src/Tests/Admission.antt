-- ===== src/Tests/Admission.antt =====
-- pkg/admission at a concrete request.
use drift_sentinel.Base.{
  true, false, arith, [], ◌∷◌, none, some, if◌then◌else◌, ◌≡◌, ◌↔◌, refl, inl,
}
use drift_sentinel.Base.Text.{folds_to_true, Text, codes, text_eq, text_ltb, trim_space, is_letter}
use drift_sentinel.Base.Sort.{sort}
use drift_sentinel.Base.Number.{pos}
use drift_sentinel.Base.Result.{ok}
use drift_sentinel.Rules.Types.{Resolved, found, Rule, Mode, mode_enforce, mode_warn}
use drift_sentinel.Rules.Store.{new_store, replace, clone_rule, sort_rules, snapshot}
use drift_sentinel.Rules.PathMatch.{path_match}
use drift_sentinel.Rules.Matcher.{
  match_rules, store_match, matches_namespace, matches_selector, matches_labels,
}
use drift_sentinel.Diff.Segment.{
  Segments, field, PathPattern, path_eq→eq, matches_any_path, segments_match,
}
use drift_sentinel.Diff.Value.{
  WellFormedFields, scalar, string, object, Fields, end, entry, lookup, clone_value, values_equal,
}
use drift_sentinel.Diff.Render.{render_path}
use drift_sentinel.Diff.Strip.{strip}
use drift_sentinel.Admission.Object.{remove_annotation, clone_object, has_true_annotation}
use drift_sentinel.Diff.Parse.{parse_patterns, parse_path, match_any}
use drift_sentinel.Diff.Compare.{compare}
use drift_sentinel.Diff.Compare.Nodes.{IsFirstDifference}
use drift_sentinel.Diff.Compare.First.{has-differences_iff}
use drift_sentinel.Diff.RoundTrip.{ArePrintable}
use drift_sentinel.Admission.Review.{AdmissionRequest}
use drift_sentinel.Admission.Scope.{
  Pair, prepare_objects, implicit_exclude_paths, implicit_exclude_patterns,
  diff_without_bypass_annotation, partition_changed_paths,
}
use drift_sentinel.Admission.Validator.{removes_bypass, effective_mode, select, validate}
use drift_sentinel.Admission.Flow.{Unmarshalled, decoded, Validator, new_validator, Flow, go}
use drift_sentinel.Diff.Compare.{DiffResult, sorted_keys}
use drift_sentinel.Diff.Compare.Reference.{differences, key_differences}
use drift_sentinel.Base.Assoc.{find}
use drift_sentinel.Admission.Scope.Partition.{match_any-render_path}
use drift_sentinel.Admission.Validator.Consistent.{IsConsistent, validate-IsConsistent}
use drift_sentinel.Admission.Validator.Forbidden.{Compared, Offends, validate-forbidden}
use drift_sentinel.Admission.Validator.Enforce.{validate-enforce}
use drift_sentinel.Admission.Validator.Lenient.{Records, validate-lenient}
use drift_sentinel.Admission.Validator.Bypass.{validate-bypass_removal}
use drift_sentinel.Admission.Object.Removal.{IsWithout}
use drift_sentinel.Diff.Compare.Nodes.{differs_at}
use drift_sentinel.Admission.Validator.Selected.{IsSelected}
use drift_sentinel.Tests.{ascii}

abbrev rule : Rule
rule = record {
  name = codes "r";
  namespace = codes "default";
  priority = pos 0;
  mode = mode_enforce;
  namespaces = codes "*" ∷ [];
  selectors = (record { api_group = codes "apps"; kind = codes "Deployment" }) ∷ [];
  labels = [];
  exclude = [];
  include = [];
  mutable = codes "spec.replicas" ∷ [];
  users = [];
  bypass = codes "bypass";
}

abbrev image : Text → Fields
image name = entry (codes "spec") (object (entry (codes "image") (scalar (string name)) end)) end

abbrev pub unmarshal : Text → Unmarshalled
unmarshal raw =
    if text_eq raw (codes "old") then decoded (image (codes "a")) else decoded (image (codes "b"))

abbrev pub request : AdmissionRequest
request = record {
  uid = codes "1";
  operation = codes "UPDATE";
  namespace = codes "prod";
  name = codes "web";
  resource = record { group = codes "apps"; version = codes "v1"; resource = codes "deployments" };
  kind = record { group = codes "apps"; version = codes "v1"; kind = codes "Deployment" };
  user_info = record { username = codes "me" };
  object = codes "new";
  old_object = codes "old";
}

-- The mode of each namespace.
abbrev warns : Text → Resolved
warns namespace = found mode_warn

abbrev pub strict : Validator
strict = new_validator (some (replace new_store (rule ∷ []))) none

abbrev lenient : Validator
lenient = new_validator (some (replace new_store (rule ∷ []))) (some warns)

runs_validate : (validate unmarshal strict request).status_code ≡ 403
unfolding validate text_eq store_match match_rules sort_rules sort snapshot new_validator replace
    matches_namespace clone_rule path_match matches_selector matches_labels has_true_annotation
    lookup prepare_objects compare implicit_exclude_patterns parse_patterns parse_path trim_space
    strip matches_any_path clone_value values_equal render_path match_any is_letter text_ltb
    partition_changed_paths segments_match
runs_validate = refl

runs_select : select unmarshal strict request ≡ go (image (codes "a"), image (codes "b"), rule)
unfolding select text_eq store_match match_rules sort_rules sort snapshot new_validator replace
    matches_namespace clone_rule path_match matches_selector matches_labels has_true_annotation
    lookup
runs_select = refl

runs_prepare :
    prepare_objects (image (codes "a")) (image (codes "b")) rule
    ≡ ok (image (codes "a"), image (codes "b"))
unfolding prepare_objects implicit_exclude_patterns parse_patterns parse_path trim_space text_eq
    strip matches_any_path clone_value segments_match
runs_prepare = refl

abbrev replicas : PathPattern
replicas = record {
  raw = codes "spec.replicas";
  segments = field (codes "spec") ∷ field (codes "replicas") ∷ [];
}

runs_patterns : parse_patterns rule.mutable ≡ ok (replicas ∷ [])
unfolding parse_patterns parse_path trim_space text_eq
runs_patterns = refl

keeps_marker : removes_bypass rule (image (codes "a")) (image (codes "b")) ≡ false
unfolding has_true_annotation text_eq lookup
keeps_marker = refl

runs_mode : effective_mode strict rule request.namespace ≡ go mode_enforce
unfolding effective_mode new_validator
runs_mode = refl

select-lenient : select unmarshal lenient request ≡ go (image (codes "a"), image (codes "b"), rule)
unfolding select text_eq store_match match_rules sort_rules sort snapshot new_validator replace
    matches_namespace clone_rule path_match matches_selector matches_labels has_true_annotation
    lookup
select-lenient = refl

effective_mode-lenient : effective_mode lenient rule request.namespace ≡ go mode_warn
unfolding effective_mode new_validator text_eq
effective_mode-lenient = refl

abbrev Differing : Segments → Type 0
Differing p = IsFirstDifference p (object (image (codes "a"))) (object (image (codes "b")))

differences-image :
    differences (object (image (codes "a"))) (object (image (codes "b")))
    ≡ (field (codes "spec") ∷ field (codes "image") ∷ []) ∷ []
unfolding differences sort text_eq text_ltb values_equal lookup key_differences sorted_keys find
differences-image = refl

only_image : (p : Segments) → Differing p → p ≡ field (codes "spec") ∷ field (codes "image") ∷ []
only_image p d =
    let listed =
      rw differences-image at
        ((has-differences_iff p (object (image (codes "a"))) (object (image (codes "b")))).1 d) in
    path_eq→eq p (field (codes "spec") ∷ field (codes "image") ∷ []) (ground arith)

image_printable : (p : Segments) → Differing p → ArePrintable p
image_printable p d = rw (only_image p d) (refl, (refl, tt))

validate-enforce_example :
    ((validate unmarshal strict request).allowed ≡ true)
    ↔ ((p : Segments) → Differing p → matches_any_path p (replicas ∷ []) ≡ true)
validate-enforce_example =
    validate-enforce unmarshal strict request (image (codes "a")) (image (codes "b"))
      (image (codes "a")) (image (codes "b")) rule (replicas ∷ []) runs_select runs_mode
      keeps_marker runs_prepare runs_patterns image_printable

validate-lenient_example :
    Records
      (validate unmarshal lenient request)
      (compare (image (codes "a")) (image (codes "b"))).changed_paths
      (replicas ∷ [])
validate-lenient_example =
    validate-lenient unmarshal lenient request (image (codes "a")) (image (codes "b"))
      (image (codes "a")) (image (codes "b")) rule mode_warn (replicas ∷ []) select-lenient
      effective_mode-lenient (inl refl) keeps_marker runs_prepare runs_patterns

validate-forbidden_example :
    (old new : Fields) × (rule : Rule) × (mode : Mode) × (diff : DiffResult) × IsSelected unmarshal
      strict request
      (old, new, rule)
    × (effective_mode strict rule request.namespace ≡ go mode)
    × Compared rule old new diff
    × Offends rule mode old new diff.changed_paths
validate-forbidden_example = validate-forbidden unmarshal strict request runs_validate

validate-IsConsistent_example : IsConsistent (validate unmarshal strict request)
validate-IsConsistent_example = validate-IsConsistent unmarshal strict request

match_any-render_path_example :
    match_any (render_path (field (codes "spec") ∷ field (codes "replicas") ∷ [])) (replicas ∷ [])
    ≡ matches_any_path (field (codes "spec") ∷ field (codes "replicas") ∷ []) (replicas ∷ [])
match_any-render_path_example =
    match_any-render_path (field (codes "spec")) (field (codes "replicas") ∷ []) (replicas ∷ [])
      (refl, (refl, tt))

-- The start of the program does not panic.
runs_implicit_exclude_patterns :
    parse_patterns implicit_exclude_paths ≡ ok implicit_exclude_patterns
unfolding implicit_exclude_patterns parse_patterns parse_path trim_space text_eq
runs_implicit_exclude_patterns = refl

-- A change that takes the marker away and touches the image.
abbrev marked : Fields
marked =
    entry (codes "metadata")
      (object (
        entry (codes "annotations")
          (object (entry (codes "bypass") (scalar (string (codes "True"))) end)) end))
      (image (codes "a"))

abbrev unmarshal_marked : Text → Unmarshalled
unmarshal_marked raw =
    if text_eq raw (codes "old") then decoded marked else decoded (image (codes "b"))

abbrev marked_select : Flow (Fields × Fields × Rule)
marked_select = select unmarshal_marked lenient request

runs_marked_select : marked_select ≡ go (marked, image (codes "b"), rule)
unfolding select text_eq store_match match_rules sort_rules sort snapshot new_validator replace
    matches_namespace clone_rule path_match matches_selector matches_labels has_true_annotation
    lookup
runs_marked_select = refl

runs_marked : removes_bypass rule marked (image (codes "b")) ≡ true
unfolding has_true_annotation text_eq lookup folds_to_true trim_space
runs_marked = refl

abbrev marked_diff : DiffResult
marked_diff = record {
  identical = false;
  changed_paths = codes "spec.image" ∷ [];
  mutable_changed = [];
  immutable_changed = [];
}

runs_marked_without :
    diff_without_bypass_annotation marked (image (codes "b")) rule ≡ ok marked_diff
unfolding diff_without_bypass_annotation compare sort strip matches_any_path
    implicit_exclude_patterns parse_patterns parse_path text_eq trim_space remove_annotation lookup
    clone_object segments_match clone_value values_equal render_path is_letter text_ltb
runs_marked_without = refl

runs_marked_prepare :
    prepare_objects marked (image (codes "b")) rule ≡ ok (marked, image (codes "b"))
unfolding prepare_objects implicit_exclude_patterns parse_patterns parse_path trim_space text_eq
    strip matches_any_path clone_value segments_match
runs_marked_prepare = refl

marked-WellFormed : WellFormedFields marked
unfolding lookup text_eq
marked-WellFormed = (refl, (refl, (refl, tt, tt), tt), (refl, (refl, tt, tt), tt))

image-WellFormed : WellFormedFields (image (codes "b"))
unfolding lookup text_eq
image-WellFormed = (refl, (refl, tt, tt), tt)

runs_marked_differs :
    differs_at
      (field (codes "spec") ∷ field (codes "image") ∷ [])
      (object marked)
      (object (image (codes "b")))
    ≡ true
unfolding lookup text_eq values_equal
runs_marked_differs = refl

validate-bypass_removal_example :
    (old' : Fields) × (new' : Fields) × (scoped : Pair) × IsWithout rule.bypass marked old'
    × IsWithout rule.bypass (image (codes "b")) new'
    × (prepare_objects old' new' rule ≡ ok scoped)
    × (((validate unmarshal_marked lenient request).allowed ≡ true)
        ↔ ((q : Segments) → differs_at q (object (scoped.0)) (object (scoped.1)) ≡ false))
validate-bypass_removal_example =
    validate-bypass_removal unmarshal_marked lenient request marked (image (codes "b")) rule
      mode_warn marked (image (codes "b")) (field (codes "spec") ∷ field (codes "image") ∷ [])
      marked-WellFormed image-WellFormed runs_marked_select effective_mode-lenient runs_marked
      runs_marked_prepare runs_marked_differs
