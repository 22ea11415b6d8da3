-- ===== src/Admission/Validator/Bypass.antt =====
-- What `Validate` decides of a request that takes the bypass annotation away.
use drift_sentinel.Base.{true, false, List, [], ◌∷◌, ◌≡◌, ◌↔◌, refl, inl, inr, Bool-cases}
use drift_sentinel.Base.Text.{Text, Unicode}
use drift_sentinel.Base.Result.{Result, ok, err, out_of_fuel, ◌>>=◌, wrap}
use drift_sentinel.Rules.Types.{Rule, Mode}
use drift_sentinel.Diff.Value.{Fields, object, WellFormedFields}
use drift_sentinel.Diff.Segment.{Segments}
use drift_sentinel.Diff.Parse.{parse_patterns}
use drift_sentinel.Diff.Strip.{strip}
use drift_sentinel.Diff.Compare.{DiffResult, compare}
use drift_sentinel.Diff.Compare.Nodes.{differs_at}
use drift_sentinel.Diff.Compare.Report.{compare-identical}
use drift_sentinel.Admission.Review.{AdmissionRequest}
use drift_sentinel.Admission.Object.{clone_object, remove_annotation}
use drift_sentinel.Admission.Object.Removal.{IsWithout, remove_annotation-IsWithout}
use drift_sentinel.Admission.Scope.{
  Pair, apply_exclude, apply_include, diff_without_bypass_annotation, implicit_exclude_patterns,
  prepare_objects,
}
use drift_sentinel.Admission.Validator.{
  removes_bypass, effective_mode, judge_bypass_removal, bypass_removal, judge, select, validate,
}
use drift_sentinel.Admission.Flow.{Unmarshalled, Validator, go}

-- The result is made of the same value, or the chain fails.
remade :
    {A : Type 0} (g : Text → Text) (m : Result A) (f f' : A → Fields × Fields)
    (out : Fields × Fields)
    → (wrap g m >>= λ a. ok (f a)) ≡ ok out
    → (out' : Fields × Fields) × ((wrap g m >>= λ a. ok (f' a)) ≡ ok out')
remade g (ok a) f f' out h = (f' a, refl)
remade g (err e) f f' out h = cc
remade g out_of_fuel f f' out h = cc

module _ ⦃u : Unicode⦄ where
  apply_include-any :
      (paths : List Text) (a b out : Pair)
      → apply_include paths a ≡ ok out
      → (out' : Pair) × (apply_include paths b ≡ ok out')
  unfolding apply_include
  apply_include-any [] a b out h = (b, refl)
  apply_include-any (p ∷ ps) a b out h = remade _ (parse_patterns (p ∷ ps)) _ _ out h

  apply_exclude-any :
      (paths : List Text) (a b out : Pair)
      → apply_exclude paths a ≡ ok out
      → (out' : Pair) × (apply_exclude paths b ≡ ok out')
  unfolding apply_exclude
  apply_exclude-any [] a b out h = (b, refl)
  apply_exclude-any (p ∷ ps) a b out h = remade _ (parse_patterns (p ∷ ps)) _ _ out h

  bind-ok :
      (m : Result Pair) (f : Pair → Result Pair) (out : Pair)
      → (m >>= f) ≡ ok out
      → (a : Pair) × (m ≡ ok a) × (f a ≡ ok out)
  bind-ok (ok a) f out h = (a, refl, h)
  bind-ok (err e) f out h = cc
  bind-ok out_of_fuel f out h = cc

  -- Whether the objects are scoped hangs on the rule alone.
  prepare_objects-any :
      (a b c d : Fields) (rule : Rule) (out : Pair)
      → prepare_objects a b rule ≡ ok out
      → (out' : Pair) × (prepare_objects c d rule ≡ ok out')
  unfolding prepare_objects
  prepare_objects-any a b c d rule out h =
      let (mid, e, f) = bind-ok _ _ out h in
      let (mid', e') =
        apply_include-any rule.include _
          (strip c implicit_exclude_patterns, strip d implicit_exclude_patterns) mid e in
      let (out', f') = apply_exclude-any rule.exclude mid mid' out f in (out', rw e' f')

  scoped_diff :
      (old new : Fields) (rule : Rule) (out : Pair)
      → prepare_objects
          (remove_annotation (clone_object old) rule.bypass)
          (remove_annotation (clone_object new) rule.bypass)
          rule
        ≡ ok out
      → diff_without_bypass_annotation old new rule ≡ ok (compare (out.0) (out.1))
  unfolding diff_without_bypass_annotation
  scoped_diff old new rule (so, sn) e = rw e refl

  differing :
      (old new : Fields) (p : Segments)
      → differs_at p (object old) (object new) ≡ true
      → (compare old new).identical ≡ false
  differing old new p d = elim (Bool-cases (compare old new).identical) [
    | inl i ↦ let same = (compare-identical old new).0 i p in cc
    | inr i ↦ i
  ]

  verdict :
      (unmarshal : Text → Unmarshalled) (v : Validator) (req : AdmissionRequest) (old new : Fields)
      (rule : Rule) (mode : Mode) (scoped_old scoped_new : Fields) (without : DiffResult)
      → select unmarshal v req ≡ go (old, new, rule)
      → effective_mode v rule req.namespace ≡ go mode
      → removes_bypass rule old new ≡ true
      → prepare_objects old new rule ≡ ok (scoped_old, scoped_new)
      → (compare scoped_old scoped_new).identical ≡ false
      → diff_without_bypass_annotation old new rule ≡ ok without
      → (validate unmarshal v req).allowed ≡ without.identical
  unfolding validate judge judge_bypass_removal bypass_removal
  verdict unmarshal v req old new rule mode scoped_old scoped_new without s e b p d w =
      rw (s, e, p, d, b, w) (elim (Bool-cases without.identical) [ inl i ↦ rw i | inr i ↦ rw i ])

  -- A request that is judged under some mode, that takes the bypass annotation away, and whose scoped
  -- objects differ at some path: there are objects with the leaves of the old and of the new object but
  -- the annotation (a list item without a leaf may have become `nil` in them), which the rule scopes,
  -- and the request is allowed, whatever the mode, exactly if the scoped ones agree at every path. The
  -- keys of a map are distinct.
  pub validate-bypass_removal :
      (unmarshal : Text → Unmarshalled) (v : Validator) (req : AdmissionRequest) (old new : Fields)
      (rule : Rule) (mode : Mode) (scoped_old scoped_new : Fields) (p : Segments)
      → WellFormedFields old
      → WellFormedFields new
      → select unmarshal v req ≡ go (old, new, rule)
      → effective_mode v rule req.namespace ≡ go mode
      → removes_bypass rule old new ≡ true
      → prepare_objects old new rule ≡ ok (scoped_old, scoped_new)
      → differs_at p (object scoped_old) (object scoped_new) ≡ true
      → (old' : Fields) × (new' : Fields) × (scoped : Pair) × IsWithout rule.bypass old old'
        × IsWithout rule.bypass new new'
        × (prepare_objects old' new' rule ≡ ok scoped)
        × (((validate unmarshal v req).allowed ≡ true)
            ↔ ((q : Segments) → differs_at q (object (scoped.0)) (object (scoped.1)) ≡ false))
  validate-bypass_removal unmarshal v req old new rule mode scoped_old scoped_new p wo wn s e b h
        d =
      let old' = remove_annotation (clone_object old) rule.bypass in
      let new' = remove_annotation (clone_object new) rule.bypass in
      let (scoped, prepared) = prepare_objects-any old new old' new' rule _ h in
      let same : (validate unmarshal v req).allowed ≡ (compare (scoped.0) (scoped.1)).identical =
        verdict unmarshal v req old new rule mode scoped_old scoped_new _ s e b h
          (differing scoped_old scoped_new p d) (scoped_diff old new rule scoped prepared) in
      (
        old',
        new',
        scoped,
        remove_annotation-IsWithout old rule.bypass wo,
        remove_annotation-IsWithout new rule.bypass wn,
        prepared,
        rw same (compare-identical (scoped.0) (scoped.1)),
      )
