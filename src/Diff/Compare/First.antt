-- ===== src/Diff/Compare/First.antt =====
-- The listed paths and the first differences.
use drift_sentinel.Base.{
  Bool, true, false, not, ◌&&◌, [], ◌∷◌, ◌++◌, Option, none, some, ◌≡◌, ◌≢◌, ◌↔◌, refl, sym, ap,
  ◌∙◌, arith, Bool-cases, inl, inr, &&_inv,
}
use drift_sentinel.Base.Number.{pos, negsuc}
use drift_sentinel.Diff.Segment.{Segments, Segment, field, index, segment_eq, path_eq}
use drift_sentinel.Diff.Value.{Value, Scalar, scalar, list, object, values_equal}
use drift_sentinel.Diff.Compare.Nodes.{
  child, follow, value_at, same_node, differs_at, IsFirstDifference,
}
use drift_sentinel.Diff.Compare.Listing.{
  has, is_root, among, among-cong, has-object_differences, has-list_differences,
  has-key_differences_other, has-key_differences_root, has-list_differences_other,
  has-list_differences_root,
}
use drift_sentinel.Diff.Compare.Reference.{differences, scalar_differences}

-- `IsFirstDifference` by recursion on the path.
unfoldable pub first_differs : Segments → Value → Value → Bool
first_differs [] old new = not (same_node (some old) (some new))
first_differs (s ∷ p) old new =
    same_node (some old) (some new)
    && among (is_root p) (first_differs p) (child s old) (child s new)

child-scalar : (s : Segment) (x : Scalar) → child s (scalar x) ≡ none
child-scalar (index (pos n)) x = refl
child-scalar s x = refl

has-scalar_differences :
    (s : Segment) (p : Segments) (equal : Bool)
    → has (s ∷ p) (scalar_differences equal) ≡ (equal && false)
unfolding path_eq
has-scalar_differences s p true = refl
has-scalar_differences s p false = refl

-- Below the root the listing is that of the children.
has-differences_below :
    (s : Segment) (p : Segments) (old new : Value)
    → has (s ∷ p) (differences old new) ≡ (
        same_node (some old) (some new)
        && among (is_root p) (λ v w. has p (differences v w)) (child s old) (child s new))
unfolding differences segment_eq path_eq
has-differences_below (field key) p (object old) (object new) = has-object_differences key p old new
has-differences_below (index (pos n)) p (list old) (list new) =
    has-list_differences n n p old new 0 (omega arith)
has-differences_below s p (object old) (list new) = refl
has-differences_below s p (object old) (scalar new) = refl
has-differences_below s p (list old) (object new) = refl
has-differences_below s p (list old) (scalar new) = refl
has-differences_below s p (scalar old) (object new) = refl
has-differences_below s p (scalar old) (list new) = refl
has-differences_below s p (scalar old) (scalar new) =
    rw (child-scalar s old, child-scalar s new) (has-scalar_differences s p (values_equal old new))
has-differences_below (index (pos n)) p (object old) (object new) =
    has-key_differences_other (index (pos n)) p _ _ new (λ _. refl)
has-differences_below (index (negsuc n)) p (object old) (object new) =
    has-key_differences_other (index (negsuc n)) p _ _ new (λ _. refl)
has-differences_below s p (object old) (object new) =
    has-key_differences_other s p _ _ new (λ _. refl)
has-differences_below s p (list old) (list new) =
    has-list_differences_other s p old new 0 (λ _. refl)

has-differences_root :
    (old new : Value) → has [] (differences old new) ≡ not (same_node (some old) (some new))
unfolding differences path_eq
has-differences_root (object old) (object new) = has-key_differences_root _ _ new
has-differences_root (list old) (list new) = has-list_differences_root old new 0
has-differences_root (scalar old) (scalar new) = ground arith
has-differences_root _ _ = refl

has-differences :
    (p : Segments) (old new : Value) → has p (differences old new) ≡ first_differs p old new
unfolding first_differs
has-differences [] old new = has-differences_root old new
has-differences (s ∷ p) old new =
    has-differences_below s p old new
    ∙ ap (λ b. same_node (some old) (some new) && b)
        (among-cong (is_root p) _ _ (child s old) (child s new) (has-differences p))

-- `first_differs` decides `IsFirstDifference`: one half, with the path below as the hypothesis.
abbrev Sound : Segments → Type 0
Sound p = (v w : Value) → first_differs p v w ≡ true → IsFirstDifference p v w

same_node_one_sided : (v : Value) → same_node (some v) none ≡ false
same_node_one_sided (scalar s) = refl
same_node_one_sided _ = refl

among-differs :
    (p : Segments) (o o' : Option Value)
    → Sound p
    → among (is_root p) (first_differs p) o o' ≡ true
    → not (same_node (follow (value_at p) o) (follow (value_at p) o')) ≡ true
among-differs p none none ih h = cc
among-differs p (some v) (some w) ih h = (ih v w h).0
among-differs [] none (some w) ih h = refl
among-differs [] (some v) none ih h = rw (same_node_one_sided v)
among-differs (s ∷ p) none (some w) ih h = cc
among-differs (s ∷ p) (some v) none ih h = cc

nothing_above : (q r : Segments) → ◌≡◌ {A = Segments} [] (q ++ r) → r ≢ [] → ⊥
nothing_above [] r e n = n (sym e)
nothing_above (s ∷ q) r e n = cc

among-above :
    (p : Segments) (o o' : Option Value) (q r : Segments)
    → Sound p
    → among (is_root p) (first_differs p) o o' ≡ true
    → p ≡ q ++ r
    → r ≢ []
    → not (same_node (follow (value_at q) o) (follow (value_at q) o')) ≡ false
among-above p none none q r ih h e n = refl
among-above p (some v) (some w) q r ih h e n = (ih v w h).1 q r e n
among-above [] none (some w) q r ih h e n = absurd (nothing_above q r e n)
among-above [] (some v) none q r ih h e n = absurd (nothing_above q r e n)
among-above (s ∷ p) none (some w) q r ih h e n = cc
among-above (s ∷ p) (some v) none q r ih h e n = cc

first_differs-above :
    (s : Segment) (p : Segments) (v w : Value) (q r : Segments)
    → Sound p
    → first_differs (s ∷ p) v w ≡ true
    → s ∷ p ≡ q ++ r
    → r ≢ []
    → differs_at q v w ≡ false
unfolding first_differs
first_differs-above s p v w [] r ih h e n =
    let root : same_node (some v) (some w) ≡ true = (&&_inv (same_node (some v) (some w)) _ h).0 in
    rw root
first_differs-above s p v w (t ∷ q) r ih h e n =
    let same : s ≡ t = cc in
    rw (← same) (
      among-above p (child s v) (child s w) q r ih ((&&_inv (same_node (some v) (some w)) _ h).1)
        (cc) n)

first_differs-Sound : (p : Segments) → Sound p
unfolding first_differs
first_differs-Sound [] v w h = (h, λ q r e n. absurd (nothing_above q r e n))
first_differs-Sound (s ∷ p) v w h = (
  among-differs p (child s v) (child s w) (first_differs-Sound p)
      ((&&_inv (same_node (some v) (some w)) _ h).1),
  λ q r e n. first_differs-above s p v w q r (first_differs-Sound p) h e n,
)

-- The other half.
among_complete :
    (p : Segments) (o o' : Option Value)
    → ((v w : Value) → IsFirstDifference p v w → first_differs p v w ≡ true)
    → not (same_node (follow (value_at p) o) (follow (value_at p) o')) ≡ true
    → ((q r : Segments)
        → p ≡ q ++ r
        → r ≢ []
        → not (same_node (follow (value_at q) o) (follow (value_at q) o')) ≡ false)
    → among (is_root p) (first_differs p) o o' ≡ true
among_complete p none none ih d u = cc
among_complete p (some v) (some w) ih d u = ih v w (d, u)
among_complete [] none (some w) ih d u = refl
among_complete [] (some v) none ih d u = refl
among_complete (s ∷ p) none (some w) ih d u = cc (u [] (s ∷ p) refl (λ e. cc))
among_complete (s ∷ p) (some v) none ih d u =
    cc (u [] (s ∷ p) refl (λ e. cc), same_node_one_sided v)

not-eq-false : (b : Bool) → not b ≡ false → b ≡ true
not-eq-false true h = refl
not-eq-false false h = cc

first_differs_complete :
    (p : Segments) (v w : Value) → IsFirstDifference p v w → first_differs p v w ≡ true
unfolding first_differs
first_differs_complete [] v w h = h.0
first_differs_complete (s ∷ p) v w h =
    rw (not-eq-false (same_node (some v) (some w)) (h.1 [] (s ∷ p) refl (λ e. cc))) (
      among_complete p (child s v) (child s w) (first_differs_complete p) h.0
        (λ q r e n. h.1 (s ∷ q) r (ap (λ x. s ∷ x) e) n))

-- A path is listed exactly if it is a first difference.
pub has-differences_iff :
    (p : Segments) (old new : Value)
    → (has p (differences old new) ≡ true) ↔ IsFirstDifference p old new
has-differences_iff p old new = (
  λ h. first_differs-Sound p old new (sym (has-differences p old new) ∙ h),
  λ h. has-differences p old new ∙ first_differs_complete p old new h,
)

-- Above every difference, or at it, there is a first one.
first_below :
    (s : Segment) (o o' : Option Value) (p : Segments)
    → ((v w : Value) → differs_at p v w ≡ true → (q : Segments) × (first_differs q v w ≡ true))
    → not (same_node (follow (value_at p) o) (follow (value_at p) o')) ≡ true
    → (q : Segments) × (among (is_root q) (first_differs q) o o' ≡ true)
first_below s none none p ih h = cc
first_below s (some v) (some w) p ih h = ih v w h
first_below s none (some w) p ih h = ([], refl)
first_below s (some v) none p ih h = ([], refl)

first_difference :
    (p : Segments) (v w : Value)
    → differs_at p v w ≡ true
    → (q : Segments) × (first_differs q v w ≡ true)
unfolding first_differs
first_difference [] v w h = ([], h)
first_difference (s ∷ p) v w h = elim (Bool-cases (same_node (some v) (some w))) [
  | inl e ↦
      let (q, f) = first_below s (child s v) (child s w) p (first_difference p) h in (s ∷ q, rw e f)
  | inr e ↦ ([], rw e)
]

-- A difference anywhere leads to a listed path.
pub difference-listed :
    (p : Segments) (v w : Value)
    → differs_at p v w ≡ true
    → (q : Segments) × (has q (differences v w) ≡ true)
difference-listed p v w h = let (q, f) = first_difference p v w h in (q, has-differences q v w ∙ f)
