-- ===== src/Metrics/Counters/Keys.antt =====
-- The labels of a violation, and the keys that they have.
use drift_sentinel.Base.{
  ℕ, ◌+◌, Bool, true, false, not, ◌&&◌, List, [], ◌∷◌, ◌++◌, ◌==◌, all, &&_inv, append_assoc, ◌≡◌,
  refl, sym, ◌∙◌, arith, Bool-ext,
}
use drift_sentinel.Base.Text.{Text, codes, text_eq, text_eq_refl, text_eq_iff, text_ltb, join}
use drift_sentinel.Base.Assoc.{find}
use drift_sentinel.Base.Sort.{sort, insert}
use drift_sentinel.Rules.Types.{TextMap}
use drift_sentinel.Metrics.Histogram.{bit}
use drift_sentinel.Metrics.Labels.{label_key, namespace_or_unknown, sorted_names}

-- The arguments of one call of `RecordViolation`.
pub record Violation : Type 0 where
  pub namespace : Text
  pub resource : Text
  pub field : Text
  pub mode : Text

unfoldable pub violation_labels : Violation → TextMap
violation_labels v =
    (codes "namespace", namespace_or_unknown v.namespace)
    ∷ (codes "resource", namespace_or_unknown v.resource)
    ∷ (codes "field", namespace_or_unknown v.field)
    ∷ (codes "mode", namespace_or_unknown v.mode)
    ∷ []

abbrev same_label : Text → Text → Bool
same_label s t = text_eq (namespace_or_unknown s) (namespace_or_unknown t)

-- Equal in all four labels.
abbrev pub same_labels : Violation → Violation → Bool
same_labels v w =
    same_label v.namespace w.namespace
    && same_label v.resource w.resource
    && same_label v.field w.field
    && same_label v.mode w.mode

abbrev pub count_same : Violation → List Violation → ℕ
count_same w [] = 0
count_same w (v ∷ vs) = bit (same_labels v w) + count_same w vs

abbrev not_comma : ℕ → Bool
not_comma c = not (c == b',')

-- All labels but the field are without commas.
abbrev pub IsPlain : Violation → Type 0
IsPlain v =
    (all not_comma (namespace_or_unknown v.namespace) ≡ true)
    × (all not_comma (namespace_or_unknown v.resource) ≡ true)
    × (all not_comma (namespace_or_unknown v.mode) ≡ true)

abbrev pub ArePlain : List Violation → Type 0
ArePlain [] = Unit
ArePlain (v ∷ vs) = IsPlain v × ArePlain vs

-- The labels in a row, in groups to the left.
abbrev key_of : Text → Text → Text → Text → Text
key_of field mode namespace resource =
    ((codes "field=" ++ field)
      ++ b',' ∷ (codes "mode=" ++ mode)
      ++ b',' ∷ (codes "namespace=" ++ namespace))
    ++ b',' ∷ (codes "resource=" ++ resource)

label_key-violation :
    (v : Violation)
    → label_key (violation_labels v)
      ≡ key_of
          (namespace_or_unknown v.field)
          (namespace_or_unknown v.mode)
          (namespace_or_unknown v.namespace)
          (namespace_or_unknown v.resource)
unfolding label_key violation_labels sorted_names sort insert text_ltb text_eq find join
label_key-violation v = simp append_assoc

comma_found : (s t : Text) → all not_comma (s ++ b',' ∷ t) ≡ false
comma_found [] t = refl
comma_found (c ∷ s) t = ground (arith, comma_found s t)

-- Texts are equal whose ends behind the last comma can be cut off.
comma_inv :
    (s t a b : Text)
    → all not_comma a ≡ true
    → all not_comma b ≡ true
    → s ++ b',' ∷ a ≡ t ++ b',' ∷ b
    → (s ≡ t) × (a ≡ b)
comma_inv [] [] a b h k e = (refl, cc)
comma_inv [] (d ∷ t) a b h k e =
    let tail : a ≡ t ++ b',' ∷ b = cc in let found = comma_found t b in cc
comma_inv (c ∷ s) [] a b h k e =
    let tail : s ++ b',' ∷ a ≡ b = cc in let found = comma_found s a in cc
comma_inv (c ∷ s) (d ∷ t) a b h k e =
    let head : c ≡ d = cc in let (same, rest) = comma_inv s t a b h k cc in (cc, rest)

key_of_inv :
    (f m n r f' m' n' r' : Text)
    → all not_comma m ≡ true
    → all not_comma n ≡ true
    → all not_comma r ≡ true
    → all not_comma m' ≡ true
    → all not_comma n' ≡ true
    → all not_comma r' ≡ true
    → key_of f m n r ≡ key_of f' m' n' r'
    → (f ≡ f') × (m ≡ m') × (n ≡ n') × (r ≡ r')
key_of_inv f m n r f' m' n' r' hm hn hr km kn kr e =
    let (head, last) =
      comma_inv
        ((codes "field=" ++ f) ++ b',' ∷ (codes "mode=" ++ m) ++ b',' ∷ (codes "namespace=" ++ n))
        ((codes "field=" ++ f')
          ++ b',' ∷ (codes "mode=" ++ m')
          ++ b',' ∷ (codes "namespace=" ++ n'))
        (codes "resource=" ++ r) (codes "resource=" ++ r') hr kr e in
    let (front, third) =
      comma_inv ((codes "field=" ++ f) ++ b',' ∷ (codes "mode=" ++ m))
        ((codes "field=" ++ f') ++ b',' ∷ (codes "mode=" ++ m')) (codes "namespace=" ++ n)
        (codes "namespace=" ++ n') hn kn head in
    let (first, second) =
      comma_inv (codes "field=" ++ f) (codes "field=" ++ f') (codes "mode=" ++ m)
        (codes "mode=" ++ m') hm km front in
    (cc, cc, cc, cc)

abbrev pub violation_key : Violation → Text
violation_key v = label_key (violation_labels v)

violation_key_inv :
    (v w : Violation)
    → IsPlain v
    → IsPlain w
    → violation_key v ≡ violation_key w
    → same_labels v w ≡ true
violation_key_inv v w (vn, vr, vm) (wn, wr, wm) e =
    let (f, m, n, r) =
      key_of_inv (namespace_or_unknown v.field) (namespace_or_unknown v.mode)
        (namespace_or_unknown v.namespace) (namespace_or_unknown v.resource)
        (namespace_or_unknown w.field) (namespace_or_unknown w.mode)
        (namespace_or_unknown w.namespace) (namespace_or_unknown w.resource) vm vn vr wm wn wr
        (sym (label_key-violation v) ∙ e ∙ label_key-violation w) in
    rw (f, m, n, r)
      (rw
        (
          text_eq_refl (namespace_or_unknown w.field),
          text_eq_refl (namespace_or_unknown w.mode),
          text_eq_refl (namespace_or_unknown w.namespace),
          text_eq_refl (namespace_or_unknown w.resource),
        )
        refl)

same_label_inv :
    (s t : Text) → same_label s t ≡ true → namespace_or_unknown s ≡ namespace_or_unknown t
same_label_inv s t = (text_eq_iff (namespace_or_unknown s) (namespace_or_unknown t)).0

same_labels-key : (v w : Violation) → same_labels v w ≡ true → violation_key v ≡ violation_key w
same_labels-key v w e =
    let namespaces = same_label v.namespace w.namespace in
    let resources = same_label v.resource w.resource in
    let fields = same_label v.field w.field in
    let (rest, m) = &&_inv (namespaces && resources && fields) (same_label v.mode w.mode) e in
    let (rest', f) = &&_inv (namespaces && resources) fields rest in
    let (n, r) = &&_inv namespaces resources rest' in
    label_key-violation v
    ∙ rw
        (
          same_label_inv v.namespace w.namespace n,
          same_label_inv v.resource w.resource r,
          same_label_inv v.field w.field f,
          same_label_inv v.mode w.mode m,
        )
        refl
    ∙ sym (label_key-violation w)

-- Two violations have the same key exactly if they have the same labels.
pub violation_key-eq :
    (v w : Violation)
    → IsPlain v
    → IsPlain w
    → text_eq (violation_key v) (violation_key w) ≡ same_labels v w
violation_key-eq v w h k =
    Bool-ext (text_eq (violation_key v) (violation_key w)) (same_labels v w)
      (λ e. violation_key_inv v w h k ((text_eq_iff _ _).0 e))
      (λ e. (text_eq_iff _ _).1 (same_labels-key v w e))
