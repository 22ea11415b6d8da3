-- ===== src/Admission/Object/Removal.antt =====
-- What taking an annotation away leaves of an object, leaf by leaf.
use drift_sentinel.Base.{
  true, false, [], ◌∷◌, ◌++◌, Option, none, some, if◌then◌else◌, ◌≡◌, ◌↔◌, ◌⊎◌, inl, inr, refl, sym,
  ap, ◌∙◌, Bool-cases,
}
use drift_sentinel.Base.Text.{Text, text_eq, text_eq_iff, text_eq_refl}
use drift_sentinel.Diff.Segment.{
  Segments, field, index, field_wildcard, index_wildcard, matches_any_path,
}
use drift_sentinel.Base.Number.{pos, negsuc}
use drift_sentinel.Diff.Value.{
  Value, Scalar, scalar, list, object, Fields, end, entry, lookup, WellFormedFields,
}
use drift_sentinel.Diff.Children.{value_at-empty}
use drift_sentinel.Diff.Compare.Nodes.{follow, value_at}
use drift_sentinel.Diff.Cover.{IsCovered, IsHole}
use drift_sentinel.Diff.Strip.Keeps.{strip-keeps, strip-origin}
use drift_sentinel.Admission.Object.{
  annotations_key, as_map, clone_object, delete_key, metadata_key, put_annotations,
  remove_annotation, remove_in_metadata, remove_in_object, update_key,
}

abbrev pub IsUnder : Segments → Segments → Type 0
IsUnder q p = (r : Segments) × (p ≡ q ++ r)

-- The second value has the leaves of the first, but those under the path.
abbrev Loses : Segments → Value → Value → Type 0
Loses q v w =
    (p : Segments) (x : Scalar)
    → (value_at p w ≡ some (scalar x)) ↔ ((value_at p v ≡ some (scalar x)) × (¬ IsUnder q p))

text_eq-apart : (s t : Text) → text_eq s t ≡ false → text_eq t s ≡ false
text_eq-apart s t h = elim (Bool-cases (text_eq t s)) [
  | inl e ↦ let same : t ≡ s = (text_eq_iff t s).0 e in let reflexive = text_eq_refl s in cc
  | inr e ↦ e
]

lookup-delete_key :
    (key j : Text) (fs : Fields)
    → lookup j (delete_key key fs) ≡ (if text_eq key j then none else lookup j fs)
unfolding lookup delete_key
lookup-delete_key key j end = elim (Bool-cases (text_eq key j)) [ inl e ↦ rw e | inr e ↦ rw e ]
lookup-delete_key key j (entry i v fs) =
    let rest = lookup-delete_key key j fs in
    elim (Bool-cases (text_eq i key)) [
      | inl e ↦
          let same : i ≡ key = (text_eq_iff i key).0 e in
          elim (Bool-cases (text_eq key j)) [
            | inl f ↦ rw (e, f) (rw f at rest)
            | inr f ↦ let other : text_eq i j ≡ false = rw same f in rw (e, f, other) (rw f at rest)
          ]
      | inr e ↦ elim (Bool-cases (text_eq i j)) [
        | inl f ↦
            let same : i ≡ j = (text_eq_iff i j).0 f in
            let other : text_eq key j ≡ false = rw (← same) (text_eq-apart i key e) in
            rw (e, f, other) refl
        | inr f ↦ rw (e, f) rest
      ]
    ]

lookup-update_key :
    (key j : Text) (u w : Value) (fs : Fields)
    → lookup key fs ≡ some u
    → lookup j (update_key key w fs) ≡ (if text_eq key j then some w else lookup j fs)
unfolding lookup update_key
lookup-update_key key j u w end h = cc
lookup-update_key key j u w (entry i v fs) h = elim (Bool-cases (text_eq i key)) [
  | inl e ↦
      let same : i ≡ key = (text_eq_iff i key).0 e in
      elim (Bool-cases (text_eq key j)) [
        | inl f ↦ let equal : text_eq i j ≡ true = rw same f in rw (e, f, equal) refl
        | inr f ↦ let other : text_eq i j ≡ false = rw same f in rw (e, f, other) refl
      ]
  | inr e ↦ elim (Bool-cases (text_eq i j)) [
    | inl f ↦
        let same : i ≡ j = (text_eq_iff i j).0 f in
        let other : text_eq key j ≡ false = rw (← same) (text_eq-apart i key e) in
        rw (e, f, other) refl
    | inr f ↦ rw (e, f) (lookup-update_key key j u w fs (rw e at h))
  ]
]

-- The path goes into another entry.
not-IsUnder :
    (key j : Text) (q p : Segments)
    → text_eq key j ≡ false
    → ¬ IsUnder (field key ∷ q) (field j ∷ p)
not-IsUnder key j q p h (r, e) = let same : j ≡ key = cc in let reflexive = text_eq_refl key in cc

Loses-delete_key :
    (key : Text) (fs : Fields) → Loses (field key ∷ []) (object fs) (object (delete_key key fs))
Loses-delete_key key fs [] x = (λ h. cc, λ (h, n). cc)
Loses-delete_key key fs (field j ∷ p) x = elim (Bool-cases (text_eq key j)) [
  | inl e ↦
      let same : key ≡ j = (text_eq_iff key j).0 e in
      (
        λ h. cc (rw (lookup-delete_key key j fs, e) at h),
        λ (h, n). absurd (n (p, ap (λ k. field k ∷ p) (sym same))),
      )
  | inr e ↦ rw (lookup-delete_key key j fs, e) (λ h. (h, not-IsUnder key j [] p e), λ (h, n). h)
]
Loses-delete_key key fs (index (pos i) ∷ p) x = (λ h. cc, λ (h, n). cc)
Loses-delete_key key fs (index (negsuc i) ∷ p) x = (λ h. cc, λ (h, n). cc)
Loses-delete_key key fs (field_wildcard ∷ p) x = (λ h. cc, λ (h, n). cc)
Loses-delete_key key fs (index_wildcard ∷ p) x = (λ h. cc, λ (h, n). cc)

Loses-update_key :
    (key : Text) (q : Segments) (v w : Value) (fs : Fields)
    → lookup key fs ≡ some v
    → Loses q v w
    → Loses (field key ∷ q) (object fs) (object (update_key key w fs))
Loses-update_key key q v w fs c k [] x = (λ h. cc, λ (h, n). cc)
Loses-update_key key q v w fs c k (field j ∷ p) x =
    let found = lookup-update_key key j v w fs c in
    elim (Bool-cases (text_eq key j)) [
      | inl e ↦
          let same : key ≡ j = (text_eq_iff key j).0 e in
          let before : lookup j fs ≡ some v = rw (← same) c in
          rw (found, e, before)
            (
              λ h.
                  let (there, n) = (k p x).0 h in
                  (there, λ (r, u). let tail : p ≡ q ++ r = cc in n (r, tail)),
              λ (h, n). (k p x).1 (
                h,
                λ (r, u). n (r, ap (λ k. field k ∷ p) (sym same) ∙ ap (λ s. field key ∷ s) u),
              ),
            )
      | inr e ↦ rw (found, e) (λ h. (h, not-IsUnder key j q p e), λ (h, n). h)
    ]
Loses-update_key key q v w fs c k (index (pos i) ∷ p) x = (λ h. cc, λ (h, n). cc)
Loses-update_key key q v w fs c k (index (negsuc i) ∷ p) x = (λ h. cc, λ (h, n). cc)
Loses-update_key key q v w fs c k (field_wildcard ∷ p) x = (λ h. cc, λ (h, n). cc)
Loses-update_key key q v w fs c k (index_wildcard ∷ p) x = (λ h. cc, λ (h, n). cc)

-- Only a map has entries.
no_entry :
    (o : Option Value) (key : Text) (p : Segments) (x : Scalar)
    → as_map o ≡ none
    → follow (value_at (field key ∷ p)) o ≡ some (scalar x)
    → ⊥
no_entry none key p x h e = cc
no_entry (some (object fs)) key p x h e = cc
no_entry (some (list xs)) key p x h e = cc
no_entry (some (scalar s)) key p x h e = cc

-- What is not there need not be taken away.
Loses-absent :
    (key next : Text) (q : Segments) (fs : Fields)
    → as_map (lookup key fs) ≡ none
    → Loses (field key ∷ field next ∷ q) (object fs) (object fs)
Loses-absent key next q fs h p x = (
  λ e. (
    e,
    λ (r, same).
        no_entry (lookup key fs) next (q ++ r) x h
          (ap (λ p. value_at p (object fs)) (sym same) ∙ e),
  ),
  λ (e, n). e,
)

as_map-inv : (o : Option Value) (fs : Fields) → as_map o ≡ some fs → o ≡ some (object fs)
as_map-inv none fs h = cc
as_map-inv (some (object gs)) fs h = cc
as_map-inv (some (list xs)) fs h = cc
as_map-inv (some (scalar s)) fs h = cc

Loses-put_annotations :
    (key : Text) (annotations left metadata : Fields)
    → lookup annotations_key metadata ≡ some (object annotations)
    → Loses (field key ∷ []) (object annotations) (object left)
    → Loses
        (field annotations_key ∷ field key ∷ [])
        (object metadata)
        (object (put_annotations left metadata))
Loses-put_annotations key annotations (entry i v fs) metadata c k p x =
    Loses-update_key annotations_key (field key ∷ []) (object annotations) (object (entry i v fs))
      metadata c k p x
Loses-put_annotations key annotations end metadata c k p x =
    let (there, back) = Loses-delete_key annotations_key metadata p x in
    (
      λ h. let (e, n) = there h in (e, λ (r, u). n (field key ∷ r, u)),
      λ (e, n). back (
        e,
        λ (r, u).
            let below : value_at r (object annotations) ≡ some (scalar x) =
              ap (follow (value_at r)) (sym c)
              ∙ ap (λ p. value_at p (object metadata)) (sym u)
              ∙ e in
            value_at-empty r x (
              (k r x).1
                (below, λ (t, under). n (t, u ∙ ap (λ r. field annotations_key ∷ r) under))),
      ),
    )

Loses-remove_in_metadata :
    (key : Text) (o : Option Fields) (metadata : Fields)
    → as_map (lookup annotations_key metadata) ≡ o
    → Loses
        (field annotations_key ∷ field key ∷ [])
        (object metadata)
        (object (remove_in_metadata key o metadata))
Loses-remove_in_metadata key none metadata h = Loses-absent annotations_key key [] metadata h
Loses-remove_in_metadata key (some annotations) metadata h =
    Loses-put_annotations key annotations (delete_key key annotations) metadata
      (as_map-inv (lookup annotations_key metadata) annotations h)
      (Loses-delete_key key annotations)

-- Where the annotation stands.
abbrev pub annotation_path : Text → Segments
annotation_path key = field metadata_key ∷ field annotations_key ∷ field key ∷ []

Loses-remove_in_object :
    (key : Text) (o : Option Fields) (obj : Fields)
    → as_map (lookup metadata_key obj) ≡ o
    → Loses (annotation_path key) (object obj) (object (remove_in_object key o obj))
Loses-remove_in_object key none obj h =
    Loses-absent metadata_key annotations_key (field key ∷ []) obj h
Loses-remove_in_object key (some metadata) obj h =
    Loses-update_key metadata_key (field annotations_key ∷ field key ∷ []) (object metadata) _ obj
      (as_map-inv (lookup metadata_key obj) metadata h)
      (Loses-remove_in_metadata key (as_map (lookup annotations_key metadata)) metadata refl)

Loses-remove_annotation :
    (obj : Fields) (key : Text)
    → Loses (annotation_path key) (object obj) (object (remove_annotation obj key))
unfolding remove_annotation
Loses-remove_annotation obj key =
    Loses-remove_in_object key (as_map (lookup metadata_key obj)) obj refl

-- The second object has the leaves of the first, but the annotation. A list item without a leaf may have
-- become `nil`.
pub record IsWithout (key : Text) (obj without : Fields) : Type 0 where
  pub keeps :
      (p : Segments) (x : Scalar)
      → value_at p (object obj) ≡ some (scalar x)
      → (¬ IsUnder (annotation_path key) p)
      → value_at p (object without) ≡ some (scalar x)
  pub origin :
      (p : Segments) (x : Scalar)
      → value_at p (object without) ≡ some (scalar x)
      → (¬ IsUnder (annotation_path key) p)
        × ((value_at p (object obj) ≡ some (scalar x)) ⊎ IsHole (λ q. ⊥) (object obj) p x)

not-IsCovered : (p : Segments) → ¬ IsCovered [] [] p
unfolding matches_any_path
not-IsCovered p (q, r, e, m) = cc

pub remove_annotation-IsWithout :
    (obj : Fields) (key : Text)
    → WellFormedFields obj
    → IsWithout key obj (remove_annotation (clone_object obj) key)
unfolding clone_object
remove_annotation-IsWithout obj key h = record {
  keeps = λ p x e n.
      (Loses-remove_annotation (clone_object obj) key p x).1
        (strip-keeps [] obj p x h e (λ q r u. unfold matches_any_path in refl), n);
  origin = λ p x e.
      let (there, n) = (Loses-remove_annotation (clone_object obj) key p x).0 e in
      (
        n,
        elim (strip-origin [] obj p x h there) [
          | inl (stood, o) ↦ inl stood
          | inr (same, at_index, (item, f, lost)) ↦
              inr (same, at_index, (item, f, λ r y l. not-IsCovered (p ++ r) (lost r y l)))
        ],
      );
}
