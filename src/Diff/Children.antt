-- ===== src/Diff/Children.antt =====
-- A new map or list made child by child, as `Strip` and `Extract` do it.
use drift_sentinel.Base.{
  ℕ, zero, suc, ◌+◌, false, [], ◌∷◌, Option, none, some, ◌≡◌, refl, arith, Bool-cases, inl, inr,
}
use native.Mathlib.Nat.{zero-add, add-zero}
use mathlib.Core.Path.{subst}
use drift_sentinel.Base.Text.{Text, text_eq, text_eq_iff, text_eq_refl}
use drift_sentinel.Base.Number.{pos, negsuc}
use drift_sentinel.Diff.Segment.{Segment, Segments, field, index, field_wildcard, index_wildcard}
use drift_sentinel.Diff.Value.{
  Value, Scalar, scalar, null, list, object, Items, nil, cons, Fields, end, entry, lookup, item_at,
  WellFormed, WellFormedFields, WellFormedItems,
}
use drift_sentinel.Diff.Strip.{put_field, put_item, keep_fields}
use drift_sentinel.Diff.Compare.Nodes.{child, follow, value_at}

abbrev pub or_null : Option Value → Value
or_null none = scalar null
or_null (some v) = v

-- What becomes of a child that may be dropped: a list keeps its slot.
abbrev pub slot : Segment → Option Value → Option Value
slot (index i) o = some (or_null o)
slot s o = o

pub slot-some : (s : Segment) (v : Value) → slot s (some v) ≡ some v
slot-some (index i) v = refl
slot-some _ v = refl

-- A scalar has no child.
pub child-scalar : (s : Segment) (x : Scalar) → child s (scalar x) ≡ none
child-scalar (index (pos n)) x = refl
child-scalar s x = refl

-- Nothing but the root stands below a scalar.
pub value_at-scalar :
    (p : Segments) (x y : Scalar) → value_at p (scalar x) ≡ some (scalar y) → (p ≡ []) × (y ≡ x)
value_at-scalar [] x y h = (refl, cc)
value_at-scalar (s ∷ p) x y h = cc (rw child-scalar at h)

module _ (f : Segment → Value → Option Value) where
  unfoldable pub map_fields : Fields → Fields
  map_fields end = end
  map_fields (entry key v fs) = put_field key (f (field key) v) (map_fields fs)

  unfoldable pub map_items : Items → ℕ → Items
  map_items nil i = nil
  map_items (cons v xs) i = put_item (f (index (pos i)) v) (map_items xs (suc i))

lookup-put_field_other :
    (key j : Text) (o : Option Value) (fs : Fields)
    → text_eq j key ≡ false
    → lookup key (put_field j o fs) ≡ lookup key fs
unfolding lookup
lookup-put_field_other key j none fs h = refl
lookup-put_field_other key j (some v) fs h = rw h

lookup-put_field_self :
    (key : Text) (o : Option Value) (fs : Fields)
    → lookup key fs ≡ none
    → lookup key (put_field key o fs) ≡ o
unfolding lookup
lookup-put_field_self key none fs h = h
lookup-put_field_self key (some v) fs h = rw text_eq_refl

item_at-put_item_zero :
    (o : Option Value) (xs : Items) → item_at 0 (put_item o xs) ≡ some (or_null o)
unfolding item_at
item_at-put_item_zero none xs = refl
item_at-put_item_zero (some v) xs = refl

item_at-put_item-suc :
    (n : ℕ) (o : Option Value) (xs : Items) → item_at (suc n) (put_item o xs) ≡ item_at n xs
unfolding item_at
item_at-put_item-suc n none xs = refl
item_at-put_item-suc n (some v) xs = refl

module _ (f : Segment → Value → Option Value) where
  lookup-map_fields-none :
      (key : Text) (fs : Fields) → lookup key fs ≡ none → lookup key (map_fields f fs) ≡ none
  unfolding map_fields lookup
  lookup-map_fields-none key end h = refl
  lookup-map_fields-none key (entry j v fs) h = elim (Bool-cases (text_eq j key)) [
    | inl e ↦ cc (rw e at h)
    | inr e ↦
        rw (lookup-put_field_other key j (f (field j) v) (map_fields f fs) e)
          (lookup-map_fields-none key fs (rw e at h))
  ]

  -- The entries of the new map: a dropped child gives no other entry of its key.
  pub lookup-map_fields :
      (key : Text) (fs : Fields)
      → WellFormedFields fs
      → lookup key (map_fields f fs) ≡ follow (f (field key)) (lookup key fs)
  unfolding map_fields lookup
  lookup-map_fields key end h = refl
  lookup-map_fields key (entry j v fs) h = elim (Bool-cases (text_eq j key)) [
    | inl e ↦
        let same : j ≡ key = (text_eq_iff j key).0 e in
        rw (e, same)
          (lookup-put_field_self key (f (field key) v) (map_fields f fs)
            (lookup-map_fields-none key fs (rw same at (h.0))))
    | inr e ↦
        rw (e, lookup-put_field_other key j (f (field j) v) (map_fields f fs) e)
          (lookup-map_fields key fs h.2)
  ]

  pub item_at-map_items :
      (n : ℕ) (xs : Items) (i : ℕ)
      → item_at n (map_items f xs i)
        ≡ follow (λ v. some (or_null (f (index (pos (n + i))) v))) (item_at n xs)
  unfolding map_items item_at
  item_at-map_items n nil i = refl
  item_at-map_items zero (cons v xs) i = rw (item_at-put_item_zero, zero-add i)
  item_at-map_items (suc n) (cons v xs) i =
      let shift : n + suc i ≡ suc n + i = omega arith in
      rw (item_at-put_item-suc, ← shift) (item_at-map_items n xs (suc i))

-- `g` makes a value's children by `f`.
abbrev pub Makes : (Segment → Value → Option Value) → Value → Value → Type 0
Makes f (object fs) w = w ≡ object (map_fields f fs)
Makes f (list xs) w = w ≡ list (map_items f xs 0)
Makes f (scalar s) w = w ≡ scalar s

pub child-Makes :
    (f : Segment → Value → Option Value) (s : Segment) (v w : Value)
    → WellFormed v
    → Makes f v w
    → child s w ≡ follow (λ u. slot s (f s u)) (child s v)
child-Makes f (field key) (object fs) w h m = rw m (lookup-map_fields f key fs h)
child-Makes f (index (pos n)) (list xs) w h m = rw m (rw (item_at-map_items f n xs 0, add-zero n))
child-Makes f (index (pos n)) (object fs) w h m = rw m
child-Makes f (index (pos n)) (scalar x) w h m = rw m
child-Makes f (field key) (list xs) w h m = rw m
child-Makes f (field key) (scalar x) w h m = rw m
child-Makes f (index (negsuc n)) v w h m = refl
child-Makes f field_wildcard v w h m = refl
child-Makes f index_wildcard v w h m = refl

pub keep_fields-inv : (fs : Fields) (w : Value) → keep_fields fs ≡ some w → w ≡ object fs
keep_fields-inv end w h = cc
keep_fields-inv (entry key v fs) w h = cc

pub keep_fields-some :
    (key : Text) (v : Value) (fs : Fields)
    → lookup key fs ≡ some v
    → keep_fields fs ≡ some (object fs)
unfolding lookup
keep_fields-some key v end h = cc
keep_fields-some key v (entry j w fs) h = refl

WellFormed-lookup :
    (key : Text) (fs : Fields) (u : Value)
    → WellFormedFields fs
    → lookup key fs ≡ some u
    → WellFormed u
unfolding lookup
WellFormed-lookup key end u h e = cc
WellFormed-lookup key (entry j v fs) u h e = elim (Bool-cases (text_eq j key)) [
  | inl same ↦ let e' : v ≡ u = cc (rw same at e) in subst WellFormed e' h.1
  | inr other ↦ WellFormed-lookup key fs u h.2 (rw other at e)
]

WellFormed-item_at :
    (n : ℕ) (xs : Items) (u : Value) → WellFormedItems xs → item_at n xs ≡ some u → WellFormed u
unfolding item_at
WellFormed-item_at n nil u h e = cc
WellFormed-item_at zero (cons v xs) u h e = let same : v ≡ u = cc in subst WellFormed same h.0
WellFormed-item_at (suc n) (cons v xs) u h e = WellFormed-item_at n xs u h.1 e

pub WellFormed-child :
    (s : Segment) (v u : Value) → WellFormed v → child s v ≡ some u → WellFormed u
WellFormed-child (field key) (object fs) u h e = WellFormed-lookup key fs u h e
WellFormed-child (index (pos n)) (list xs) u h e = WellFormed-item_at n xs u h e
WellFormed-child (index (pos n)) (object fs) u h e = cc
WellFormed-child (index (pos n)) (scalar x) u h e = cc
WellFormed-child s v u h e = cc

-- An empty map has no leaf.
pub value_at-empty : (p : Segments) (x : Scalar) → value_at p (object end) ≡ some (scalar x) → ⊥
value_at-empty [] x h = cc
value_at-empty (field key ∷ p) x h = unfold lookup in cc h
value_at-empty (index (pos n) ∷ p) x h = cc
value_at-empty (index (negsuc n) ∷ p) x h = cc
value_at-empty (field_wildcard ∷ p) x h = cc
value_at-empty (index_wildcard ∷ p) x h = cc
