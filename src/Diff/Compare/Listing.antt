-- ===== src/Diff/Compare/Listing.antt =====
-- Which paths the listing of a map or of a list holds.
use drift_sentinel.Base.{
  ℕ, zero, suc, ◌+◌, ◌<◌, Bool, true, false, ◌&&◌, ◌||◌, List, [], ◌∷◌, Option, none, some, any,
  any-append, ◌≡◌, refl, ◌∙◌, arith, Bool-cases, Option-cases, inl, inr,
}
use drift_sentinel.Base.Text.{Text, text_eq, text_eq_comm, text_eq_refl, text_eq_iff, text_ltb}
use drift_sentinel.Base.Number.{pos}
use drift_sentinel.Base.Assoc.{find}
use drift_sentinel.Base.Sort.{any-sort}
use drift_sentinel.Diff.Segment.{Segments, Segment, field, index, segment_eq, path_eq}
use drift_sentinel.Diff.Value.{Value, object, Items, nil, cons, Fields, end, entry, lookup, item_at}
use drift_sentinel.Diff.Compare.{add_key, add_keys, sorted_keys}
use drift_sentinel.Diff.Compare.Reference.{
  Paths, under, Subtree, child_differences, key_differences, rest_differences, differences,
  list_differences, subtrees,
}

-- The path is in the list.
abbrev pub has : Segments → Paths → Bool
has p = any (path_eq p)

abbrev pub is_root : Segments → Bool
is_root [] = true
is_root (s ∷ p) = false

-- Below a node that is the same on both sides: what the children say.
abbrev pub among : Bool → (Value → Value → Bool) → Option Value → Option Value → Bool
among root below none none = false
among root below (some v) (some w) = below v w
among root below _ _ = root

pub has-under :
    (p : Segments) (s t : Segment) (ps : Paths)
    → has (s ∷ p) (under t ps) ≡ (segment_eq s t && has p ps)
unfolding path_eq
has-under p s t [] = ground arith
has-under p s t (q ∷ ps) = ground (arith, has-under p s t ps)

pub has-under_root : (t : Segment) (ps : Paths) → has [] (under t ps) ≡ false
unfolding path_eq
has-under_root t [] = refl
has-under_root t (q ∷ ps) = has-under_root t ps

-- The keys that are compared are those of either map.
abbrev is_some : Option Value → Bool
is_some none = false
is_some (some v) = true

abbrev has_key : Text → List Text → Bool
has_key key = any (text_eq key)

pub has_key-add_key :
    (key j : Text) (keys : List Text)
    → has_key key (add_key j keys) ≡ (text_eq j key || has_key key keys)
has_key-add_key key j keys = elim (Bool-cases (has_key j keys)) [
  | inl seen ↦ elim (Bool-cases (text_eq j key)) [
    | inl same ↦ let e : j ≡ key = (text_eq_iff j key).0 same in rw (seen, same) (rw e at seen)
    | inr other ↦ rw (seen, other)
  ]
  | inr fresh ↦ rw (fresh, text_eq_comm j key)
]

pub has_key-add_keys :
    (key : Text) (fs : Fields) (keys : List Text)
    → has_key key (add_keys fs keys) ≡ (is_some (lookup key fs) || has_key key keys)
unfolding add_keys lookup
has_key-add_keys key end keys = refl
has_key-add_keys key (entry j v fs) keys =
    ground (arith, has_key-add_keys key fs (add_key j keys), has_key-add_key key j keys)

pub has_key-sorted_keys :
    (key : Text) (old new : Fields)
    → has_key key (sorted_keys old new) ≡ (is_some (lookup key new) || is_some (lookup key old))
unfolding sorted_keys
has_key-sorted_keys key old new =
    rw (any-sort text_ltb (text_eq key) (add_keys new (add_keys old [])))
      (ground (arith, has_key-add_keys key new (add_keys old []), has_key-add_keys key old []))

-- The listing at one key.
pub has-key_differences :
    (key : Text) (p : Segments) (keys : List Text) (olds : List (Text × Subtree)) (new : Fields)
    → has (field key ∷ p) (key_differences keys olds new)
      ≡ (has_key key keys && has p (child_differences (find key olds) (lookup key new)))
unfolding key_differences segment_eq
has-key_differences key p [] olds new = refl
has-key_differences key p (j ∷ keys) olds new =
    rw
      (any-append (path_eq (field key ∷ p))
        (under (field j) (child_differences (find j olds) (lookup j new)))
        (key_differences keys olds new))
      (rw
        (
          has-under p (field key) (field j) (child_differences (find j olds) (lookup j new)),
          has-key_differences key p keys olds new,
        )
        (elim (Bool-cases (text_eq key j)) [
          | inl same ↦
              let e : key ≡ j = (text_eq_iff key j).0 same in rw (e, text_eq_refl j) (ground arith)
          | inr other ↦ rw other
        ]))

pub has-key_differences_root :
    (keys : List Text) (olds : List (Text × Subtree)) (new : Fields)
    → has [] (key_differences keys olds new) ≡ false
unfolding key_differences
has-key_differences_root [] olds new = refl
has-key_differences_root (j ∷ keys) olds new =
    rw any-append (rw (has-under_root, has-key_differences_root keys olds new))

pub has-key_differences_other :
    (s : Segment) (p : Segments) (keys : List Text) (olds : List (Text × Subtree)) (new : Fields)
    → ((key : Text) → segment_eq s (field key) ≡ false)
    → has (s ∷ p) (key_differences keys olds new) ≡ false
unfolding key_differences
has-key_differences_other s p [] olds new h = refl
has-key_differences_other s p (j ∷ keys) olds new h =
    rw any-append (rw (has-under, h j, has-key_differences_other s p keys olds new h))

pub find-subtrees-none :
    (key : Text) (fs : Fields) → lookup key fs ≡ none → find key (subtrees fs) ≡ none
unfolding lookup find differences
find-subtrees-none key end h = refl
find-subtrees-none key (entry j v fs) h = ground (arith, find-subtrees-none key fs)

pub find-subtrees-some :
    (key : Text) (fs : Fields) (v : Value)
    → lookup key fs ≡ some v
    → find key (subtrees fs) ≡ some (differences v)
unfolding lookup find differences
find-subtrees-some key end v h = ground arith
find-subtrees-some key (entry j w fs) v h = elim (Bool-cases (text_eq j key)) [
  | inl here ↦ rw here (ground arith)
  | inr later ↦ rw later (find-subtrees-some key fs v (rw later at h))
]

pub path_eq-root : (p : Segments) → path_eq p [] ≡ is_root p
unfolding path_eq
path_eq-root [] = refl
path_eq-root (s ∷ p) = refl

-- No path of the listing goes below the index at which it starts.
pub has-rest_differences_before :
    (n : ℕ) (p : Segments) (xs : Items) (i : ℕ)
    → n < i
    → has (index (pos n) ∷ p) (rest_differences xs i) ≡ false
unfolding rest_differences path_eq
has-rest_differences_before n p nil i h = refl
has-rest_differences_before n p (cons v xs) i h =
    ground (arith, has-rest_differences_before n p xs (suc i))

pub has-rest_differences_other :
    (s : Segment) (p : Segments) (xs : Items) (i : ℕ)
    → ((n : ℕ) → segment_eq s (index (pos n)) ≡ false)
    → has (s ∷ p) (rest_differences xs i) ≡ false
unfolding rest_differences path_eq
has-rest_differences_other s p nil i h = refl
has-rest_differences_other s p (cons v xs) i h =
    rw (h i) (has-rest_differences_other s p xs (suc i) h)

pub has-rest_differences_root : (xs : Items) (i : ℕ) → has [] (rest_differences xs i) ≡ false
unfolding rest_differences path_eq
has-rest_differences_root nil i = refl
has-rest_differences_root (cons v xs) i = has-rest_differences_root xs (suc i)

pub has-list_differences_before :
    (n : ℕ) (p : Segments) (old new : Items) (i : ℕ)
    → n < i
    → has (index (pos n) ∷ p) (list_differences old new i) ≡ false
unfolding differences
has-list_differences_before n p nil new i h = has-rest_differences_before n p new i h
has-list_differences_before n p (cons v old) nil i h =
    has-rest_differences_before n p (cons v old) i h
has-list_differences_before n p (cons v old) (cons w new) i h = rw any-append (
    rw (has-under, has-list_differences_before n p old new (suc i) (omega arith))
      (unfold segment_eq in ground arith))

pub has-rest_differences :
    (n j : ℕ) (p : Segments) (xs : Items) (i : ℕ)
    → n ≡ j + i
    → has (index (pos n) ∷ p) (rest_differences xs i) ≡ (is_some (item_at j xs) && is_root p)
unfolding rest_differences path_eq item_at
has-rest_differences n j p nil i h = refl
has-rest_differences n zero p (cons v xs) i h =
    rw (has-rest_differences_before n p xs (suc i) (omega arith), path_eq-root p) (ground arith)
has-rest_differences n (suc j) p (cons v xs) i h =
    rw (has-rest_differences n j p xs (suc i) (omega arith)) (ground arith)

pub among-left :
    (root : Bool) (below : Value → Value → Bool) (o : Option Value)
    → (is_some o && root) ≡ among root below none o
among-left root below none = refl
among-left root below (some v) = refl

pub among-right :
    (root : Bool) (below : Value → Value → Bool) (o : Option Value)
    → (is_some o && root) ≡ among root below o none
among-right root below none = refl
among-right root below (some v) = refl

-- The listing at one index, and at one key.
pub has-list_differences :
    (n j : ℕ) (p : Segments) (old new : Items) (i : ℕ)
    → n ≡ j + i
    → has (index (pos n) ∷ p) (list_differences old new i)
      ≡ among (is_root p) (λ v w. has p (differences v w)) (item_at j old) (item_at j new)
unfolding differences item_at
has-list_differences n j p nil new i h =
    rw (has-rest_differences n j p new i h)
      (among-left (is_root p) (λ v w. has p (differences v w)) (item_at j new))
has-list_differences n j p (cons v old) nil i h =
    rw (has-rest_differences n j p (cons v old) i h)
      (among-right (is_root p) (λ v w. has p (differences v w)) (item_at j (cons v old)))
has-list_differences n zero p (cons v old) (cons w new) i h = rw any-append (
    rw (has-under, has-list_differences_before n p old new (suc i) (omega arith))
      (unfold segment_eq in ground arith))
has-list_differences n (suc j) p (cons v old) (cons w new) i h = rw any-append (
    rw (has-under, has-list_differences n j p old new (suc i) (omega arith))
      (unfold segment_eq in ground arith))

pub child-absent :
    (p : Segments) (o : Option Value)
    → ((is_some o || false) && has p (child_differences none o))
      ≡ among (is_root p) (λ v w. has p (differences v w)) none o
child-absent p none = refl
child-absent p (some w) = rw path_eq-root (ground arith)

pub child-present :
    (p : Segments) (v : Value) (o : Option Value)
    → ((is_some o || true) && has p (child_differences (some (differences v)) o))
      ≡ among (is_root p) (λ v w. has p (differences v w)) (some v) o
child-present p v none = rw path_eq-root (ground arith)
child-present p v (some w) = refl

pub has-object_differences :
    (key : Text) (p : Segments) (old new : Fields)
    → has (field key ∷ p) (differences (object old) (object new))
      ≡ among (is_root p) (λ v w. has p (differences v w)) (lookup key old) (lookup key new)
unfolding differences
has-object_differences key p old new =
    has-key_differences key p (sorted_keys old new) (subtrees old) new
    ∙ rw (has_key-sorted_keys key old new) (elim (Option-cases (lookup key old)) [
      | inl e ↦ rw (e, find-subtrees-none key old e) (child-absent p (lookup key new))
      | inr (v, e) ↦ rw (e, find-subtrees-some key old v e) (child-present p v (lookup key new))
    ])

pub among-cong :
    (root : Bool) (f g : Value → Value → Bool) (o o' : Option Value)
    → ((v w : Value) → f v w ≡ g v w)
    → among root f o o' ≡ among root g o o'
among-cong root f g none none h = refl
among-cong root f g none (some w) h = refl
among-cong root f g (some v) none h = refl
among-cong root f g (some v) (some w) h = h v w

-- A negative index, or a segment of the wrong kind, has no child on either side.
pub has-list_differences_other :
    (s : Segment) (p : Segments) (old new : Items) (i : ℕ)
    → ((n : ℕ) → segment_eq s (index (pos n)) ≡ false)
    → has (s ∷ p) (list_differences old new i) ≡ false
unfolding differences
has-list_differences_other s p nil new i h = has-rest_differences_other s p new i h
has-list_differences_other s p (cons v old) nil i h =
    has-rest_differences_other s p (cons v old) i h
has-list_differences_other s p (cons v old) (cons w new) i h =
    rw any-append (rw (has-under, h i) (has-list_differences_other s p old new (suc i) h))

pub has-list_differences_root :
    (old new : Items) (i : ℕ) → has [] (list_differences old new i) ≡ false
unfolding differences
has-list_differences_root nil new i = has-rest_differences_root new i
has-list_differences_root (cons v old) nil i = has-rest_differences_root (cons v old) i
has-list_differences_root (cons v old) (cons w new) i =
    rw any-append (rw (has-under_root) (has-list_differences_root old new (suc i)))
