-- ===== src/Diff/Compare/Reference.antt =====
-- The comparison as a function that lists the differing paths, and the proof that the traversal of
-- the program appends their renderings.
use drift_sentinel.Base.{
  ℕ, suc, Bool, true, false, List, [], ◌∷◌, ◌++◌, map, Option, none, some, if◌then◌else◌, ◌≡◌, refl,
  sym, ap, ◌∙◌, append_assoc, append-nil, arith,
}
use drift_sentinel.Base.Text.{Text, Unicode, text_eq}
use drift_sentinel.Base.Number.{pos}
use drift_sentinel.Base.Assoc.{find}
use drift_sentinel.Diff.Segment.{Segments, Segment, field, index, append_path}
use drift_sentinel.Diff.Value.{
  Value, scalar, list, object, Items, nil, cons, Fields, end, entry, values_equal, lookup,
}
use drift_sentinel.Diff.Render.{render_path}
use drift_sentinel.Diff.Compare.{
  Comparer, sorted_keys, compare_child, compare_keys, append_rest, compare_value, compare_list,
  comparers,
}

abbrev pub Paths : Type 0
Paths = List Segments

abbrev pub under : Segment → Paths → Paths
under s = map (λ p. s ∷ p)

abbrev pub Subtree : Type 0
Subtree = Value → Paths

abbrev pub child_differences : Option Subtree → Option Value → Paths
child_differences (some f) (some w) = f w
child_differences _ _ = [] ∷ []

unfoldable pub key_differences : List Text → List (Text × Subtree) → Fields → Paths
key_differences [] olds new = []
key_differences (key ∷ keys) olds new =
    under (field key) (child_differences (find key olds) (lookup key new))
    ++ key_differences keys olds new

unfoldable pub rest_differences : Items → ℕ → Paths
rest_differences nil i = []
rest_differences (cons v xs) i = (index (pos i) ∷ []) ∷ rest_differences xs (suc i)

abbrev pub scalar_differences : Bool → Paths
scalar_differences equal = if equal then [] else [] ∷ []

unfoldable mutual
  pub differences : Value → Value → Paths
  differences (object old) (object new) = key_differences (sorted_keys old new) (subtrees old) new
  differences (object old) _ = [] ∷ []
  differences (list old) (list new) = list_differences old new 0
  differences (list old) _ = [] ∷ []
  differences (scalar s) (scalar t) = scalar_differences (values_equal s t)
  differences (scalar s) _ = [] ∷ []

  pub list_differences : Items → Items → ℕ → Paths
  list_differences nil new i = rest_differences new i
  list_differences (cons v old) nil i = rest_differences (cons v old) i
  list_differences (cons v old) (cons w new) i =
      under (index (pos i)) (differences v w) ++ list_differences old new (suc i)

  pub subtrees : Fields → List (Text × Subtree)
  subtrees end = []
  subtrees (entry key v fs) = (key, differences v) ∷ subtrees fs

module _ ⦃u : Unicode⦄ where
  -- The renderings of paths below `current`.
  abbrev pub report : Segments → Paths → List Text
  report current = map (λ p. render_path (current ++ p))

  report-append :
      (current : Segments) (ps qs : Paths)
      → report current (ps ++ qs) ≡ report current ps ++ report current qs
  report-append current [] qs = refl
  report-append current (p ∷ ps) qs = rw (report-append current ps qs)

  report-under :
      (current : Segments) (s : Segment) (ps : Paths)
      → report (append_path current s) ps ≡ report current (under s ps)
  report-under current s [] = refl
  report-under current s (p ∷ ps) = rw (report-under current s ps, append_assoc current (s ∷ []) p)

  -- Two parts of a list reported one after the other.
  report-step :
      (changed : List Text) (current : Segments) (s : Segment) (ps qs : Paths)
      → (changed ++ report (append_path current s) ps) ++ report current qs
        ≡ changed ++ report current (under s ps ++ qs)
  report-step changed current s ps qs =
      rw (report-under current s ps, report-append current (under s ps) qs)
        (append_assoc changed (report current (under s ps)) (report current qs))

  append_rest-eq :
      (xs : Items) (i : ℕ) (current : Segments) (changed : List Text)
      → append_rest xs i current changed ≡ changed ++ report current (rest_differences xs i)
  unfolding append_rest rest_differences
  append_rest-eq nil i current changed = sym (append-nil changed)
  append_rest-eq (cons v xs) i current changed = rw (append_rest-eq xs (suc i) current) (
      append_assoc changed (render_path (append_path current (index (pos i))) ∷ [])
        (report current (rest_differences xs (suc i))))

  report_root : (current : Segments) → report current ([] ∷ []) ≡ render_path current ∷ []
  report_root current = rw (append-nil current)

  -- A child's comparison and its listing agree, whatever the new value.
  abbrev Agree : Option Comparer → Option Subtree → Type 0
  Agree c t =
      (w : Option Value) (path : Segments) (changed : List Text)
      → compare_child c w path changed ≡ changed ++ report path (child_differences t w)

  Agree-none : Agree none none
  Agree-none none path changed = rw (report_root path)
  Agree-none (some w) path changed = rw (report_root path)

  Agree-if :
      (found : Bool) (c : Comparer) (t : Subtree) (c' : Option Comparer) (t' : Option Subtree)
      → ((w : Value) (path : Segments) (changed : List Text)
          → c w path changed ≡ changed ++ report path (t w))
      → Agree c' t'
      → Agree (if found then some c else c') (if found then some t else t')
  Agree-if true c t c' t' h h' none path changed = rw (report_root path)
  Agree-if true c t c' t' h h' (some w) path changed = h w path changed
  Agree-if false c t c' t' h h' w path changed = h' w path changed

  compare_keys-eq :
      (keys : List Text) (olds : List (Text × Comparer)) (trees : List (Text × Subtree))
      (new : Fields) (current : Segments) (changed : List Text)
      → ((key : Text) → Agree (find key olds) (find key trees))
      → compare_keys keys olds new current changed
        ≡ changed ++ report current (key_differences keys trees new)
  unfolding compare_keys key_differences
  compare_keys-eq [] olds trees new current changed h = sym (append-nil changed)
  compare_keys-eq (key ∷ keys) olds trees new current changed h =
      rw (h key (lookup key new) (append_path current (field key)) changed) (
        compare_keys-eq keys olds trees new current _ h
        ∙ report-step changed current (field key)
            (child_differences (find key trees) (lookup key new)) (key_differences keys trees new))

  mutual
    unfolding compare_value differences find

    value-eq :
        (v w : Value) (current : Segments) (changed : List Text)
        → compare_value v w current changed ≡ changed ++ report current (differences v w)
    value-eq (object old) (object new) current changed =
        compare_keys-eq (sorted_keys old new) (comparers old) (subtrees old) new current changed
          (fields-Agree old)
    value-eq (object old) (list new) current changed = rw (report_root current)
    value-eq (object old) (scalar new) current changed = rw (report_root current)
    value-eq (list old) (list new) current changed = items-eq old new 0 current changed
    value-eq (list old) (object new) current changed = rw (report_root current)
    value-eq (list old) (scalar new) current changed = rw (report_root current)
    value-eq (scalar s) (scalar t) current changed =
        ground (arith, append-nil changed, append-nil current)
    value-eq (scalar s) (object new) current changed = rw (report_root current)
    value-eq (scalar s) (list new) current changed = rw (report_root current)

    items-eq :
        (old new : Items) (i : ℕ) (current : Segments) (changed : List Text)
        → compare_list old new i current changed
          ≡ changed ++ report current (list_differences old new i)
    items-eq nil new i current changed = append_rest-eq new i current changed
    items-eq (cons v old) nil i current changed = append_rest-eq (cons v old) i current changed
    items-eq (cons v old) (cons w new) i current changed =
        ap (λ c. compare_list old new (suc i) current c)
          (value-eq v w (append_path current (index (pos i))) changed)
        ∙ (items-eq old new (suc i) current _
            ∙ report-step changed current (index (pos i)) (differences v w)
                (list_differences old new (suc i)))

    fields-Agree :
        (fs : Fields) (key : Text) → Agree (find key (comparers fs)) (find key (subtrees fs))
    fields-Agree end key = Agree-none
    fields-Agree (entry j v fs) key =
        Agree-if (text_eq j key) (compare_value v) (differences v) _ _ (value-eq v)
          (fields-Agree fs key)

  pub compare_value-eq :
      (v w : Value) (current : Segments) (changed : List Text)
      → compare_value v w current changed ≡ changed ++ report current (differences v w)
  compare_value-eq = value-eq
