-- ===== src/Diff/Compare.antt =====
-- pkg/diff/diff.go: `Compare`, with `compareValue`, `compareMap` and `compareList`. The list of
-- changed paths, which the program shares by a pointer, is passed through the calls.
pub mod Nodes
pub mod Reference
pub mod Listing
pub mod First
pub mod Report
use drift_sentinel.Base.{
  ℕ, suc, Bool, true, false, List, [], ◌∷◌, ◌++◌, Option, none, some, if◌then◌else◌, any, is_empty,
}
use drift_sentinel.Base.Text.{Text, Unicode, text_eq, text_ltb, codes, is_letter, is_digit}
use drift_sentinel.Base.Number.{pos}
use drift_sentinel.Base.Assoc.{find}
use drift_sentinel.Base.Sort.{sort}
use drift_sentinel.Diff.Segment.{Segments, Segment, field, index, append_path}
use drift_sentinel.Diff.Value.{
  Value, scalar, list, object, Items, nil, cons, Fields, end, entry, values_equal, lookup, null,
  integer, IntKind,
}
use drift_sentinel.Diff.Render.{render_path}

pub record DiffResult : Type 0 where
  pub identical : Bool
  pub changed_paths : List Text
  pub mutable_changed : List Text
  pub immutable_changed : List Text

-- The set of the keys of two maps.
abbrev pub add_key : Text → List Text → List Text
add_key key keys = if any (text_eq key) keys then keys else key ∷ keys

unfoldable pub add_keys : Fields → List Text → List Text
add_keys end keys = keys
add_keys (entry key v fs) keys = add_keys fs (add_key key keys)

unfoldable pub sorted_keys : Fields → Fields → List Text
unfolding add_keys
sorted_keys old new = sort text_ltb (add_keys new (add_keys old []))

-- `compareValue` at an old value: the new value, the current path and the changed paths so far.
abbrev pub Comparer : Type 0
Comparer = Value → Segments → List Text → List Text

module _ ⦃u : Unicode⦄ where
  abbrev pub append_changed_path : Segments → List Text → List Text
  append_changed_path path changed = changed ++ render_path path ∷ []

  -- One round of the loop over the keys.
  abbrev pub compare_child : Option Comparer → Option Value → Segments → List Text → List Text
  compare_child (some old) (some new) path changed = old new path changed
  compare_child _ _ path changed = append_changed_path path changed

  unfoldable pub compare_keys :
      List Text → List (Text × Comparer) → Fields → Segments → List Text → List Text
  unfolding find
  compare_keys [] olds new current changed = changed
  compare_keys (key ∷ keys) olds new current changed =
      compare_keys keys olds new current
        (compare_child (find key olds) (lookup key new) (append_path current (field key)) changed)

  -- The rounds of `compareList` past the end of the shorter list.
  unfoldable pub append_rest : Items → ℕ → Segments → List Text → List Text
  append_rest nil i current changed = changed
  append_rest (cons v xs) i current changed =
      append_rest xs (suc i) current
        (append_changed_path (append_path current (index (pos i))) changed)

  unfoldable mutual
    pub compare_value : Value → Value → Segments → List Text → List Text
    compare_value (object old) (object new) current changed =
        compare_keys (sorted_keys old new) (comparers old) new current changed
    compare_value (object old) _ current changed = append_changed_path current changed
    compare_value (list old) (list new) current changed = compare_list old new 0 current changed
    compare_value (list old) _ current changed = append_changed_path current changed
    compare_value (scalar s) (scalar t) current changed =
        if values_equal s t then changed else append_changed_path current changed
    compare_value (scalar s) _ current changed = append_changed_path current changed

    pub compare_list : Items → Items → ℕ → Segments → List Text → List Text
    compare_list nil new i current changed = append_rest new i current changed
    compare_list (cons v old) nil i current changed = append_rest (cons v old) i current changed
    compare_list (cons v old) (cons w new) i current changed =
        compare_list old new (suc i) current
          (compare_value v w (append_path current (index (pos i))) changed)

    -- The old map, each child with its comparison still to be applied: the recursion of
    -- `compareValue` through `oldMap[key]`.
    pub comparers : Fields → List (Text × Comparer)
    comparers end = []
    comparers (entry key v fs) = (key, compare_value v) ∷ comparers fs

  unfoldable pub compare : Fields → Fields → DiffResult
  unfolding compare_value compare_keys append_rest sorted_keys
  compare old new =
      let paths = sort text_ltb (compare_value (object old) (object new) [] []) in
      record {
        identical = is_empty paths;
        changed_paths = paths;
        mutable_changed = [];
        immutable_changed = [];
      }
