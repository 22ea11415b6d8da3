-- ===== src/Admission/Object.antt =====
-- pkg/admission/validator.go: reading and changing the annotations and labels of decoded objects.
pub mod Removal
use drift_sentinel.Base.{Bool, false, List, [], ◌∷◌, Option, none, some, if◌then◌else◌, any}
use drift_sentinel.Base.Text.{Text, codes, text_eq, trim_space, folds_to_true}
use drift_sentinel.Rules.Types.{TextMap}
use drift_sentinel.Diff.Value.{Value, scalar, bool, string, object, Fields, end, entry, lookup}
use drift_sentinel.Diff.Strip.{strip}

abbrev pub metadata_key : Text
metadata_key = codes "metadata"

abbrev pub annotations_key : Text
annotations_key = codes "annotations"

-- `obj[key].(map[string]any)`.
abbrev pub as_map : Option Value → Option Fields
as_map (some (object fs)) = some fs
as_map _ = none

abbrev is_true : Option Value → Bool
is_true (some (scalar (string s))) = folds_to_true (trim_space s)
is_true (some (scalar (bool b))) = b
is_true _ = false

abbrev true_in : Text → Option Fields → Bool
true_in key none = false
true_in key (some annotations) = is_true (lookup key annotations)

abbrev annotations_of : Option Fields → Option Fields
annotations_of none = none
annotations_of (some metadata) = as_map (lookup annotations_key metadata)

unfoldable pub has_true_annotation : Fields → Text → Bool
has_true_annotation obj key = true_in key (annotations_of (as_map (lookup metadata_key obj)))

-- `delete(m, key)` and `m[key] = v` for a key that is there.
unfoldable pub delete_key : Text → Fields → Fields
delete_key key end = end
delete_key key (entry j v fs) =
    if text_eq j key then delete_key key fs else entry j v (delete_key key fs)

unfoldable pub update_key : Text → Value → Fields → Fields
update_key key w end = end
update_key key w (entry j v fs) =
    if text_eq j key then entry j w fs else entry j v (update_key key w fs)

abbrev put_annotations : Fields → Fields → Fields
put_annotations end metadata = delete_key annotations_key metadata
put_annotations (entry k v fs) metadata =
    update_key annotations_key (object (entry k v fs)) metadata

abbrev remove_in_metadata : Text → Option Fields → Fields → Fields
remove_in_metadata key none metadata = metadata
remove_in_metadata key (some annotations) metadata =
    put_annotations (delete_key key annotations) metadata

abbrev remove_in_object : Text → Option Fields → Fields → Fields
remove_in_object key none obj = obj
remove_in_object key (some metadata) obj =
    update_key metadata_key
      (object (remove_in_metadata key (as_map (lookup annotations_key metadata)) metadata)) obj

-- The maps are changed in place; the caller owns all of them.
unfoldable pub remove_annotation : Fields → Text → Fields
unfolding delete_key update_key
remove_annotation obj key = remove_in_object key (as_map (lookup metadata_key obj)) obj

unfoldable pub clone_object : Fields → Fields
clone_object obj = strip obj []

string_fields : Fields → TextMap
string_fields end = []
string_fields (entry key (scalar (string s)) fs) = (key, s) ∷ string_fields fs
string_fields (entry key v fs) = string_fields fs

abbrev labels_of : Option Fields → TextMap
labels_of none = []
labels_of (some labels) = string_fields labels

abbrev labels_in : Option Fields → Option Fields
labels_in none = none
labels_in (some metadata) = as_map (lookup (codes "labels") metadata)

unfoldable pub extract_labels : Fields → TextMap
unfolding string_fields
extract_labels obj = labels_of (labels_in (as_map (lookup metadata_key obj)))

unfoldable pub contains_string : List Text → Text → Bool
contains_string values target = any (λ value. text_eq value target) values
