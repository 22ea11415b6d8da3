-- ===== src/Base/Assoc.antt =====
-- Maps with text keys, as lists of entries.
use mathlib.Core.Option.{Option, none, some}
use mathlib.Core.List.{List, [], ◌∷◌}
use drift_sentinel.Base.Tests.{if◌then◌else◌}
use drift_sentinel.Base.Text.{Text, text_eq}

unfoldable pub find {ℓ} : {A : Type ℓ} → Text → List (Text × A) → Option A
find key [] = none
find key ((j, a) ∷ entries) = if text_eq j key then some a else find key entries

-- `m[key]`, the empty text for a missing key.
abbrev pub or_empty : Option Text → Text
or_empty none = []
or_empty (some value) = value

abbrev pub get : Text → List (Text × Text) → Text
get key entries = or_empty (find key entries)
