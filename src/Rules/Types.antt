-- ===== src/Rules/Types.antt =====
-- pkg/rules/types.go.
use drift_sentinel.Base.{List}
use drift_sentinel.Base.Text.{Text, codes}
use drift_sentinel.Base.Number.{ℤ}

abbrev pub rule_annotation_key : Text
rule_annotation_key = codes "drift-sentinel.k8s.io/rule"

abbrev pub default_bypass_annotation : Text
default_bypass_annotation = codes "drift-sentinel.k8s.io/bypass"

abbrev pub namespace_mode_annotation : Text
namespace_mode_annotation = codes "drift-sentinel.k8s.io/mode"

-- `type Mode string`: any text can be one, these four are valid.
abbrev pub Mode : Type 0
Mode = Text

abbrev pub mode_enforce : Mode
mode_enforce = codes "enforce"

abbrev pub mode_warn : Mode
mode_warn = codes "warn"

abbrev pub mode_dry_run : Mode
mode_dry_run = codes "dry-run"

abbrev pub mode_off : Mode
mode_off = codes "off"

pub record ResourceSelector : Type 0 where
  pub api_group : Text
  pub kind : Text

pub record Rule : Type 0 where
  pub name : Text
  pub namespace : Text
  pub priority : ℤ
  pub mode : Mode
  pub namespaces : List Text
  pub selectors : List ResourceSelector
  pub labels : List Text
  pub exclude : List Text
  pub include : List Text
  pub mutable : List Text
  pub users : List Text
  pub bypass : Text

-- A map from texts to texts, in the order of some iteration.
abbrev pub TextMap : Type 0
TextMap = List (Text × Text)

pub record ConfigMap : Type 0 where
  pub name : Text
  pub namespace : Text
  pub annotations : TextMap
  pub values : TextMap

pub record MatchInput : Type 0 where
  pub namespace : Text
  pub api_group : Text
  pub kind : Text
  pub labels : TextMap

-- The outcome of `ResolveMode`.
pub data Resolved : Type 0 where
  unset : Resolved
  found : Mode → Resolved
  unresolved : Text → Resolved
