-- ===== src/Rules/Config/Print.antt =====
-- The canonical text of a rule: one key to a line, texts in double quotes, lists as blocks.
pub mod Lines
pub mod Blocks
pub mod Keys
pub mod Sections
pub mod Ends
use drift_sentinel.Base.{ℕ, Bool, true, false, not, ◌&&◌, List, [], ◌∷◌, ◌++◌, map, ◌==◌, all, ◌≡◌}
use drift_sentinel.Base.Text.{Text, codes, join}
use drift_sentinel.Base.Number.{IsInt, print_int}
use drift_sentinel.Rules.Types.{ResourceSelector}
use drift_sentinel.Rules.Config.Spec.{
  ListKey, RawRuleSpec, exclude, include, labels, mutable, namespaces, users,
}
use drift_sentinel.Rules.Config.Lists.Sound.{HaveKinds}

-- A text in double quotes.
abbrev pub quoted : Text → Text
quoted s = 34 ∷ (s ++ 34 ∷ [])

abbrev pub item_line : Text → Text
item_line s = codes "  - " ++ quoted s

abbrev pub group_line : Text → Text
group_line s = codes "  - apiGroup: " ++ quoted s

abbrev pub kind_line : Text → Text
kind_line s = codes "    kind: " ++ quoted s

abbrev pub selector_lines : List ResourceSelector → List Text
selector_lines [] = []
selector_lines (s ∷ selectors) =
    group_line s.api_group ∷ kind_line s.kind ∷ selector_lines selectors

abbrev pub header : ListKey → Text
header namespaces = codes "namespaces:"
header labels = codes "labels:"
header exclude = codes "exclude:"
header include = codes "include:"
header mutable = codes "mutable:"
header users = codes "users:"

-- The lines of the list behind the key, and those that follow.
abbrev pub list_lines : ListKey → List Text → List Text → List Text
list_lines key items rest = header key ∷ (map item_line items ++ rest)

abbrev pub spec_lines : RawRuleSpec → List Text
spec_lines spec =
    (codes "mode: " ++ quoted spec.mode)
    ∷ (codes "priority: " ++ print_int spec.priority)
    ∷ list_lines namespaces spec.namespaces (
        codes "selectors:"
        ∷ (selector_lines spec.selectors
            ++ list_lines labels spec.labels (
                list_lines exclude spec.exclude (
                  list_lines include spec.include (
                    list_lines mutable spec.mutable (
                      list_lines users spec.users
                        ((codes "bypass: " ++ quoted spec.bypass) ∷ [])))))))

unfoldable pub print_spec : RawRuleSpec → Text
print_spec spec = join (10 ∷ []) (spec_lines spec)

-- A text with no double quote and no end of line.
abbrev pub is_quotable : ℕ → Bool
is_quotable c = not (c == 34) && not (c == 10)

abbrev pub IsQuotable : Text → Type 0
IsQuotable s = all is_quotable s ≡ true

abbrev pub AreQuotable : List Text → Type 0
AreQuotable [] = Unit
AreQuotable (s ∷ ss) = IsQuotable s × AreQuotable ss

abbrev pub AreQuotableSelectors : List ResourceSelector → Type 0
AreQuotableSelectors [] = Unit
AreQuotableSelectors (s ∷ selectors) =
    IsQuotable s.api_group × IsQuotable s.kind × AreQuotableSelectors selectors

-- Behind a key at the top no tab is allowed either.
abbrev pub IsInline : Text → Type 0
IsInline s = IsQuotable s × (all (λ c. not (c == 9)) s ≡ true)

pub record IsPrintable (spec : RawRuleSpec) : Type 0 where
  pub mode : IsInline spec.mode
  pub priority : IsInt spec.priority
  pub namespaces : AreQuotable spec.namespaces
  pub selectors : AreQuotableSelectors spec.selectors
  pub kinds : HaveKinds spec.selectors
  pub labels : AreQuotable spec.labels
  pub exclude : AreQuotable spec.exclude
  pub include : AreQuotable spec.include
  pub mutable : AreQuotable spec.mutable
  pub users : AreQuotable spec.users
  pub bypass : IsInline spec.bypass
