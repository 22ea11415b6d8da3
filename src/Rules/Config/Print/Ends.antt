-- ===== src/Rules/Config/Print/Ends.antt =====
-- The lines of a canonical rule text have no end of line inside, so splitting finds them again.
use drift_sentinel.Base.{
  true, false, not, List, [], ◌∷◌, ◌++◌, map, ◌==◌, all, ◌≡◌, refl, ap, ◌∙◌, arith,
}
use drift_sentinel.Base.Text.{Text, join, split_at}
use drift_sentinel.Base.Number.{IsNumeral-all, is_numeral, print_int, print_int-IsNumeral}
use drift_sentinel.Rules.Types.{ResourceSelector}
use drift_sentinel.Rules.Config.Spec.{
  ListKey, RawRuleSpec, exclude, include, labels, mutable, namespaces, users,
}
use drift_sentinel.Rules.Config.Print.{
  AreQuotable, AreQuotableSelectors, IsPrintable, IsQuotable, header, item_line, list_lines,
  selector_lines, spec_lines,
}

-- No character ends a line.
abbrev pub IsLine : Text → Type 0
IsLine line = all (λ c. not (c == 10)) line ≡ true

abbrev pub AreLines : List Text → Type 0
AreLines [] = Unit
AreLines (line ∷ lines) = IsLine line × AreLines lines

split_at-line : (line : Text) → IsLine line → split_at 10 line ≡ line ∷ []
unfolding split_at
split_at-line [] h = refl
split_at-line (c ∷ line) h =
    let here : (c == 10) ≡ false = ground arith in rw (here, split_at-line line (ground arith)) refl

split_at-append :
    (line rest : Text) → IsLine line → split_at 10 (line ++ 10 ∷ rest) ≡ line ∷ split_at 10 rest
unfolding split_at
split_at-append [] rest h = refl
split_at-append (c ∷ line) rest h =
    let here : (c == 10) ≡ false = ground arith in
    rw (here, split_at-append line rest (ground arith)) refl

-- Splitting undoes joining.
pub split_at-join :
    (line : Text) (lines : List Text)
    → AreLines (line ∷ lines)
    → split_at 10 (join (10 ∷ []) (line ∷ lines)) ≡ line ∷ lines
unfolding join
split_at-join line [] h = split_at-line line h.0
split_at-join line (next ∷ lines) h =
    split_at-append line (join (10 ∷ []) (next ∷ lines)) h.0
    ∙ ap (λ rest. line ∷ rest) (split_at-join next lines h.1)

quoted-IsLine : (s : Text) → IsQuotable s → IsLine (s ++ 34 ∷ [])
quoted-IsLine [] h = refl
quoted-IsLine (c ∷ s) h = ground (arith, quoted-IsLine s)

numeral-IsLine : (s : Text) → all is_numeral s ≡ true → IsLine s
numeral-IsLine [] h = refl
numeral-IsLine (c ∷ s) h = ground (arith, numeral-IsLine s)

header-IsLine : (key : ListKey) → IsLine (header key)
header-IsLine namespaces = refl
header-IsLine _ = refl

items-AreLines :
    (ss lines : List Text) → AreQuotable ss → AreLines lines → AreLines (map item_line ss ++ lines)
items-AreLines [] lines h k = k
items-AreLines (s ∷ ss) lines h k = (quoted-IsLine s h.0, items-AreLines ss lines h.1 k)

selectors-AreLines :
    (ss : List ResourceSelector) (lines : List Text)
    → AreQuotableSelectors ss
    → AreLines lines
    → AreLines (selector_lines ss ++ lines)
selectors-AreLines [] lines h k = k
selectors-AreLines (s ∷ ss) lines (g, q, h) k =
    (quoted-IsLine s.api_group g, (quoted-IsLine s.kind q, selectors-AreLines ss lines h k))

list_lines-AreLines :
    (key : ListKey) (ss lines : List Text)
    → AreQuotable ss
    → AreLines lines
    → AreLines (list_lines key ss lines)
list_lines-AreLines key ss lines h k = (header-IsLine key, items-AreLines ss lines h k)

pub spec_lines-AreLines : (spec : RawRuleSpec) → IsPrintable spec → AreLines (spec_lines spec)
spec_lines-AreLines spec h = (
  quoted-IsLine spec.mode h.mode.0,
  (
    numeral-IsLine (print_int spec.priority)
        (IsNumeral-all (print_int spec.priority) (print_int-IsNumeral spec.priority)),
    list_lines-AreLines namespaces spec.namespaces _ h.namespaces (
      refl,
      selectors-AreLines spec.selectors _ h.selectors (
          list_lines-AreLines labels spec.labels _ h.labels (
            list_lines-AreLines exclude spec.exclude _ h.exclude (
              list_lines-AreLines include spec.include _ h.include (
                list_lines-AreLines mutable spec.mutable _ h.mutable (
                  list_lines-AreLines users spec.users _ h.users
                    (quoted-IsLine spec.bypass h.bypass.0, tt)))))),
    ),
  ),
)
