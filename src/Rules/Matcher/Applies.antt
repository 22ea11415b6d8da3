-- ===== src/Rules/Matcher/Applies.antt =====
-- When a rule applies to an input, without the loops of the matcher.
use mathlib.Core.Path.{subst}
use drift_sentinel.Base.{
  ℕ, Bool, true, false, not, ◌&&◌, List, [], ◌∷◌, ◌++◌, Option, none, some, ◌==◌, any, all, &&_inv,
  Bool-cases, Option-cases, ◌≡◌, ◌≢◌, ◌↔◌, ◌⊎◌, inl, inr, refl, sym, ap, ◌∙◌, arith,
}
use drift_sentinel.Base.Text.{Text, cut_at, text_eq, text_eq_iff, text_eq_refl, trim_space}
use drift_sentinel.Base.Assoc.{find}
use drift_sentinel.Base.Sort.{In}
use drift_sentinel.Rules.Types.{MatchInput, ResourceSelector, Rule, TextMap}
use drift_sentinel.Rules.PathMatch.{path_match}
use drift_sentinel.Rules.Matcher.{
  is_match, matches_label, matches_labels, matches_namespace, matches_selector,
}
use drift_sentinel.Rules.Matcher.Priority.{applies}
use drift_sentinel.Diff.Parse.Steps.{cut_at-append}

abbrev pub lacks : ℕ → Text → Bool
lacks q s = all (λ c. not (c == q)) s

cut_at-lacks : (q : ℕ) (s : Text) → lacks q s ≡ true → cut_at q s ≡ none
unfolding cut_at
cut_at-lacks q [] h = refl
cut_at-lacks q (c ∷ s) h =
    let here : (c == q) ≡ false = ground arith in
    let rest : cut_at q s ≡ none = cut_at-lacks q s (ground arith) in rw (here, rest) refl

cut_at-inv :
    (q : ℕ) (s : Text)
    → ((cut_at q s ≡ none) × (lacks q s ≡ true))
      ⊎ ((a : Text) × (b : Text) × (cut_at q s ≡ some (a, b))
          × (s ≡ a ++ q ∷ b)
          × (lacks q a ≡ true))
unfolding cut_at
cut_at-inv q [] = inl (refl, refl)
cut_at-inv q (c ∷ s) = elim (Bool-cases (c == q)) [
  | inl e ↦ let same : c ≡ q = ground arith in inr ([], s, rw e refl, ap (λ x. x ∷ s) same, refl)
  | inr e ↦ elim (cut_at-inv q s) [
    | inl (n, l) ↦ inl (rw (e, n) refl, rw (e, l) refl)
    | inr (a, b, k, same, l) ↦ inr (c ∷ a, b, rw (e, k) refl, ap (λ x. c ∷ x) same, rw (e, l) refl)
  ]
]

text_eq-differ : (s t : Text) → s ≢ t → text_eq s t ≡ false
text_eq-differ s t n = elim (Bool-cases (text_eq s t)) [
  | inl e ↦ absurd (n ((text_eq_iff s t).0 e))
  | inr e ↦ e
]

differ-text_eq : (s t : Text) → text_eq s t ≡ false → s ≢ t
differ-text_eq s t h e = let equal : text_eq s t ≡ true = (text_eq_iff s t).1 e in cc

-- A selector `key` asks for a label with that key, and a selector `key=value`, cut at its first "=", for
-- that label with that value; white space around the key and the value does not count, and the key is
-- not empty.
abbrev pub Holds : TextMap → Text → Type 0
Holds labels selector =
    ((lacks b'=' selector ≡ true)
      × (trim_space selector ≢ [])
      × ((label : Text) × (find (trim_space selector) labels ≡ some label)))
    ⊎ ((raw : Text) × (value : Text) × (lacks b'=' raw ≡ true)
        × (selector ≡ raw ++ b'=' ∷ value)
        × (trim_space raw ≢ [])
        × (find (trim_space raw) labels ≡ some (trim_space value)))

matches_label→Holds :
    (labels : TextMap) (selector : Text)
    → matches_label labels selector ≡ true
    → Holds labels selector
unfolding matches_label
matches_label→Holds labels selector h = elim (cut_at-inv b'=' selector) [
  | inl (n, l) ↦ elim (Bool-cases (text_eq (trim_space selector) [])) [
    | inl e ↦ cc (rw (n, e) at h)
    | inr e ↦ elim (Option-cases (find (trim_space selector) labels)) [
      | inl f ↦ cc (rw (n, e, f) at h)
      | inr (label, f) ↦ inl (l, differ-text_eq (trim_space selector) [] e, (label, f))
    ]
  ]
  | inr (raw, value, k, same, l) ↦ elim (Bool-cases (text_eq (trim_space raw) [])) [
    | inl e ↦ cc (rw (k, e) at h)
    | inr e ↦ elim (Option-cases (find (trim_space raw) labels)) [
      | inl f ↦ cc (rw (k, e, f) at h)
      | inr (label, f) ↦
          let equal : label ≡ trim_space value =
            (text_eq_iff label (trim_space value)).0 (rw (k, e, f) at h) in
          inr (raw, value, l, same, differ-text_eq (trim_space raw) [] e, f ∙ ap some equal)
    ]
  ]
]

Holds→matches_label :
    (labels : TextMap) (selector : Text)
    → Holds labels selector
    → matches_label labels selector ≡ true
unfolding matches_label
Holds→matches_label labels selector (inl (l, n, (label, f))) =
    rw (cut_at-lacks b'=' selector l, text_eq-differ (trim_space selector) [] n, f) refl
Holds→matches_label labels selector (inr (raw, value, l, same, n, f)) =
    rw
      (
        same,
        cut_at-append b'=' raw value l,
        text_eq-differ (trim_space raw) [] n,
        f,
        text_eq_refl (trim_space value),
      )
      refl

any_iff :
    {A : Type 0} (f : A → Bool) (xs : List A)
    → (any f xs ≡ true) ↔ ((x : A) × In x xs × (f x ≡ true))
any_iff f [] = (λ h. cc, λ (x, n, e). absurd n)
any_iff f (y ∷ ys) = (
  λ h. elim (Bool-cases (f y)) [
    | inl e ↦ (y, inl refl, e)
    | inr e ↦ let (x, i, k) = (any_iff f ys).0 (rw e at h) in (x, inr i, k)
  ],
  λ (x, i, k). elim i [
    | inl e ↦ let here : f y ≡ true = subst (λ z. f z ≡ true) e k in rw here refl
    | inr j ↦ let rest : any f ys ≡ true = (any_iff f ys).1 (x, j, k) in ground (arith, rest)
  ],
)

matches_labels_iff :
    (selectors : List Text) (labels : TextMap)
    → (matches_labels selectors labels ≡ true)
      ↔ ((selector : Text) → In selector selectors → Holds labels selector)
unfolding matches_labels
matches_labels_iff [] labels = (λ h s n. absurd n, λ h. refl)
matches_labels_iff (t ∷ ts) labels = (
  λ h s i. elim (Bool-cases (matches_label labels t)) [
    | inl e ↦ elim i [
      | inl same ↦ subst (Holds labels) (sym same) (matches_label→Holds labels t e)
      | inr j ↦ (matches_labels_iff ts labels).0 (rw e at h) s j
    ]
    | inr e ↦ cc (rw e at h)
  ],
  λ h.
      let here = Holds→matches_label labels t (h t (inl refl)) in
      rw here ((matches_labels_iff ts labels).1 (λ s j. h s (inr j))),
)

is_match-inv : (m : Option Bool) → is_match m ≡ true → m ≡ some true
is_match-inv none h = cc
is_match-inv (some b) h = ap some h

matches_namespace_iff :
    (patterns : List Text) (namespace : Text)
    → (matches_namespace patterns namespace ≡ true)
      ↔ ((pattern : Text) × In pattern patterns × (path_match pattern namespace ≡ some true))
unfolding matches_namespace
matches_namespace_iff patterns namespace =
    let (there, back) = any_iff (λ pattern. is_match (path_match pattern namespace)) patterns in
    (
      λ h.
          let (pattern, i, e) = there h in
          (pattern, i, is_match-inv (path_match pattern namespace) e),
      λ (pattern, i, e). back (pattern, i, ap is_match e),
    )

matches_selector_iff :
    (selectors : List ResourceSelector) (api_group kind : Text)
    → (matches_selector selectors api_group kind ≡ true) ↔ (
        (selector : ResourceSelector) × In selector selectors
        × (selector.api_group ≡ api_group)
        × (selector.kind ≡ kind))
unfolding matches_selector
matches_selector_iff selectors api_group kind =
    let (there, back) =
      any_iff (λ selector. text_eq selector.api_group api_group && text_eq selector.kind kind)
        selectors in
    (
      λ h.
          let (selector, i, e) = there h in
          let (g, k) =
            &&_inv (text_eq selector.api_group api_group) (text_eq selector.kind kind) e in
          (
            selector,
            i,
            (text_eq_iff selector.api_group api_group).0 g,
            (text_eq_iff selector.kind kind).0 k,
          ),
      λ (selector, i, g, k).
          let same_group = (text_eq_iff selector.api_group api_group).1 g in
          let same_kind = (text_eq_iff selector.kind kind).1 k in
          back (selector, i, rw (same_group, same_kind) refl),
    )

-- A rule applies to an input exactly if one of its namespace patterns is well-formed and matches the
-- namespace, one of its selectors is for the API group and the kind, and each of its label selectors
-- finds the label that it asks for.
pub applies_iff :
    (rule : Rule) (input : MatchInput)
    → (applies rule input ≡ true) ↔ (
        ((pattern : Text) × In pattern rule.namespaces
          × (path_match pattern input.namespace ≡ some true))
        × ((selector : ResourceSelector) × In selector rule.selectors
            × (selector.api_group ≡ input.api_group)
            × (selector.kind ≡ input.kind))
        × ((selector : Text) → In selector rule.labels → Holds input.labels selector))
applies_iff rule input =
    let (n, n') = matches_namespace_iff rule.namespaces input.namespace in
    let (s, s') = matches_selector_iff rule.selectors input.api_group input.kind in
    let (l, l') = matches_labels_iff rule.labels input.labels in
    (
      λ h.
          let (a, rest) = &&_inv (matches_namespace rule.namespaces input.namespace) _ h in
          let (b, c) = &&_inv (matches_selector rule.selectors input.api_group input.kind) _ rest in
          (n a, s b, l c),
      λ (a, b, c). rw (n' a, s' b, l' c) refl,
    )
