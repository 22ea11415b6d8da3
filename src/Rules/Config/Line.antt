-- ===== src/Rules/Config/Line.antt =====
-- pkg/rules/config.go: one line of the rule text, and scalars.
use drift_sentinel.Base.{
  ℕ, suc, Bool, true, false, ◌&&◌, ◌||◌, [], ◌∷◌, Option, none, some, if◌then◌else◌, ◌==◌,
}
use drift_sentinel.Base.Text.{Text, trim_space, trim_right, text_eq}
use drift_sentinel.Base.Result.{Result, ok}

abbrev pub double_quote : ℕ
double_quote = 34

abbrev pub single_quote : ℕ
single_quote = 39

-- The quote that is open behind a character: `inQuotes` and `quoteChar` in one.
unfoldable pub quote_step : Option ℕ → ℕ → Option ℕ
quote_step none c = if c == single_quote || c == double_quote then some c else none
quote_step (some q) c = if q == c then none else some q

abbrev pub add_before : ℕ → Option (Text × Text) → Option (Text × Text)
add_before c none = none
add_before c (some (before, after)) = some (c ∷ before, after)

abbrev pub is_closed : Option ℕ → Bool
is_closed none = true
is_closed (some q) = false

-- The loops that look for a character outside quotes: the text before it, and the text behind it.
unfoldable pub cut_unquoted : ℕ → Option ℕ → Text → Option (Text × Text)
unfolding quote_step
cut_unquoted separator open_quote [] = none
cut_unquoted separator open_quote (c ∷ s) =
    let rest = cut_unquoted separator (quote_step open_quote c) s in
    if c == separator && is_closed open_quote then some ([], s) else add_before c rest

abbrev comment_cut : Text → Option (Text × Text) → Text
comment_cut line none = line
comment_cut line (some (before, after)) = trim_right (λ c. c == b' ') before

unfoldable pub strip_comment : Text → Text
unfolding cut_unquoted
strip_comment line = comment_cut line (cut_unquoted b'#' none line)

-- Empty for a line with nothing but white space.
unfoldable pub sanitize_line : Text → Text
unfolding strip_comment
sanitize_line line =
    let stripped = strip_comment (trim_right (λ c. c == 13) line) in
    if text_eq (trim_space stripped) [] then [] else stripped

unfoldable pub count_indent : Text → ℕ
count_indent [] = 0
count_indent (c ∷ s) = let rest = count_indent s in if c == b' ' then suc rest else 0

abbrev keyed : Option (Text × Text) → Option (Text × Text)
keyed none = none
keyed (some (before, after)) =
    let key = trim_space before in if text_eq key [] then none else some (key, trim_space after)

-- `none` where the last result is `false`.
unfoldable pub split_key_value : Text → Option (Text × Text)
unfolding cut_unquoted
split_key_value line = keyed (cut_unquoted b':' none line)

-- The text without its last character.
unfoldable pub drop_last : Text → Text
drop_last [] = []
drop_last (c ∷ []) = []
drop_last (c ∷ d ∷ s) = c ∷ drop_last (d ∷ s)

unfoldable pub ends_with : ℕ → Text → Bool
ends_with q [] = false
ends_with q (c ∷ []) = c == q
ends_with q (c ∷ d ∷ s) = ends_with q (d ∷ s)

-- A text of at least two characters that begins and ends with the quote.
abbrev pub is_quoted : ℕ → Text → Bool
is_quoted q [] = false
is_quoted q (c ∷ s) = c == q && ends_with q s

abbrev pub drop_first : Text → Text
drop_first [] = []
drop_first (c ∷ s) = s

-- It never fails.
unfoldable pub parse_scalar : Text → Result Text
unfolding ends_with drop_last
parse_scalar value =
    let trimmed = trim_space value in
    if text_eq trimmed []
    then ok []
    else if is_quoted double_quote trimmed || is_quoted single_quote trimmed
    then ok (drop_last (drop_first trimmed))
    else ok trimmed
