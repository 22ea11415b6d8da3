-- ===== src/Rules/Config/Print/Lines.antt =====
-- How the lines of a canonical rule text are read.
use drift_sentinel.Base.{
  ℕ, Bool, true, false, not, ◌&&◌, [], ◌∷◌, ◌++◌, none, some, ◌==◌, all, ◌≡◌, refl, sym, ap, ◌∙◌,
  append_assoc, arith,
}
use drift_sentinel.Base.Text.{Text, is_space, text_eq, trim_left, trim_space}
use drift_sentinel.Base.Trim.{append-not_empty, trim_right-append, trim_space-append}
use drift_sentinel.Base.Result.{ok}
use drift_sentinel.Rules.Config.Line.{
  cut_unquoted, drop_last, ends_with, parse_scalar, quote_step, sanitize_line, strip_comment,
}
use drift_sentinel.Rules.Config.Print.{IsQuotable, quoted}

-- No end of a quote, and no separator outside quotes.
cut_unquoted-quoted :
    (separator : ℕ) (s : Text)
    → (34 == separator) ≡ false
    → IsQuotable s
    → cut_unquoted separator (some 34) (s ++ 34 ∷ []) ≡ none
unfolding cut_unquoted quote_step
cut_unquoted-quoted separator [] h k = rw h refl
cut_unquoted-quoted separator (c ∷ s) h k = ground (arith, cut_unquoted-quoted separator s h)

opened :
    (separator : ℕ) (s : Text)
    → (34 == separator) ≡ false
    → IsQuotable s
    → cut_unquoted separator none (quoted s) ≡ none
opened separator s h k =
    let inside = cut_unquoted-quoted separator s h k in
    unfold cut_unquoted quote_step in rw (h, inside) refl

-- A character before the quotes that means nothing to the scan for that separator.
abbrev pub is_mute : ℕ → ℕ → Bool
is_mute separator c = not (c == 34) && not (c == 39) && not (c == separator)

pub cut_unquoted-mute :
    (separator : ℕ) (p t : Text)
    → all (is_mute separator) p ≡ true
    → cut_unquoted separator none t ≡ none
    → cut_unquoted separator none (p ++ t) ≡ none
unfolding cut_unquoted quote_step
cut_unquoted-mute separator [] t h k = k
cut_unquoted-mute separator (c ∷ p) t h k = ground (arith, cut_unquoted-mute separator p t)

pub cut_unquoted-none :
    (separator : ℕ) (s : Text)
    → all (is_mute separator) s ≡ true
    → cut_unquoted separator none s ≡ none
unfolding cut_unquoted quote_step
cut_unquoted-none separator [] h = refl
cut_unquoted-none separator (c ∷ s) h = ground (arith, cut_unquoted-none separator s)

not_return : (d : ℕ) → is_space d ≡ false → (d == 13) ≡ false
unfolding is_space
not_return d h = ground arith

-- A line that does not begin a comment and ends with no white space is left as it is.
pub sanitize_line-solid :
    (s : Text) (d : ℕ)
    → is_space d ≡ false
    → cut_unquoted b'#' none (s ++ d ∷ []) ≡ none
    → sanitize_line (s ++ d ∷ []) ≡ s ++ d ∷ []
unfolding sanitize_line strip_comment
sanitize_line-solid s d h k =
    rw
      (
        trim_right-append (λ c. c == 13) s d (not_return d h),
        k,
        trim_space-append s d h,
        append-not_empty (trim_left is_space s) d,
      )
      refl

-- So is a line that ends with a text in double quotes.
pub sanitize_line-quoted :
    (p s : Text)
    → all (is_mute b'#') p ≡ true
    → IsQuotable s
    → sanitize_line (p ++ quoted s) ≡ p ++ quoted s
sanitize_line-quoted p s h k =
    let e : p ++ quoted s ≡ (p ++ 34 ∷ s) ++ 34 ∷ [] = sym (append_assoc p (34 ∷ s) (34 ∷ [])) in
    rw e (
      sanitize_line-solid (p ++ 34 ∷ s) 34 (unfold is_space in refl) (
        ap (cut_unquoted b'#' none) (sym e)
        ∙ cut_unquoted-mute b'#' p (quoted s) h (opened b'#' s refl k)))

drop_last-append : (s : Text) (d : ℕ) → drop_last (s ++ d ∷ []) ≡ s
unfolding drop_last
drop_last-append [] d = refl
drop_last-append (c ∷ []) d = refl
drop_last-append (c ∷ e ∷ s) d = ap (λ t. c ∷ t) (drop_last-append (e ∷ s) d)

ends_with-append : (s : Text) (d : ℕ) → ends_with d (s ++ d ∷ []) ≡ true
unfolding ends_with
ends_with-append [] d = ground arith
ends_with-append (c ∷ []) d = ends_with-append [] d
ends_with-append (c ∷ e ∷ s) d = ends_with-append (e ∷ s) d

pub trim_space-quoted : (s : Text) → trim_space (quoted s) ≡ quoted s
unfolding trim_left is_space
trim_space-quoted s = trim_space-append (34 ∷ s) 34 refl

pub trim_space-behind : (s : Text) → trim_space (32 ∷ quoted s) ≡ quoted s
unfolding trim_left is_space
trim_space-behind s = trim_space-append (32 ∷ 34 ∷ s) 34 refl

-- A text in double quotes is read as the text.
pub parse_scalar-quoted : (s : Text) → parse_scalar (quoted s) ≡ ok s
unfolding parse_scalar text_eq
parse_scalar-quoted s = rw (trim_space-quoted s, ends_with-append s 34, drop_last-append s 34) refl
