-- ===== src/Base/Quote.antt =====
-- The verb %q of the package fmt, on strings.
use Prim.Native.Nat.{ℕ, zero, suc, ◌+◌, ◌/◌, ◌%◌}
use mathlib.Core.Bool.{Bool, ◌&&◌, ◌||◌}
use mathlib.Core.List.{[], ◌∷◌, ◌++◌}
use drift_sentinel.Base.Tests.{ltb, leb, ◌==◌, if◌then◌else◌}
use drift_sentinel.Base.Text.{Text, codes, Unicode}
use drift_sentinel.Base.Number.{AtoiError, syntax, range}

-- `unicode.IsPrint`, which `strconv.IsPrint` follows.
is_print : ⦃u : Unicode⦄ → ℕ → Bool
is_print ⦃u⦄ c = if ltb c 128 then leb 32 c && leb c 126 else u.print c

abbrev hex_digit : ℕ → ℕ
hex_digit d = if ltb d 10 then b'0' + d else b'a' + (d % 10)

-- The last `w` hexadecimal digits.
hex : ℕ → ℕ → Text → Text
hex zero n acc = acc
hex (suc w) n acc = hex w (n / 16) (hex_digit (n % 16) ∷ acc)

unfoldable pub escape_char : ⦃u : Unicode⦄ → ℕ → Text
unfolding is_print hex
escape_char c =
    if c == b'"' || c == 92
    then 92 ∷ c ∷ []
    else if is_print c
    then c ∷ []
    else if c == 7
    then codes "\\a"
    else if c == 8
    then codes "\\b"
    else if c == 12
    then codes "\\f"
    else if c == 10
    then codes "\\n"
    else if c == 13
    then codes "\\r"
    else if c == 9
    then codes "\\t"
    else if c == 11
    then codes "\\v"
    else if ltb c 32 || c == 127
    then codes "\\x" ++ hex 2 c []
    else if ltb c 0x10000
    then codes "\\u" ++ hex 4 c []
    else codes "\\U" ++ hex 8 c []

unfoldable pub escape : ⦃u : Unicode⦄ → Text → Text
escape [] = []
escape (c ∷ s) = escape_char c ++ escape s

unfoldable pub quote : ⦃u : Unicode⦄ → Text → Text
unfolding escape escape_char is_print hex
quote s = b'"' ∷ (escape s ++ b'"' ∷ [])

-- The message of `strconv.Atoi`'s error.
abbrev pub atoi_message : ⦃u : Unicode⦄ → Text → AtoiError → Text
atoi_message s syntax = codes "strconv.Atoi: parsing " ++ quote s ++ codes ": invalid syntax"
atoi_message s range = codes "strconv.Atoi: parsing " ++ quote s ++ codes ": value out of range"
