-- ===== src/Diff/Parse.antt =====
-- pkg/diff/paths.go: `ParsePath`, `ParsePatterns`, `MatchAny`. The position in the input is the text
-- that is left.
pub mod Steps
pub mod Fuel
use drift_sentinel.Base.{
  ℕ, zero, suc, Bool, true, false, ◌||◌, ◌&&◌, not, List, [], ◌∷◌, ◌++◌, if◌then◌else◌, ◌==◌, ltb,
  length, any, Option, none, some,
}
use drift_sentinel.Base.Text.{Text, codes, Unicode, text_eq, trim_space, cut_at}
use drift_sentinel.Base.Number.{ℤ, Atoi, number, failed, atoi}
use drift_sentinel.Base.Quote.{quote, atoi_message}
use drift_sentinel.Base.Result.{Result, ok, err, out_of_fuel, ◌>>=◌}
use drift_sentinel.Diff.Segment.{
  Segment, Segments, PathPattern, field, field_wildcard, index, index_wildcard, matches_path,
}

-- The text before the first character that passes the test, and the text from there on.
unfoldable pub span : (ℕ → Bool) → Text → Text × Text
span stop [] = ([], [])
span stop (c ∷ s) =
    let (token, rest) = span stop s in if stop c then ([], c ∷ s) else (c ∷ token, rest)

abbrev pub ends_token : ℕ → Bool
ends_token c = c == b'.' || c == b'['

abbrev pub bracket_close : ℕ
bracket_close = 93

module _ ⦃u : Unicode⦄ where
  -- The quoted key has ended: a closing bracket must follow.
  close_quoted : Text → Text → Text → Result (Segment × Text)
  close_quoted input key [] = err (codes "unterminated quoted key in " ++ quote input)
  close_quoted input key (c ∷ rest) =
      if c == bracket_close
      then ok (field key, rest)
      else err (codes "unterminated quoted key in " ++ quote input)

  quoted_segment : Text → ℕ → Text → Result (Segment × Text)
  unfolding close_quoted
  quoted_segment input q body = elim (cut_at q body) [
    | none ↦ err (codes "unterminated quoted key in " ++ quote input)
    | some (key, rest) ↦ close_quoted input key rest
  ]

  index_value : Text → Text → Text → Atoi → Result (Segment × Text)
  index_value input literal rest (number i) = ok (index i, rest)
  index_value input literal rest (failed e) =
      err (codes "invalid index in " ++ quote input ++ codes ": " ++ atoi_message literal e)

  index_segment : Text → Text → Result (Segment × Text)
  unfolding index_value
  index_segment input body = elim (cut_at bracket_close body) [
    | none ↦ err (codes "unterminated index in " ++ quote input)
    | some (literal, rest) ↦ index_value input literal rest (atoi literal)
  ]

  -- `body` is the input behind the bracket, which must have two bytes: a character above ASCII has them.
  unfoldable pub parse_bracket_segment : Text → Text → Result (Segment × Text)
  unfolding quoted_segment index_segment cut_at
  parse_bracket_segment input (a ∷ b ∷ body) =
      if a == b'*'
      then (if b == bracket_close
          then ok (index_wildcard, body)
          else err (codes "invalid index wildcard in " ++ quote input))
      else if a == b'\'' || a == b'"'
      then quoted_segment input a (b ∷ body)
      else index_segment input (a ∷ b ∷ body)
  parse_bracket_segment input (a ∷ []) =
      if ltb a 128
      then err (codes "unterminated bracket segment in " ++ quote input)
      else index_segment input (a ∷ [])
  parse_bracket_segment input [] = err (codes "unterminated bracket segment in " ++ quote input)

  -- A token up to the next separator.
  pub token_segment : Text → Text → Result Segment
  token_segment value token =
      if text_eq token []
      then err (codes "invalid empty segment in " ++ quote value)
      else if text_eq token (codes "*")
      then ok field_wildcard
      else ok (field token)

  -- The loop over the input, which takes at least one character in each round.
  unfoldable pub segments_loop : ℕ → Text → Text → Text → Segments → Result Segments
  unfolding token_segment span
  segments_loop fuel value input [] acc = ok acc
  segments_loop zero value input (c ∷ rest) acc = out_of_fuel
  segments_loop (suc fuel) value input (c ∷ rest) acc =
      let skipped = segments_loop fuel value input rest acc in
      let bracket = do
        (segment, next) ← parse_bracket_segment input rest
        segments_loop fuel value input next (acc ++ segment ∷ [])
      in let token = do
        let parts = span ends_token (c ∷ rest)
        segment ← token_segment value (parts.0)
        segments_loop fuel value input (parts.1) (acc ++ segment ∷ [])
        in if c == b'.' then skipped else if c == b'[' then bracket else token

  unfoldable pub parse_path : Text → Result PathPattern
  unfolding segments_loop parse_bracket_segment
  parse_path value =
      if text_eq (trim_space value) [] then err (codes "path cannot be empty") else (do
        let input = trim_space value
        segments ← segments_loop (length input) value input input []
        ok (record { raw = value; segments = segments }))

  unfoldable pub parse_patterns : List Text → Result (List PathPattern)
  parse_patterns [] = ok []
  parse_patterns (value ∷ values) = do
    pattern ← parse_path value
    patterns ← parse_patterns values
    ok (pattern ∷ patterns)

  abbrev match_parsed : List PathPattern → Result PathPattern → Bool
  match_parsed patterns (ok actual) = any (λ pattern. matches_path pattern actual) patterns
  match_parsed patterns _ = false

  unfoldable pub match_any : Text → List PathPattern → Bool
  match_any path patterns = match_parsed patterns (parse_path path)
