-- ===== src/Diff/Parse/Fuel.antt =====
-- The fuel of the loop of `ParsePath`.
use drift_sentinel.Base.{
  ℕ, zero, suc, ◌≤◌, Bool, true, false, [], ◌∷◌, ◌++◌, if◌then◌else◌, ◌==◌, length, Option, none,
  some, ◌≡◌, refl, arith, Bool-cases, inl, inr,
}
use drift_sentinel.Base.Text.{Text, cut_at, Unicode, text_eq, trim_space}
use drift_sentinel.Base.Result.{Result, ok, err, out_of_fuel, ◌>>=◌, Ends}
use drift_sentinel.Diff.Segment.{Segment, Segments, PathPattern}
use drift_sentinel.Diff.Parse.{
  span, ends_token, bracket_close, parse_bracket_segment, token_segment, segments_loop, parse_path,
  quoted_segment, index_segment, close_quoted, index_value,
}

abbrev RestAtMost : ℕ → Option (Text × Text) → Type 0
RestAtMost n none = Unit
RestAtMost n (some (before, after)) = length after ≤ n

cut_at-RestAtMost : (q : ℕ) (s : Text) → RestAtMost (length s) (cut_at q s)
unfolding cut_at
cut_at-RestAtMost q [] = tt
cut_at-RestAtMost q (c ∷ s) = ground (arith, cut_at-RestAtMost q s)

length-span-le : (s : Text) → length ((span ends_token s).1) ≤ length s
unfolding span
length-span-le [] = omega arith
length-span-le (c ∷ s) = ground (arith, length-span-le s)

length-span-lt :
    (c : ℕ) (s : Text) → ends_token c ≡ false → length ((span ends_token (c ∷ s)).1) ≤ length s
unfolding span
length-span-lt c s h = rw h (length-span-le s)

no_separator : (c : ℕ) → (c == b'.') ≡ false → (c == b'[') ≡ false → ends_token c ≡ false
no_separator c e f = rw (e, f)

Ends-if {ℓ} :
    {A : Type ℓ} (b : Bool) (x y : Result A)
    → (b ≡ true → Ends x)
    → (b ≡ false → Ends y)
    → Ends (if b then x else y)
Ends-if true x y hx hy = hx refl
Ends-if false x y hx hy = hy refl

abbrev LeavesAtMost : ℕ → Result (Segment × Text) → Type 0
LeavesAtMost n (ok (s, rest)) = length rest ≤ n
LeavesAtMost n (err e) = Unit
LeavesAtMost n out_of_fuel = ⊥

module _ ⦃u : Unicode⦄ where
  quoted_segment-LeavesAtMost :
      (input : Text) (q : ℕ) (body : Text)
      → LeavesAtMost (length body) (quoted_segment input q body)
  unfolding quoted_segment close_quoted
  quoted_segment-LeavesAtMost input q body = ground (arith, cut_at-RestAtMost q body)

  index_segment-LeavesAtMost :
      (input body : Text) → LeavesAtMost (length body) (index_segment input body)
  unfolding index_segment index_value
  index_segment-LeavesAtMost input body = ground (arith, cut_at-RestAtMost bracket_close body)

  bracket-LeavesAtMost :
      (input body : Text) → LeavesAtMost (length body) (parse_bracket_segment input body)
  unfolding parse_bracket_segment
  bracket-LeavesAtMost input [] = tt
  bracket-LeavesAtMost input (a ∷ []) = ground (arith, index_segment-LeavesAtMost input (a ∷ []))
  bracket-LeavesAtMost input (a ∷ b ∷ body) = ground (
    arith,
    quoted_segment-LeavesAtMost input a (b ∷ body),
    index_segment-LeavesAtMost input (a ∷ b ∷ body),
  )

  bracket-bind :
      (n : ℕ) (r : Result (Segment × Text)) (f : Segment × Text → Result Segments)
      → LeavesAtMost n r
      → ((s : Segment) (rest : Text) → length rest ≤ n → Ends (f (s, rest)))
      → Ends (r >>= f)
  bracket-bind n (ok (s, rest)) f h k = k s rest h
  bracket-bind n (err e) f h k = tt
  bracket-bind n out_of_fuel f h k = absurd h

  token-bind :
      (r : Result Segment) (f : Segment → Result Segments)
      → Ends r
      → ((s : Segment) → Ends (f s))
      → Ends (r >>= f)
  token-bind (ok s) f h k = k s
  token-bind (err e) f h k = tt
  token-bind out_of_fuel f h k = absurd h

  token_segment-Ends : (value token : Text) → Ends (token_segment value token)
  unfolding token_segment
  token_segment-Ends value token = ground arith

  segments_loop-Ends :
      (fuel : ℕ) (value input rest : Text) (acc : Segments)
      → length rest ≤ fuel
      → Ends (segments_loop fuel value input rest acc)
  unfolding segments_loop
  segments_loop-Ends fuel value input [] acc h = tt
  segments_loop-Ends zero value input (c ∷ rest) acc h = absurd (omega arith)
  segments_loop-Ends (suc fuel) value input (c ∷ rest) acc h =
      Ends-if (c == b'.') _ _ (λ _. segments_loop-Ends fuel value input rest acc (omega arith))
        λ e.
          Ends-if (c == b'[') _ _
            (λ _.
              bracket-bind (length rest) (parse_bracket_segment input rest) _
                (bracket-LeavesAtMost input rest)
                λ s next l. segments_loop-Ends fuel value input next (acc ++ s ∷ []) (omega arith))
            λ f.
              token-bind (token_segment value ((span ends_token (c ∷ rest)).0)) _
                (token_segment-Ends value ((span ends_token (c ∷ rest)).0))
                λ s.
                  segments_loop-Ends fuel value input ((span ends_token (c ∷ rest)).1)
                    (acc ++ s ∷ []) (omega (arith, length-span-lt c rest (no_separator c e f)))

  path-bind :
      (value : Text) (r : Result Segments)
      → Ends r
      → Ends (
          r >>= λ segments.
          ok (let p : PathPattern = record { raw = value; segments = segments } in p))
  path-bind value (ok s) h = tt
  path-bind value (err e) h = tt
  path-bind value out_of_fuel h = absurd h

  -- The model of `ParsePath` never runs out of fuel.
  pub parse_path-Ends : (value : Text) → Ends (parse_path value)
  unfolding parse_path
  parse_path-Ends value = elim (Bool-cases (text_eq (trim_space value) [])) [
    | inl e ↦ rw e tt
    | inr e ↦ rw e (
        path-bind value
          (segments_loop (length (trim_space value)) value (trim_space value) (trim_space value) [])
          (segments_loop-Ends (length (trim_space value)) value (trim_space value)
            (trim_space value) [] (omega arith)))
  ]
