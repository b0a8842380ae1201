-- ===== src/Transcript/Display/Restore.antt =====
-- About `restore` of webui/src/utils/transcriptProtocol.ts.
use ga_hub.Prelude.{
  ℕ, ◌-◌, ◌≡◌, refl, ap, ◌∙◌, true, false, some, List, [], ◌∷◌, ◌++◌, All, length, length-append,
  get_elem?, decimal, arith, eqb, leb,
}
use mathlib.Core.List.{append_assoc}
use ga_hub.Transcript.Match.{units_of, is_digit, take_while}
use ga_hub.Transcript.Display.{placeholder, match_placeholder, restore_from}
use ga_hub.Transcript.Display.Numbers.{
  number_from-decimal, take_while-decimal, drop_while-decimal, length-decimal-lt,
}

abbrev body : ℕ → List ℕ
body n = units_of "GA_TOOL_FENCE_" ++ units_of (decimal n) ++ 0 ∷ []

match_placeholder_lem :
    (n : ℕ) (rest : List ℕ)
    → match_placeholder (placeholder n ++ rest) ≡ some (units_of (decimal n), rest)
match_placeholder_lem n rest =
    let join : (units_of (decimal n) ++ 0 ∷ []) ++ rest ≡ units_of (decimal n) ++ 0 ∷ rest =
      append_assoc (units_of (decimal n)) (0 ∷ []) rest in
    let some_digit : leb 1 (length (units_of (decimal n))) ≡ true =
      ground (arith, length-decimal-lt n) in
    rw (join, take_while-decimal n rest, drop_while-decimal n rest, some_digit)
      (ap (λ d. some (d, rest)) (ap (take_while is_digit) join ∙ take_while-decimal n rest))

module _ (values : List (List ℕ)) where
  restore_skipped :
      (xs rest : List ℕ) → restore_from values (length xs) (xs ++ rest) ≡ restore_from values 0 rest
  unfolding restore_from
  restore_skipped [] rest = refl
  restore_skipped (x ∷ xs) rest = restore_skipped xs rest

  pub restore_text :
      (xs rest : List ℕ)
      → All (λ u. eqb u 0 ≡ false) xs
      → restore_from values 0 (xs ++ rest) ≡ xs ++ restore_from values 0 rest
  unfolding restore_from
  restore_text [] rest a = refl
  restore_text (x ∷ xs) rest (h, a) =
      rw (restore_from, h) (ap (λ l. x ∷ l) (restore_text xs rest a))

  pub restore_rest : (xs : List ℕ) → All (λ u. eqb u 0 ≡ false) xs → restore_from values 0 xs ≡ xs
  unfolding restore_from
  restore_rest [] a = refl
  restore_rest (x ∷ xs) (h, a) = rw (restore_from, h) (ap (λ l. x ∷ l) (restore_rest xs a))

  pub restore_placeholder :
      (n : ℕ) (value rest : List ℕ)
      → get_elem? values n ≡ some value
      → restore_from values 0 (placeholder n ++ rest) ≡ value ++ restore_from values 0 rest
  unfolding restore_from
  restore_placeholder n value rest g =
      let skip : length (body n ++ rest) - length rest ≡ length (body n) =
        omega (arith, length-append (body n) rest) in
      rw (restore_from, match_placeholder_lem n rest, number_from-decimal n, g, skip)
        (ap (λ l. value ++ l) (restore_skipped (body n) rest))
