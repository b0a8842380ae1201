-- ===== src/Transcript/Display/Numbers.antt =====
-- About the numbers of the placeholders of webui/src/utils/transcriptProtocol.ts.
use ga_hub.Prelude.{
  ℕ, zero, suc, ◌+◌, ◌/◌, ◌%◌, ◌≤◌, ◌<◌, ◌≡◌, refl, ap, ◌∙◌, String, Bool, true, false, List, [],
  ◌∷◌, ◌++◌, All, length, digit, decimal_from, decimal, ltb, Bool-cases, inl, inr, arith,
}
use ga_hub.Transcript.Match.{units_of, is_digit, take_while, drop_while}
use ga_hub.Transcript.{number_from}

units_of-digit :
    (d : ℕ) (s : String) → d < 10 → units_of (String.◌∷◌ (digit d) s) ≡ (48 + d) ∷ units_of s
units_of-digit zero s h = refl
units_of-digit (suc zero) s h = refl
units_of-digit (suc (suc zero)) s h = refl
units_of-digit (suc (suc (suc zero))) s h = refl
units_of-digit (suc (suc (suc (suc zero)))) s h = refl
units_of-digit (suc (suc (suc (suc (suc zero))))) s h = refl
units_of-digit (suc (suc (suc (suc (suc (suc zero)))))) s h = refl
units_of-digit (suc (suc (suc (suc (suc (suc (suc zero))))))) s h = refl
units_of-digit (suc (suc (suc (suc (suc (suc (suc (suc zero)))))))) s h = refl
units_of-digit (suc (suc (suc (suc (suc (suc (suc (suc (suc zero))))))))) s h = refl
units_of-digit (suc (suc (suc (suc (suc (suc (suc (suc (suc (suc d)))))))))) s h =
    absurd (omega (arith, h))

number_from-decimal_from :
    (fuel n : ℕ) (s : String)
    → n < fuel
    → number_from 0 (units_of (decimal_from fuel n s)) ≡ number_from n (units_of s)
unfolding decimal_from
number_from-decimal_from zero n s h = absurd (omega (arith, h))
number_from-decimal_from (suc fuel) n s h = elim (Bool-cases (ltb n 10)) [
  | inl e ↦
      rw (e, units_of-digit (n % 10) s (omega arith))
        (ap (λ m. number_from m (units_of s)) (ground (arith, e)))
  | inr e ↦ rw e (
      number_from-decimal_from fuel (n / 10) (String.◌∷◌ (digit (n % 10)) s) (ground (arith, e, h))
      ∙ rw (units_of-digit (n % 10) s (omega arith))
          (ap (λ m. number_from m (units_of s)) (omega arith)))
]

pub number_from-decimal : (n : ℕ) → number_from 0 (units_of (decimal n)) ≡ n
unfolding decimal
number_from-decimal n = number_from-decimal_from (suc n) n "" (omega arith)

decimal_from_digits :
    (fuel n : ℕ) (s : String)
    → All (λ u. is_digit u ≡ true) (units_of s)
    → All (λ u. is_digit u ≡ true) (units_of (decimal_from fuel n s))
unfolding decimal_from
decimal_from_digits zero n s a = a
decimal_from_digits (suc fuel) n s a =
    let shown : All (λ u. is_digit u ≡ true) (units_of (String.◌∷◌ (digit (n % 10)) s)) =
      rw (units_of-digit (n % 10) s (omega arith)) (ground arith, a) in
    elim (Bool-cases (ltb n 10)) [
      | inl e ↦ rw e shown
      | inr e ↦ rw e (decimal_from_digits fuel (n / 10) (String.◌∷◌ (digit (n % 10)) s) shown)
    ]

decimal_digits : (n : ℕ) → All (λ u. is_digit u ≡ true) (units_of (decimal n))
unfolding decimal
decimal_digits n = decimal_from_digits (suc n) n "" tt

module _ (p : ℕ → Bool) (v : ℕ) (rest : List ℕ) (ends : p v ≡ false) where
  take_while_run : (us : List ℕ) → All (λ u. p u ≡ true) us → take_while p (us ++ v ∷ rest) ≡ us
  take_while_run [] a = rw ends refl
  take_while_run (u ∷ us) (h, a) = rw h (ap (λ l. u ∷ l) (take_while_run us a))

  drop_while_run :
      (us : List ℕ) → All (λ u. p u ≡ true) us → drop_while p (us ++ v ∷ rest) ≡ v ∷ rest
  drop_while_run [] a = rw ends refl
  drop_while_run (u ∷ us) (h, a) = rw h (drop_while_run us a)

-- The digits of a placeholder are all of its number.
pub take_while-decimal :
    (n : ℕ) (rest : List ℕ)
    → take_while is_digit (units_of (decimal n) ++ 0 ∷ rest) ≡ units_of (decimal n)
take_while-decimal n rest =
    take_while_run is_digit 0 rest refl (units_of (decimal n)) (decimal_digits n)

pub drop_while-decimal :
    (n : ℕ) (rest : List ℕ) → drop_while is_digit (units_of (decimal n) ++ 0 ∷ rest) ≡ 0 ∷ rest
drop_while-decimal n rest =
    drop_while_run is_digit 0 rest refl (units_of (decimal n)) (decimal_digits n)

decimal_from_longer :
    (fuel n : ℕ) (s : String) → length (units_of s) ≤ length (units_of (decimal_from fuel n s))
unfolding decimal_from
decimal_from_longer zero n s = omega arith
decimal_from_longer (suc fuel) n s =
    let shown = String.◌∷◌ (digit (n % 10)) s in
    let one_more : length (units_of shown) ≡ suc (length (units_of s)) =
      ap length (units_of-digit (n % 10) s (omega arith)) in
    elim (Bool-cases (ltb n 10)) [
      | inl e ↦ rw e (omega (arith, one_more))
      | inr e ↦ rw e (omega (arith, one_more, decimal_from_longer fuel (n / 10) shown))
    ]

pub length-decimal-lt : (n : ℕ) → 0 < length (units_of (decimal n))
unfolding decimal decimal_from
length-decimal-lt n =
    let shown = String.◌∷◌ (digit (n % 10)) "" in
    let one_more : length (units_of shown) ≡ 1 =
      ap length (units_of-digit (n % 10) "" (omega arith)) in
    elim (Bool-cases (ltb n 10)) [
      | inl e ↦ rw e (omega (arith, one_more))
      | inr e ↦ rw e (omega (arith, one_more, decimal_from_longer n (n / 10) shown))
    ]
