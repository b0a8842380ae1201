-- ===== src/Prelude/Lists.antt =====
-- Lists measured by native numbers, with Boolean tests; the names are the library's.
use Prim.Native.Nat.{ℕ, zero, suc, ◌+◌, ◌-◌, ◌≤◌}
use mathlib.Core.Path.{◌≡◌, refl, ap}
use mathlib.Core.Logic.{inl, inr}
use mathlib.Core.Bool.{Bool, true, false, not, ◌||◌}
use mathlib.Core.Option.{Option, none, some}
use mathlib.Core.List.{List, [], ◌∷◌, ◌++◌}
use native.Mathlib.Omega.{arith}
use ga_hub.Prelude.Tests.{if◌then◌else◌, is_some, or_else, Bool-cases}

abbrev pub next_index : Option ℕ → Option ℕ
next_index none = none
next_index (some i) = some (suc i)

module _ {ℓ} {A : Type ℓ} where
  abbrev pub length : List A → ℕ
  length [] = 0
  length (x ∷ xs) = suc (length xs)

  abbrev pub get_elem? : List A → ℕ → Option A
  get_elem? [] i = none
  get_elem? (x ∷ xs) zero = some x
  get_elem? (x ∷ xs) (suc i) = get_elem? xs i

  -- A write out of bounds changes nothing.
  abbrev pub set : List A → ℕ → A → List A
  set [] i v = []
  set (x ∷ xs) zero v = v ∷ xs
  set (x ∷ xs) (suc i) v = x ∷ set xs i v

  abbrev pub drop : ℕ → List A → List A
  drop zero xs = xs
  drop (suc n) [] = []
  drop (suc n) (x ∷ xs) = drop n xs

  abbrev pub take : ℕ → List A → List A
  take zero xs = []
  take (suc n) [] = []
  take (suc n) (x ∷ xs) = x ∷ take n xs

  -- `xs.slice(-n)` for a positive `n`: the last `n` items.
  abbrev pub take_last : ℕ → List A → List A
  take_last n xs = drop (length xs - n) xs

  abbrev pub any : (A → Bool) → List A → Bool
  any p [] = false
  any p (x ∷ xs) = p x || any p xs

  abbrev pub filter : (A → Bool) → List A → List A
  filter p [] = []
  filter p (x ∷ xs) = let rest = filter p xs in if p x then x ∷ rest else rest

  -- `xs.find(p)` and `xs.findIndex(p)`, -1 as `none`.
  abbrev pub find? : (A → Bool) → List A → Option A
  find? p [] = none
  find? p (x ∷ xs) = if p x then some x else find? p xs

  abbrev pub find_index? : (A → Bool) → List A → Option ℕ
  find_index? p [] = none
  find_index? p (x ∷ xs) = if p x then some 0 else next_index (find_index? p xs)

  abbrev pub All {κ} : (A → Type κ) → List A → Type κ
  All P [] = Unit
  All P (x ∷ xs) = P x × All P xs

  -- No two items are the same, by a test.
  abbrev pub Distinct : (A → A → Bool) → List A → Type 0
  Distinct same [] = Unit
  Distinct same (x ∷ xs) = (any (same x) xs ≡ false) × Distinct same xs

  -- `i = xs.findIndex(p); xs[i] = f(xs[i])`, where nothing matches the list stays.
  abbrev pub update_first : (A → Bool) → (A → A) → List A → List A
  update_first p f [] = []
  update_first p f (x ∷ xs) = if p x then f x ∷ xs else x ∷ update_first p f xs

  -- The last match instead of the first.
  abbrev pub update_last : (A → Bool) → (A → A) → List A → List A
  update_last p f [] = []
  update_last p f (x ∷ xs) =
      let rest = update_last p f xs in
      if any p xs then x ∷ rest else if p x then f x ∷ xs else x ∷ xs

  -- Some two neighbours satisfy `p`.
  abbrev pub any_pair : (A → A → Bool) → List A → Bool
  any_pair p [] = false
  any_pair p (x ∷ []) = false
  any_pair p (x ∷ y ∷ rest) = p x y || any_pair p (y ∷ rest)

  -- The last two neighbours that satisfy `p` are rewritten.
  abbrev pub update_last_pair : (A → A → Bool) → (A → A) → (A → A) → List A → List A
  update_last_pair p f g [] = []
  update_last_pair p f g (x ∷ []) = x ∷ []
  update_last_pair p f g (x ∷ y ∷ more) =
      let rest = update_last_pair p f g (y ∷ more) in
      if any_pair p (y ∷ more) then x ∷ rest else if p x y then f x ∷ g y ∷ more else x ∷ y ∷ more

  pub length-append : (xs ys : List A) → length (xs ++ ys) ≡ length xs + length ys
  length-append [] ys = omega arith
  length-append (x ∷ xs) ys = omega (arith, length-append xs ys)

  pub length-update_first :
      (p : A → Bool) (f : A → A) (xs : List A) → length (update_first p f xs) ≡ length xs
  length-update_first p f [] = refl
  length-update_first p f (x ∷ xs) = ground (arith, length-update_first p f xs)

  pub length-filter-le : (p : A → Bool) (xs : List A) → length (filter p xs) ≤ length xs
  length-filter-le p [] = omega arith
  length-filter-le p (x ∷ xs) = ground (arith, length-filter-le p xs)

  pub length-drop : (n : ℕ) (xs : List A) → length (drop n xs) ≡ length xs - n
  length-drop zero xs = omega arith
  length-drop (suc n) [] = omega arith
  length-drop (suc n) (x ∷ xs) = omega (arith, length-drop n xs)

  pub length-take_last-le : (n : ℕ) (xs : List A) → length (take_last n xs) ≤ n
  length-take_last-le n xs = omega (arith, length-drop (length xs - n) xs)

  pub take_last_of_short : (n : ℕ) (xs : List A) → length xs ≤ n → take_last n xs ≡ xs
  take_last_of_short n xs h = let e : length xs - n ≡ 0 = omega arith in rw e refl

  pub any-append : (p : A → Bool) (xs ys : List A) → any p (xs ++ ys) ≡ (any p xs || any p ys)
  any-append p [] ys = refl
  any-append p (x ∷ xs) ys = ground (arith, any-append p xs ys)

  pub find?_of_any : (p : A → Bool) (xs : List A) → any p xs ≡ is_some (find? p xs)
  find?_of_any p [] = refl
  find?_of_any p (x ∷ xs) = ground (arith, find?_of_any p xs)

  -- What is found matches.
  pub find?_sound : (p : A → Bool) (xs : List A) (a : A) → find? p xs ≡ some a → p a ≡ true
  find?_sound p [] a h = cc
  find?_sound p (x ∷ xs) a h = ground (arith, find?_sound p xs a)

  pub find?-append :
      (p : A → Bool) (xs ys : List A) → find? p (xs ++ ys) ≡ or_else (find? p xs) (find? p ys)
  find?-append p [] ys = refl
  find?-append p (x ∷ xs) ys = ground (arith, find?-append p xs ys)

  -- A write at the first match is found there, if what is written still matches.
  pub find?-update_first :
      (p : A → Bool) (f : A → A) (xs : List A) (a : A)
      → find? p xs ≡ some a
      → p (f a) ≡ true
      → find? p (update_first p f xs) ≡ some (f a)
  find?-update_first p f [] a h k = cc
  find?-update_first p f (x ∷ xs) a h k = ground (arith, find?-update_first p f xs a)

  pub update_first_of_none :
      (p : A → Bool) (f : A → A) (xs : List A) → any p xs ≡ false → update_first p f xs ≡ xs
  update_first_of_none p f [] h = refl
  update_first_of_none p f (x ∷ xs) h = ground (arith, update_first_of_none p f xs)

  pub any-filter_rest : (p : A → Bool) (xs : List A) → any p (filter (λ x. not (p x)) xs) ≡ false
  any-filter_rest p [] = refl
  any-filter_rest p (x ∷ xs) = ground (arith, any-filter_rest p xs)

  pub filter_of_none :
      (p : A → Bool) (xs : List A) → any p xs ≡ false → filter (λ x. not (p x)) xs ≡ xs
  filter_of_none p [] h = refl
  filter_of_none p (x ∷ xs) h = ground (arith, filter_of_none p xs)

  pub filter-append :
      (p : A → Bool) (xs ys : List A) → filter p (xs ++ ys) ≡ filter p xs ++ filter p ys
  filter-append p [] ys = refl
  filter-append p (x ∷ xs) ys = ground (arith, filter-append p xs ys)

  pub All-append {κ} : (P : A → Type κ) (xs ys : List A) → All P xs → All P ys → All P (xs ++ ys)
  All-append P [] ys h k = k
  All-append P (x ∷ xs) ys (h, hs) k = (h, All-append P xs ys hs k)

  pub All-filter {κ} :
      (P : A → Type κ) (p : A → Bool) (xs : List A) → All P xs → All P (filter p xs)
  All-filter P p [] h = tt
  All-filter P p (x ∷ xs) (h, hs) = elim (Bool-cases (p x)) [
    | inl e ↦ rw e (h, All-filter P p xs hs)
    | inr e ↦ rw e (All-filter P p xs hs)
  ]

  pub All-drop {κ} : (P : A → Type κ) (n : ℕ) (xs : List A) → All P xs → All P (drop n xs)
  All-drop P zero xs h = h
  All-drop P (suc n) [] h = tt
  All-drop P (suc n) (x ∷ xs) (h, hs) = All-drop P n xs hs

pub Distinct-drop {ℓ} :
    {A : Type ℓ} (same : A → A → Bool) (n : ℕ) (xs : List A)
    → Distinct same xs
    → Distinct same (drop n xs)
Distinct-drop same zero xs d = d
Distinct-drop same (suc n) [] d = tt
Distinct-drop same (suc n) (x ∷ xs) (_, d) = Distinct-drop same n xs d

pub All-filter_rest {ℓ} :
    {A : Type ℓ} (p : A → Bool) (xs : List A) → All (λ x. p x ≡ false) (filter (λ x. not (p x)) xs)
All-filter_rest p [] = tt
All-filter_rest p (x ∷ xs) = elim (Bool-cases (p x)) [
  | inl holds ↦ rw holds (All-filter_rest p xs)
  | inr fails ↦ rw fails (fails, All-filter_rest p xs)
]

pub filter-filter {ℓ} :
    {A : Type ℓ} (p : A → Bool) (xs : List A) → filter p (filter p xs) ≡ filter p xs
filter-filter p [] = refl
filter-filter p (x ∷ xs) = elim (Bool-cases (p x)) [
  | inl holds ↦ rw holds (rw holds (ap (λ l. x ∷ l) (filter-filter p xs)))
  | inr fails ↦ rw fails (filter-filter p xs)
]

pub filter_of_false {ℓ} :
    {A : Type ℓ} (p : A → Bool) (xs : List A) → All (λ x. p x ≡ false) xs → filter p xs ≡ []
filter_of_false p [] a = refl
filter_of_false p (x ∷ xs) (h, a) = rw h (filter_of_false p xs a)

pub filter-snoc_not {ℓ} :
    {A : Type ℓ} (p : A → Bool) (xs : List A) (x : A)
    → p x ≡ false
    → filter p (xs ++ x ∷ []) ≡ filter p xs
filter-snoc_not p [] x h = rw h refl
filter-snoc_not p (y ∷ xs) x h = elim (Bool-cases (p y)) [
  | inl holds ↦ rw holds (ap (λ l. y ∷ l) (filter-snoc_not p xs x h))
  | inr fails ↦ rw fails (filter-snoc_not p xs x h)
]
