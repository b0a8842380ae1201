-- ===== src/Prelude/Sort.antt =====
-- The stable ascending sort by a numeric key that `[...xs].sort((a, b) => key(a) - key(b))` is, and
-- lists up to order.
use Prim.Native.Nat.{ℕ, zero, suc, ◌≤◌}
use mathlib.Core.Path.{◌≡◌, refl, ap, ◌∙◌}
use mathlib.Core.Logic.{inl, inr}
use mathlib.Core.Bool.{Bool, false, not, ◌||◌}
use mathlib.Core.List.{List, [], ◌∷◌, ◌++◌, Perm, perm_middle}
use mathlib.Core.List.Perm
use native.Mathlib.Omega.{arith}
use ga_hub.Prelude.Tests.{leb, if◌then◌else◌, Bool-cases}
use ga_hub.Prelude.Lists.{filter, All, any, drop, Distinct, length}

module _ {ℓ} {A : Type ℓ} (key : A → ℕ) where
  insert_by : A → List A → List A
  insert_by x [] = x ∷ []
  insert_by x (y ∷ ys) = if leb (key x) (key y) then x ∷ y ∷ ys else y ∷ insert_by x ys

  unfoldable pub sort_by : List A → List A
  unfolding insert_by
  sort_by [] = []
  sort_by (x ∷ xs) = insert_by x (sort_by xs)

  -- The keys ascend from a bound on.
  abbrev pub AscendFrom : ℕ → List A → Type 0
  AscendFrom n [] = Unit
  AscendFrom n (x ∷ xs) = (n ≤ key x) × AscendFrom (key x) xs

  abbrev pub Ascends : List A → Type 0
  Ascends [] = Unit
  Ascends (x ∷ xs) = AscendFrom (key x) xs

  insert_by-AscendFrom :
      (n : ℕ) (x : A) (ys : List A) → n ≤ key x → AscendFrom n ys → AscendFrom n (insert_by x ys)
  unfolding insert_by
  insert_by-AscendFrom n x [] h a = (h, tt)
  insert_by-AscendFrom n x (y ∷ ys) h (b, a) = elim (Bool-cases (leb (key x) (key y))) [
    | inl e ↦ rw e (h, (ground arith, a))
    | inr e ↦ rw e (b, insert_by-AscendFrom (key y) x ys (ground arith) a)
  ]

  AscendFrom-Ascends : (n : ℕ) (xs : List A) → AscendFrom n xs → Ascends xs
  AscendFrom-Ascends n [] a = tt
  AscendFrom-Ascends n (x ∷ xs) (_, a) = a

  Ascends-AscendFrom : (xs : List A) → Ascends xs → AscendFrom 0 xs
  Ascends-AscendFrom [] a = tt
  Ascends-AscendFrom (x ∷ xs) a = (omega arith, a)

  sort_by-AscendFrom : (xs : List A) → AscendFrom 0 (sort_by xs)
  unfolding sort_by
  sort_by-AscendFrom [] = tt
  sort_by-AscendFrom (x ∷ xs) =
      insert_by-AscendFrom 0 x (sort_by xs) (omega arith) (sort_by-AscendFrom xs)

  pub sort_by-Ascends : (xs : List A) → Ascends (sort_by xs)
  sort_by-Ascends xs = AscendFrom-Ascends 0 (sort_by xs) (sort_by-AscendFrom xs)

  insert_by-perm : (x : A) (ys : List A) → Perm (insert_by x ys) (x ∷ ys)
  unfolding insert_by
  insert_by-perm x [] = Perm.refl _
  insert_by-perm x (y ∷ ys) = elim (Bool-cases (leb (key x) (key y))) [
    | inl e ↦ rw e (Perm.refl _)
    | inr e ↦ rw e (Perm.trans (Perm.cons y (insert_by-perm x ys)) (Perm.swap x y ys))
  ]

  pub sort_by-perm : (xs : List A) → Perm (sort_by xs) xs
  unfolding sort_by
  sort_by-perm [] = Perm.refl _
  sort_by-perm (x ∷ xs) = Perm.trans (insert_by-perm x (sort_by xs)) (Perm.cons x (sort_by-perm xs))

  insert_by_first : (x : A) (xs : List A) → AscendFrom (key x) xs → insert_by x xs ≡ x ∷ xs
  unfolding insert_by
  insert_by_first x [] a = refl
  insert_by_first x (y ∷ ys) a = ground arith

  length-insert_by : (x : A) (ys : List A) → length (insert_by x ys) ≡ suc (length ys)
  unfolding insert_by
  length-insert_by x [] = refl
  length-insert_by x (y ∷ ys) = ground (arith, length-insert_by x ys)

  pub length-sort_by : (xs : List A) → length (sort_by xs) ≡ length xs
  unfolding sort_by
  length-sort_by [] = refl
  length-sort_by (x ∷ xs) = length-insert_by x (sort_by xs) ∙ ap suc (length-sort_by xs)

  -- Sorting an ascending list changes nothing.
  pub sort_by_of_Ascends : (xs : List A) → Ascends xs → sort_by xs ≡ xs
  unfolding sort_by
  sort_by_of_Ascends [] a = refl
  sort_by_of_Ascends (x ∷ xs) a =
      rw (sort_by_of_Ascends xs (AscendFrom-Ascends (key x) xs a)) (insert_by_first x xs a)

  insert_by-All {κ} :
      (P : A → Type κ) (x : A) (ys : List A) → P x → All P ys → All P (insert_by x ys)
  unfolding insert_by
  insert_by-All P x [] h a = (h, tt)
  insert_by-All P x (y ∷ ys) h (b, a) = elim (Bool-cases (leb (key x) (key y))) [
    | inl e ↦ rw e (h, (b, a))
    | inr e ↦ rw e (b, insert_by-All P x ys h a)
  ]

  pub sort_by-All {κ} : (P : A → Type κ) (xs : List A) → All P xs → All P (sort_by xs)
  unfolding sort_by
  sort_by-All P [] a = tt
  sort_by-All P (x ∷ xs) (h, a) = insert_by-All P x (sort_by xs) h (sort_by-All P xs a)

  any-insert_by : (p : A → Bool) (x : A) (ys : List A) → any p (insert_by x ys) ≡ (p x || any p ys)
  unfolding insert_by
  any-insert_by p x [] = refl
  any-insert_by p x (y ∷ ys) = ground (arith, any-insert_by p x ys)

  pub any-sort_by : (p : A → Bool) (xs : List A) → any p (sort_by xs) ≡ any p xs
  unfolding sort_by
  any-sort_by p [] = refl
  any-sort_by p (x ∷ xs) = ground (arith, any-insert_by p x (sort_by xs), any-sort_by p xs)

  AscendFrom-drop : (m n : ℕ) (xs : List A) → AscendFrom m xs → Ascends (drop n xs)
  AscendFrom-drop m zero xs a = AscendFrom-Ascends m xs a
  AscendFrom-drop m (suc n) [] a = tt
  AscendFrom-drop m (suc n) (x ∷ xs) (_, a) = AscendFrom-drop (key x) n xs a

  pub Ascends-drop : (n : ℕ) (xs : List A) → Ascends xs → Ascends (drop n xs)
  Ascends-drop n xs a = AscendFrom-drop 0 n xs (Ascends-AscendFrom xs a)

  module _ (same : A → A → Bool) (swap : (x y : A) → same x y ≡ same y x) where
    insert_by-Distinct :
        (x : A) (ys : List A)
        → any (same x) ys ≡ false
        → Distinct same ys
        → Distinct same (insert_by x ys)
    unfolding insert_by
    insert_by-Distinct x [] h d = (refl, tt)
    insert_by-Distinct x (y ∷ ys) h (k, d) = elim (Bool-cases (leb (key x) (key y))) [
      | inl e ↦ rw e (h, (k, d))
      | inr e ↦ rw e (
        ground (arith, h, k, swap y x, any-insert_by (same y) x ys),
        insert_by-Distinct x ys (ground (arith, h)) d,
      )
    ]

    pub sort_by-Distinct : (xs : List A) → Distinct same xs → Distinct same (sort_by xs)
    unfolding sort_by
    sort_by-Distinct [] d = tt
    sort_by-Distinct (x ∷ xs) (h, d) =
        insert_by-Distinct x (sort_by xs) (any-sort_by (same x) xs ∙ h) (sort_by-Distinct xs d)

module _ {ℓ} {A : Type ℓ} where
  -- A list is made of what passes a test and what fails it.
  pub partition-perm :
      (p : A → Bool) (xs : List A) → Perm (filter p xs ++ filter (λ x. not (p x)) xs) xs
  partition-perm p [] = Perm.refl _
  partition-perm p (x ∷ xs) = elim (Bool-cases (p x)) [
    | inl e ↦ rw e (Perm.cons x (partition-perm p xs))
    | inr e ↦ rw e (
        Perm.trans (perm_middle (filter p xs) (filter (λ y. not (p y)) xs))
          (Perm.cons x (partition-perm p xs)))
  ]
