-- ===== src/VirtualList/Laws.antt =====
-- About the search for a row of webui/src/utils/virtualList.ts.
use ga_hub.Prelude.{
  ℕ, zero, suc, ◌+◌, ◌-◌, ◌/◌, ◌≤◌, ◌<◌, ◌≡◌, refl, ap, min, false, some, List, [], ◌∷◌, length,
  get_elem?, if◌then◌else◌, ltb, leb, arith, Bool-cases, inl, inr,
}
use ga_hub.VirtualList.{capped, is_at_most, search_index, virtual_index_at_offset}

-- The offsets do not descend.
abbrev pub AscendFrom : ℕ → List ℕ → Type 0
AscendFrom n [] = Unit
AscendFrom n (offset ∷ offsets) = (n ≤ offset) × AscendFrom offset offsets

abbrev pub IsAscending : List ℕ → Type 0
IsAscending offsets = AscendFrom 0 offsets

-- The number of rows that end at a position or before it, up to the first that does not.
abbrev pub count_ended : List ℕ → ℕ → ℕ
count_ended [] position = 0
count_ended (end ∷ ends) position =
    let rest = count_ended ends position in if leb end position then suc rest else 0

-- The first row that ends after a position, by looking at one row after the other; the number of rows
-- if there is none.
abbrev pub first_row_after : List ℕ → ℕ → ℕ
first_row_after [] position = 0
first_row_after (offset ∷ ends) position = count_ended ends position

count_ended-le : (ends : List ℕ) (position : ℕ) → count_ended ends position ≤ length ends
count_ended-le [] position = omega arith
count_ended-le (end ∷ ends) position = ground (arith, count_ended-le ends position)

not_ended :
    (n : ℕ) (ends : List ℕ) (position i : ℕ)
    → AscendFrom n ends
    → position < n
    → is_at_most (get_elem? ends i) position ≡ false
not_ended n [] position i a h = refl
not_ended n (end ∷ ends) position zero (l, a) h = ground (arith, l, h)
not_ended n (end ∷ ends) position (suc i) (l, a) h =
    not_ended end ends position i a (omega (arith, l, h))

-- A row ends at the position or before it just if it stands before the first that does not.
pub is_at_most-count_ended :
    (n : ℕ) (ends : List ℕ) (position i : ℕ)
    → AscendFrom n ends
    → is_at_most (get_elem? ends i) position ≡ ltb i (count_ended ends position)
is_at_most-count_ended n [] position i a = ground arith
is_at_most-count_ended n (end ∷ ends) position zero (l, a) = ground arith
is_at_most-count_ended n (end ∷ ends) position (suc i) (l, a) =
    elim (Bool-cases (leb end position)) [
      | inl e ↦ rw e (ground (arith, is_at_most-count_ended end ends position i a))
      | inr e ↦ rw e (ground (arith, not_ended end ends position i a (ground (arith, e))))
    ]

module _ (offset : ℕ) (ends : List ℕ) (position n : ℕ) (a : AscendFrom n ends) where
  search_index_lem :
      (fuel low high : ℕ)
      → low ≤ count_ended ends position
      → count_ended ends position ≤ high
      → high ≤ low + fuel
      → search_index (offset ∷ ends) position fuel low high ≡ some (count_ended ends position)
  unfolding search_index
  search_index_lem zero low high l h f = ground (arith, l, h, f)
  search_index_lem (suc fuel) low high l h f =
      let middle = (low + high) / 2 in
      let split = is_at_most-count_ended n ends position middle a in
      elim (Bool-cases (ltb low high)) [
        | inr e ↦ rw e (ground (arith, e, l, h))
        | inl e ↦ elim (Bool-cases (is_at_most (get_elem? ends middle) position)) [
          | inl above ↦
              rw (e, above)
                (search_index_lem fuel (suc middle) high (ground (arith, above, split)) h
                  (omega (arith, f)))
          | inr below ↦
              rw (e, below)
                (search_index_lem fuel low middle l (ground (arith, below, split))
                  (ground (arith, e, f)))
        ]
      ]

-- On offsets that do not descend the binary search ends, and finds the first row that ends after the
-- position, by looking at one row after the other; the last row if there is none.
pub virtual_index_at_offset_lem :
    (offsets : List ℕ) (position : ℕ)
    → IsAscending offsets
    → virtual_index_at_offset offsets position
      ≡ some (min (first_row_after offsets position) (length offsets - 2))
unfolding virtual_index_at_offset search_index
virtual_index_at_offset_lem [] position a = refl
virtual_index_at_offset_lem (offset ∷ []) position a = refl
virtual_index_at_offset_lem (offset ∷ end ∷ ends) position (l, a) =
    let found =
      search_index_lem offset (end ∷ ends) position offset a (suc (suc (length ends))) 0
        (suc (suc (length ends)) - 1) (omega arith)
        (omega (arith, count_ended-le (end ∷ ends) position)) (omega arith) in
    let long : leb (suc (suc (length ends))) 1 ≡ false = ground arith in
    rw long (ap (capped (offset ∷ end ∷ ends)) found)
