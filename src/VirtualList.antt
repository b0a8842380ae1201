-- ===== src/VirtualList.antt =====
-- webui/src/utils/virtualList.ts: which rows of a long list are rendered. Lengths are whole numbers
-- (of any unit); a size that is not finite or not above 0 is `none`.
pub mod Laws
pub mod Range
pub mod Spacers
use ga_hub.Prelude.{
  ℕ, zero, suc, ◌+◌, ◌-◌, ◌/◌, min, max, Bool, true, false, Option, none, some, List, [], ◌∷◌,
  length, get_elem?, if◌then◌else◌, ltb, leb, or_default,
}

pub data ℤ : Type 0 where
  pos : (n : ℕ) → ℤ
  negsuc : (n : ℕ) → ℤ  -- -(n + 1)

-- `Math.max(0, z)`.
abbrev pub at_least_0 : ℤ → ℕ
at_least_0 (pos n) = n
at_least_0 (negsuc n) = 0

-- `Math.max(0, z - m)`, and `Math.max(t, z + m)` for a natural `t`.
abbrev pub back_from : ℤ → ℕ → ℕ
back_from (pos n) m = n - m
back_from (negsuc n) m = 0

abbrev pub on_from : ℕ → ℤ → ℕ → ℕ
on_from t (pos n) m = max t (n + m)
on_from t (negsuc n) m = max t (m - suc n)

pub record VirtualRange : Type 0 where
  pub start : ℕ
  pub end : ℕ
  pub top : ℕ
  pub bottom : ℕ

module _ (size_for_index : ℕ → Option ℕ) where
  abbrev pub size_at : ℕ → ℕ
  size_at index = elim (size_for_index index) [
    | none ↦ 1
    | some size ↦ if ltb 0 size then size else 1
  ]

  -- The offsets of the rows from `index` on, `count` of them, and their end.
  unfoldable pub offsets_from : (count index offset : ℕ) → List ℕ
  offsets_from zero index offset = offset ∷ []
  offsets_from (suc count) index offset =
      offset ∷ offsets_from count (suc index) (offset + size_at index)

  unfoldable pub build_virtual_offsets : ℕ → List ℕ
  unfolding offsets_from
  build_virtual_offsets count = offsets_from count 0 0

-- `offsets[index] <= target`, false out of range.
abbrev pub is_at_most : Option ℕ → ℕ → Bool
is_at_most none target = false
is_at_most (some offset) target = leb offset target

-- The loop of `virtualIndexAtOffset`, `none` if the fuel runs out.
unfoldable pub search_index : List ℕ → ℕ → (fuel low high : ℕ) → Option ℕ
search_index offsets target zero low high = if ltb low high then none else some low
search_index offsets target (suc fuel) low high =
    let middle = (low + high) / 2 in
    let above = is_at_most (get_elem? offsets (suc middle)) target in
    let rest =
      search_index offsets target fuel (if above then suc middle else low)
        (if above then high else middle) in
    if ltb low high then rest else some low

abbrev pub capped : List ℕ → Option ℕ → Option ℕ
capped offsets none = none
capped offsets (some low) = some (min low (length offsets - 2))

-- For a position from 0 on, to which the source raises it. A loop of `length offsets` rounds is
-- enough.
unfoldable pub virtual_index_at_offset : List ℕ → ℕ → Option ℕ
unfolding search_index
virtual_index_at_offset offsets position =
    if leb (length offsets) 1
    then some 0
    else capped offsets (search_index offsets position (length offsets) 0 (length offsets - 1))

-- `offsets[index] ?? otherwise`.
abbrev pub offset_at : List ℕ → ℕ → ℕ → ℕ
offset_at offsets index otherwise = or_default (get_elem? offsets index) otherwise

abbrev pub range_of : List ℕ → Option ℕ → Option ℕ → Option VirtualRange
range_of offsets none last = none
range_of offsets (some start) none = none
range_of offsets (some start) (some last) =
    let count = length offsets - 1 in
    let end = min count (suc last) in
    let total = offset_at offsets count 0 in
    some (record {
      start = start;
      end = max start end;
      top = offset_at offsets start 0;
      bottom = total - offset_at offsets end total;
    })

abbrev pub top_position : ℤ → ℤ → ℕ
top_position scroll_top overscan_px = back_from scroll_top (at_least_0 overscan_px)

abbrev pub bottom_position : ℤ → ℤ → ℤ → ℕ
bottom_position scroll_top viewport_height overscan_px =
    on_from (top_position scroll_top overscan_px) scroll_top
      (at_least_0 viewport_height + at_least_0 overscan_px)

unfoldable pub compute_virtual_range : List ℕ → ℤ → ℤ → ℤ → Option VirtualRange
compute_virtual_range offsets scroll_top viewport_height overscan_px =
    let top = virtual_index_at_offset offsets (top_position scroll_top overscan_px) in
    let bottom =
      virtual_index_at_offset offsets (bottom_position scroll_top viewport_height overscan_px) in
    if leb (length offsets) 1
    then some (record { start = 0; end = 0; top = 0; bottom = 0 })
    else range_of offsets top bottom
