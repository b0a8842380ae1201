-- ===== src/VirtualList/Spacers.antt =====
-- About the spacers around the rendered window of webui/src/utils/virtualList.ts.
use ga_hub.Prelude.{
  ℕ, zero, suc, ◌+◌, ◌-◌, ◌≤◌, ◌≡◌, refl, ap, ◌∙◌, min, Option, some, List, [], ◌∷◌, length,
  get_elem?, arith,
}
use ga_hub.VirtualList.{
  ℤ, pos, negsuc, VirtualRange, size_at, offsets_from, build_virtual_offsets, offset_at,
  top_position, bottom_position, compute_virtual_range,
}
use ga_hub.VirtualList.Laws.{AscendFrom, IsAscending, count_ended, first_row_after}
use ga_hub.VirtualList.Range.{window, from, to, compute_virtual_range-window}

count_ended_mono : (ends : List ℕ) (p q : ℕ) → p ≤ q → count_ended ends p ≤ count_ended ends q
count_ended_mono [] p q h = omega arith
count_ended_mono (end ∷ ends) p q h = ground (arith, h, count_ended_mono ends p q h)

first_row_after_mono :
    (offsets : List ℕ) (p q : ℕ) → p ≤ q → first_row_after offsets p ≤ first_row_after offsets q
first_row_after_mono [] p q h = omega arith
first_row_after_mono (offset ∷ ends) p q h = count_ended_mono ends p q h

position_le :
    (scroll_top viewport_height overscan_px : ℤ)
    → top_position scroll_top overscan_px ≤ bottom_position scroll_top viewport_height overscan_px
position_le (pos n) viewport_height overscan_px = omega arith
position_le (negsuc n) viewport_height overscan_px = omega arith

module _ (size_for_index : ℕ → Option ℕ) where
  -- The height of `n` rows from `index` on.
  abbrev pub height : (index n : ℕ) → ℕ
  height index zero = 0
  height index (suc n) = size_at size_for_index index + height (suc index) n

  zero_add : (n : ℕ) → 0 + n ≡ n
  zero_add n = omega arith

  height_split : (index m n : ℕ) → height index (m + n) ≡ height index m + height (index + m) n
  height_split index zero n =
      let e : 0 + n ≡ n = omega arith in
      let e' : index + 0 ≡ index = omega arith in rw (e, e') (omega arith)
  height_split index (suc m) n =
      let e : suc m + n ≡ suc (m + n) = omega arith in
      let e' : index + suc m ≡ suc index + m = omega arith in
      rw (e, e') (omega (arith, height_split (suc index) m n))

  offsets_from-height :
      (n index offset i : ℕ)
      → i ≤ n
      → get_elem? (offsets_from size_for_index n index offset) i ≡ some (offset + height index i)
  unfolding offsets_from
  offsets_from-height zero index offset zero h = ap some (omega arith)
  offsets_from-height (suc n) index offset zero h = ap some (omega arith)
  offsets_from-height zero index offset (suc i) h = absurd (omega (arith, h))
  offsets_from-height (suc n) index offset (suc i) h =
      offsets_from-height n (suc index) (offset + size_at size_for_index index) i (omega (arith, h))
      ∙ ap some (omega arith)

  offsets_from-AscendFrom :
      (n index offset least : ℕ)
      → least ≤ offset
      → AscendFrom least (offsets_from size_for_index n index offset)
  unfolding offsets_from
  offsets_from-AscendFrom zero index offset least h = (h, tt)
  offsets_from-AscendFrom (suc n) index offset least h = (
    h,
    offsets_from-AscendFrom n (suc index) (offset + size_at size_for_index index) offset
        (omega arith),
  )

  length-offsets_from :
      (n index offset : ℕ) → length (offsets_from size_for_index n index offset) ≡ suc n
  unfolding offsets_from
  length-offsets_from zero index offset = refl
  length-offsets_from (suc n) index offset =
      ap suc (length-offsets_from n (suc index) (offset + size_at size_for_index index))

  offset_at-height :
      (count i otherwise : ℕ)
      → i ≤ count
      → offset_at (build_virtual_offsets size_for_index count) i otherwise ≡ height 0 i
  unfolding build_virtual_offsets
  offset_at-height count i otherwise h = rw (offsets_from-height count 0 0 i h) (omega arith)

  length-build_virtual_offsets :
      (count : ℕ) → length (build_virtual_offsets size_for_index count) ≡ suc count
  unfolding build_virtual_offsets
  length-build_virtual_offsets count = length-offsets_from count 0 0

  build_virtual_offsets-IsAscending :
      (count : ℕ) → IsAscending (build_virtual_offsets size_for_index count)
  unfolding build_virtual_offsets
  build_virtual_offsets-IsAscending count = offsets_from-AscendFrom count 0 0 0 (omega arith)

  bottom-height :
      (count last end shown : ℕ)
      → last ≡ count
      → end ≤ count
      → shown ≡ end
      → let offsets = build_virtual_offsets size_for_index count in
        let total = offset_at offsets last 0 in
        total - offset_at offsets end total ≡ height shown (count - shown)
  bottom-height count last end shown e h same =
      let offsets = build_virtual_offsets size_for_index count in
      let parts : end + (count - end) ≡ count = omega (arith, h) in
      rw same (
        omega (
          arith,
          offset_at-height count last 0 (omega (arith, e)),
          offset_at-height count end (offset_at offsets last 0) h,
          height_split 0 end (count - end),
          ap (height 0) e,
          ap (height 0) parts,
          ap (λ i. height i (count - end)) (zero_add end),
        ))

  -- For the offsets of at least one row the window is computed, its rows lie in the list, and the spacers
  -- around it are exactly as high as the rows before and after it, which are not rendered.
  pub compute_virtual_range-height :
      (scroll_top viewport_height overscan_px : ℤ) (n : ℕ)
      → let offsets = build_virtual_offsets size_for_index (suc n) in
        (r : VirtualRange) × (compute_virtual_range offsets scroll_top viewport_height overscan_px
          ≡ some r)
        × (r.start ≤ r.end)
        × (r.end ≤ suc n)
        × (r.top ≡ height 0 r.start)
        × (r.bottom ≡ height r.end (suc n - r.end))
  compute_virtual_range-height scroll_top viewport_height overscan_px n =
      let offsets = build_virtual_offsets size_for_index (suc n) in
      let low = from scroll_top viewport_height overscan_px in
      let high = to scroll_top viewport_height overscan_px in
      let r = window offsets low high in
      let long : length offsets ≡ suc (suc n) = length-build_virtual_offsets (suc n) in
      let last =
        min (length offsets - 1) (suc (min (first_row_after offsets high) (length offsets - 2))) in
      let mono =
        first_row_after_mono offsets low high
          (position_le scroll_top viewport_height overscan_px) in
      let ends : r.end ≤ suc n = omega (arith, long) in
      (
        r,
        compute_virtual_range-window scroll_top viewport_height overscan_px offsets
            (build_virtual_offsets-IsAscending (suc n)) (omega (arith, long)),
        omega arith,
        ends,
        offset_at-height (suc n) r.start 0 (omega (arith, long)),
        bottom-height (suc n) (length offsets - 1) last r.end (omega (arith, long))
            (omega (arith, long)) (omega (arith, mono)),
      )
