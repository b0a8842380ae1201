-- ===== src/VirtualList/Range.antt =====
-- About the rendered window of webui/src/utils/virtualList.ts.
use ga_hub.Prelude.{
  ℕ, zero, suc, ◌-◌, ◌≤◌, ◌<◌, ◌≡◌, refl, min, max, true, false, some, List, ◌∷◌, length, get_elem?,
  leb, arith,
}
use ga_hub.VirtualList.{
  ℤ, VirtualRange, is_at_most, offset_at, top_position, bottom_position, compute_virtual_range,
}
use ga_hub.VirtualList.Laws.{
  AscendFrom, IsAscending, count_ended, first_row_after, is_at_most-count_ended,
  virtual_index_at_offset_lem,
}

abbrev pub window : List ℕ → ℕ → ℕ → VirtualRange
window offsets from to =
    let start = min (first_row_after offsets from) (length offsets - 2) in
    let end =
      min (length offsets - 1) (suc (min (first_row_after offsets to) (length offsets - 2))) in
    let total = offset_at offsets (length offsets - 1) 0 in
    record {
      start = start;
      end = max start end;
      top = offset_at offsets start 0;
      bottom = total - offset_at offsets end total;
    }

window_bounds :
    (n i first last : ℕ)
    → i ≤ n
    → first ≤ i
    → i ≤ last
    → let start = min first (suc (suc n) - 2) in
      (start ≤ i) × (i < max start (min (suc (suc n) - 1) (suc (min last (suc (suc n) - 2)))))
window_bounds n i first last h k l = (omega arith, omega arith)

-- A row that begins by a position is at most the first that ends after it.
begins-count_ended :
    (offset : ℕ) (ends : List ℕ) (position i : ℕ)
    → AscendFrom offset ends
    → is_at_most (get_elem? (offset ∷ ends) i) position ≡ true
    → i ≤ count_ended ends position
begins-count_ended offset ends position zero a h = omega arith
begins-count_ended offset ends position (suc i) a h =
    ground (arith, h, is_at_most-count_ended offset ends position i a)

ends-count_ended :
    (offset : ℕ) (ends : List ℕ) (position i : ℕ)
    → AscendFrom offset ends
    → is_at_most (get_elem? (offset ∷ ends) (suc i)) position ≡ false
    → count_ended ends position ≤ i
ends-count_ended offset ends position i a h =
    ground (arith, h, is_at_most-count_ended offset ends position i a)

module _ (scroll_top viewport_height overscan_px : ℤ) where
  abbrev pub from : ℕ
  from = top_position scroll_top overscan_px

  abbrev pub to : ℕ
  to = bottom_position scroll_top viewport_height overscan_px

  pub compute_virtual_range-window :
      (offsets : List ℕ)
      → IsAscending offsets
      → 1 < length offsets
      → compute_virtual_range offsets scroll_top viewport_height overscan_px
        ≡ some (window offsets from to)
  unfolding compute_virtual_range
  compute_virtual_range-window offsets a h =
      let long : leb (length offsets) 1 ≡ false = ground (arith, h) in
      rw
        (long, virtual_index_at_offset_lem offsets from a, virtual_index_at_offset_lem offsets to a)
        refl

  -- Where the offsets do not descend, the window is computed, and a row `i` that overlaps it, beginning
  -- at its end or before and ending after its start, is rendered. The window is what is visible, with
  -- the overscan.
  pub compute_virtual_range-covers :
      (offset end : ℕ) (ends : List ℕ) (i : ℕ)
      → IsAscending (offset ∷ end ∷ ends)
      → i ≤ length ends
      → is_at_most (get_elem? (offset ∷ end ∷ ends) i) to ≡ true
      → is_at_most (get_elem? (offset ∷ end ∷ ends) (suc i)) from ≡ false
      → (r : VirtualRange) × (compute_virtual_range
            (offset ∷ end ∷ ends)
            scroll_top
            viewport_height
            overscan_px
          ≡ some r)
        × (r.start ≤ i)
        × (i < r.end)
  compute_virtual_range-covers offset end ends i a h begins ends_after =
      let bounds =
        window_bounds (length ends) i (count_ended (end ∷ ends) from) (count_ended (end ∷ ends) to)
          h (ends-count_ended offset (end ∷ ends) from i a.1 ends_after)
          (begins-count_ended offset (end ∷ ends) to i a.1 begins) in
      (
        window (offset ∷ end ∷ ends) from to,
        compute_virtual_range-window (offset ∷ end ∷ ends) a (omega arith),
        bounds.0,
        bounds.1,
      )
