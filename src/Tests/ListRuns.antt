-- ===== src/Tests/ListRuns.antt =====
-- Runs of webui/src/utils/virtualList.ts on a list of three rows.
use ga_hub.Prelude.{
  ℕ, ◌≤◌, ◌<◌, ◌-◌, ◌≡◌, refl, min, Option, none, some, List, [], ◌∷◌, length, arith, if◌then◌else◌,
  eqb,
}
use ga_hub.VirtualList.{
  pos, VirtualRange, build_virtual_offsets, virtual_index_at_offset, compute_virtual_range,
}
use ga_hub.VirtualList.Laws.{first_row_after, virtual_index_at_offset_lem}
use ga_hub.VirtualList.Range.{compute_virtual_range-covers}
use ga_hub.VirtualList.Spacers.{height, compute_virtual_range-height}

abbrev three_rows : List ℕ
three_rows = 0 ∷ 10 ∷ 30 ∷ 60 ∷ []

virtual_index_at_offset_lem_example :
    virtual_index_at_offset three_rows 10
    ≡ some (min (first_row_after three_rows 10) (length three_rows - 2))
virtual_index_at_offset_lem_example =
    virtual_index_at_offset_lem three_rows 10
      (omega arith, (omega arith, (omega arith, (omega arith, tt))))

compute_virtual_range-covers_example :
    (r : VirtualRange) × (compute_virtual_range three_rows (pos 15) (pos 10) (pos 0) ≡ some r)
    × (r.start ≤ 1)
    × (1 < r.end)
compute_virtual_range-covers_example =
    compute_virtual_range-covers (pos 15) (pos 10) (pos 0) 0 10 (30 ∷ 60 ∷ []) 1
      (omega arith, (omega arith, (omega arith, (omega arith, tt)))) (omega arith) refl refl

abbrev row_size : ℕ → Option ℕ
row_size index = if eqb index 1 then some 20 else none

compute_virtual_range-height_example :
    let offsets = build_virtual_offsets row_size 3 in
    (r : VirtualRange) × (compute_virtual_range offsets (pos 5) (pos 10) (pos 0) ≡ some r)
    × (r.start ≤ r.end)
    × (r.end ≤ 3)
    × (r.top ≡ height row_size 0 r.start)
    × (r.bottom ≡ height row_size r.end (3 - r.end))
compute_virtual_range-height_example =
    compute_virtual_range-height row_size (pos 5) (pos 10) (pos 0) 2
