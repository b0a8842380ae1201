-- ===== src/Transcript/Fence.antt =====
-- Fenced blocks and calls of webui/src/utils/transcriptProtocol.ts: `balancedCall` and `fence`. A
-- position is told by what is left of the source from there on.
use ga_hub.Prelude.{
  ℕ, suc, ◌+◌, ◌-◌, Bool, true, false, not, ◌&&◌, Option, none, some, List, [], ◌∷◌, ◌++◌, length,
  if◌then◌else◌, ltb, eqb,
}
use ga_hub.Transcript.Match.{
  take_while, drop_while, is_empty, is_space, star, group, match_pieces, Edge,
}

-- The offset in a source of `total` units from which `us` is left.
abbrev pub offset : ℕ → List ℕ → ℕ
offset total us = total - length us

-- The state of the loop of `balancedCall`.
pub record Call : Type 0 where
  pub depth : ℕ
  pub quoted : Bool
  pub escaped : Bool

abbrev pub read_unit : ℕ → Call → Call
read_unit u c =
    if c.escaped
    then record c { escaped = false }
    else if c.quoted && eqb u b'\\'
    then record c { escaped = true }
    else if eqb u b'"'
    then record c { quoted = not c.quoted }
    else if c.quoted
    then c
    else if eqb u b'('
    then record c { depth = suc c.depth }
    else if eqb u b')'
    then record c { depth = c.depth - 1 }
    else c

-- What is left after the call; a depth of 0 is its end.
unfoldable pub balanced_from : Call → List ℕ → Option (List ℕ)
balanced_from c [] = none
balanced_from c (u ∷ us) =
    let next = read_unit u c in
    let rest = balanced_from next us in if eqb next.depth 0 then some us else rest

unfoldable pub balanced_call : List ℕ → Option (List ℕ)
unfolding balanced_from
balanced_call us = balanced_from (record { depth = 1; quoted = false; escaped = false }) us

abbrev pub reverse_onto : List ℕ → List ℕ → List ℕ
reverse_onto [] vs = vs
reverse_onto (u ∷ us) vs = reverse_onto us (u ∷ vs)

-- The expression for a closing line.
abbrev pub closes : ℕ → ℕ → List ℕ → Bool
closes mark size line =
    elim (match_pieces (star is_space ∷ group size (λ u. eqb u mark) ∷ star is_space ∷ []) []
      line) [ none ↦ false | some m ↦ is_empty m.1 ]

-- The index of a run of exactly `size` marks at the end of a line, spaces after it ignored, if the line
-- has it and something before it; read from the line's end.
abbrev pub glued_back : ℕ → ℕ → List ℕ → Option ℕ
glued_back mark size back =
    let run = drop_while is_space back in
    let before = drop_while (λ u. eqb u mark) run in
    if eqb (length (take_while (λ u. eqb u mark) run)) size && ltb 0 (length before)
    then some (length before)
    else none

abbrev pub glued : ℕ → ℕ → List ℕ → Option ℕ
glued mark size line = glued_back mark size (reverse_onto line [])

-- What `fence` gives back.
pub record Block : Type 0 where
  pub after : List ℕ
  pub complete : Bool
  pub repair : Option ℕ

-- A line of the block: `none` if the block goes on. `start` is its offset, `us` what comes after it.
abbrev pub repaired : ℕ → List ℕ → Option ℕ → Option Block
repaired start us none = none
repaired start us (some index) =
    some (record { after = us; complete = true; repair = some (start + index) })

abbrev pub end_of_block : ℕ → ℕ → Bool → ℕ → List ℕ → List ℕ → Option Block
end_of_block mark size tool start line us =
    let glued_end = repaired start us (glued mark size line) in
    if closes mark size line
    then some (record { after = us; complete = true; repair = none })
    else if tool && eqb mark b'`'
    then glued_end
    else none

-- A line without the `\r` of its `\r\n`.
abbrev pub without_cr : List ℕ → List ℕ
without_cr [] = []
without_cr (u ∷ []) = if eqb u 13 then [] else u ∷ []
without_cr (u ∷ v ∷ us) = u ∷ without_cr (v ∷ us)

abbrev pub or_block : Option Block → Block → Block
or_block none other = other
or_block (some block) other = block

abbrev pub unfinished : Block
unfinished = record { after = []; complete = false; repair = none }

module _ (total mark size : ℕ) (tool : Bool) where
  -- The loop of `fence`; `line` is what has been read of the line that begins at `start`.
  unfoldable pub fence_lines : (start : ℕ) → (line us : List ℕ) → Block
  fence_lines start [] [] = unfinished
  fence_lines start (v ∷ line) [] =
      or_block (end_of_block mark size tool start (v ∷ line) []) unfinished
  fence_lines start line (u ∷ us) =
      let next = fence_lines (offset total us) [] us in
      let more = fence_lines start (line ++ u ∷ []) us in
      if eqb u 10
      then or_block (end_of_block mark size tool start (without_cr line) us) next
      else more

-- `fence`, from a line that EDGE matches.
unfoldable pub fence : ℕ → Edge → Bool → Block
unfolding fence_lines
fence total edge tool =
    fence_lines total edge.mark edge.size tool (offset total edge.after) [] edge.after
