-- ===== src/Transcript/Glued.antt =====
-- About where webui/src/utils/transcriptProtocol.ts finds that a block's closing fence is glued to its line.
use ga_hub.Prelude.{
  ℕ, ◌+◌, ◌≤◌, ◌≡◌, Bool, true, ◌&&◌, Option, none, some, List, [], ◌∷◌, ◌++◌, length,
  length-append, if_holds, if◌then◌else◌, ltb, leb, eqb, Bool-cases, inl, inr, arith,
}
use ga_hub.Transcript.Match.{drop_while, take_while, is_space, Edge}
use ga_hub.Transcript.Fence.{
  offset, Block, or_block, fence_lines, fence, end_of_block, repaired, without_cr, unfinished,
  glued, closes, reverse_onto,
}
use ga_hub.Transcript.Progress.{drop_while-le, IsShorterEdge}
use ga_hub.Transcript.{block_at}

-- An offset, if there is one, is within a bound.
abbrev pub IsTo : ℕ → Option ℕ → Type 0
IsTo n none = Unit
IsTo n (some at) = at ≤ n

length-reverse_onto : (us vs : List ℕ) → length (reverse_onto us vs) ≡ length us + length vs
length-reverse_onto [] vs = omega arith
length-reverse_onto (u ∷ us) vs = omega (arith, length-reverse_onto us (u ∷ vs))

glued-IsTo : (mark size : ℕ) (line : List ℕ) → IsTo (length line) (glued mark size line)
glued-IsTo mark size line =
    let back = reverse_onto line [] in
    let run = drop_while is_space back in
    let before = drop_while (λ u. eqb u mark) run in
    if_holds (IsTo (length line))
      (eqb (length (take_while (λ u. eqb u mark) run)) size && ltb 0 (length before))
      (some (length before)) none
      (omega (
        arith,
        length-reverse_onto line [],
        drop_while-le is_space back,
        drop_while-le (λ u. eqb u mark) run,
      ))
      tt

length-without_cr-le : (us : List ℕ) → length (without_cr us) ≤ length us
length-without_cr-le [] = omega arith
length-without_cr-le (u ∷ []) = elim (Bool-cases (eqb u 13)) [
  | inl e ↦ rw e (omega arith)
  | inr e ↦ rw e (omega arith)
]
length-without_cr-le (u ∷ v ∷ us) = omega (arith, length-without_cr-le (v ∷ us))

module _ (total : ℕ) where
  abbrev pub IsToBlock : Option Block → Type 0
  IsToBlock none = Unit
  IsToBlock (some block) = IsTo total block.repair

  repaired-IsToBlock :
      (start n : ℕ) (us : List ℕ) (index : Option ℕ)
      → IsTo n index
      → start + n ≤ total
      → IsToBlock (repaired start us index)
  repaired-IsToBlock start n us none h l = tt
  repaired-IsToBlock start n us (some index) h l = omega (arith, h, l)

  end_of_block-IsToBlock :
      (mark size : ℕ) (tool : Bool) (start : ℕ) (line us : List ℕ)
      → start + length line ≤ total
      → IsToBlock (end_of_block mark size tool start line us)
  end_of_block-IsToBlock mark size tool start line us h =
      if_holds IsToBlock (closes mark size line)
        (some (record { after = us; complete = true; repair = none }))
        (if tool && eqb mark b'`' then repaired start us (glued mark size line) else none) tt
        (if_holds IsToBlock (tool && eqb mark b'`') (repaired start us (glued mark size line)) none
          (repaired-IsToBlock start (length line) us (glued mark size line)
            (glued-IsTo mark size line) h)
          tt)

  or_block-IsTo :
      (o : Option Block) (other : Block)
      → IsToBlock o
      → IsTo total other.repair
      → IsTo total (or_block o other).repair
  or_block-IsTo none other h k = k
  or_block-IsTo (some block) other h k = h

  fence_lines-IsTo :
      (mark size : ℕ) (tool : Bool) (start : ℕ) (line us : List ℕ)
      → start + length line + length us ≤ total
      → IsTo total (fence_lines total mark size tool start line us).repair
  unfolding fence_lines
  fence_lines-IsTo mark size tool start [] [] h = tt
  fence_lines-IsTo mark size tool start (v ∷ line) [] h =
      or_block-IsTo (end_of_block mark size tool start (v ∷ line) []) unfinished
        (end_of_block-IsToBlock mark size tool start (v ∷ line) [] (omega (arith, h))) tt
  fence_lines-IsTo mark size tool start line (u ∷ us) h =
      let ended = end_of_block mark size tool start (without_cr line) us in
      let ends =
        or_block-IsTo ended (fence_lines total mark size tool (offset total us) [] us)
          (end_of_block-IsToBlock mark size tool start (without_cr line) us
            (omega (arith, h, length-without_cr-le line)))
          (fence_lines-IsTo mark size tool (offset total us) [] us (omega (arith, h))) in
      elim (Bool-cases (eqb u 10)) [
        | inl e ↦ rw e ends
        | inr e ↦ rw e (
            fence_lines-IsTo mark size tool start (line ++ u ∷ []) us
              (omega (arith, h, length-append line (u ∷ []))))
      ]

  pub block_at-IsToBlock :
      (n : ℕ) (o : Option Edge) → IsShorterEdge n o → n ≤ total → IsToBlock (block_at total o)
  unfolding fence
  block_at-IsToBlock n none h l = tt
  block_at-IsToBlock n (some edge) h l =
      if_holds IsToBlock (eqb edge.mark b'`' && leb 4 edge.size) (some (fence total edge true)) none
        (fence_lines-IsTo edge.mark edge.size true (offset total edge.after) [] edge.after
          (omega (arith, h, l)))
        tt
