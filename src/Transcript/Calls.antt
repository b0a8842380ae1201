-- ===== src/Transcript/Calls.antt =====
-- About the blocks of a call in webui/src/utils/transcriptProtocol.ts.
use ga_hub.Prelude.{
  ℕ, zero, suc, ◌≤◌, ◌<◌, Bool, true, false, ◌&&◌, Option, none, some, List, [], ◌∷◌, ◌++◌, length,
  if◌then◌else◌, leb, eqb, if_holds, arith, Bool-cases, subst, Option-cases, inl, inr, blank,
}
use ga_hub.Transcript.Match.{drop_while, Edge, match_edge}
use ga_hub.Transcript.Fence.{
  Block, or_block, fence_lines, fence, offset, end_of_block, repaired, without_cr, glued, closes,
}
use ga_hub.Transcript.Progress.{drop_while-le, IsShorterEdge, match_edge-IsShorterEdge}
use ga_hub.Transcript.{Blocks, call_blocks, block_at, last_blocks, is_first_ticks, add_repair}

-- A block that ends leaves no more than `n` units.
abbrev Within : ℕ → Option Block → Type 0
Within n none = Unit
Within n (some block) = length block.after ≤ n

repaired-Within :
    (start : ℕ) (us : List ℕ) (index : Option ℕ) → Within (length us) (repaired start us index)
repaired-Within start us none = tt
repaired-Within start us (some index) = omega arith

end_of_block-Within :
    (mark size : ℕ) (tool : Bool) (start : ℕ) (line us : List ℕ)
    → Within (length us) (end_of_block mark size tool start line us)
end_of_block-Within mark size tool start line us =
    if_holds (Within (length us)) (closes mark size line)
      (some (record { after = us; complete = true; repair = none }))
      (if tool && eqb mark b'`' then repaired start us (glued mark size line) else none)
      (omega arith)
      (if_holds (Within (length us)) (tool && eqb mark b'`')
        (repaired start us (glued mark size line)) none
        (repaired-Within start us (glued mark size line)) tt)

or_block-le :
    (n : ℕ) (o : Option Block) (other : Block)
    → Within n o
    → length other.after ≤ n
    → length (or_block o other).after ≤ n
or_block-le n none other h k = k
or_block-le n (some block) other h k = h

module _ (total mark size : ℕ) (tool : Bool) where
  fence_lines-le :
      (start : ℕ) (line us : List ℕ)
      → length (fence_lines total mark size tool start line us).after ≤ length us
  unfolding fence_lines
  fence_lines-le start [] [] = omega arith
  fence_lines-le start (v ∷ line) [] =
      or_block-le 0 (end_of_block mark size tool start (v ∷ line) []) _
        (end_of_block-Within mark size tool start (v ∷ line) []) (omega arith)
  fence_lines-le start line (u ∷ us) =
      let ended = end_of_block mark size tool start (without_cr line) us in
      let rest = fence_lines-le (offset total us) [] us in
      let ends =
        or_block-le (length us) ended (fence_lines total mark size tool (offset total us) [] us)
          (end_of_block-Within mark size tool start (without_cr line) us) rest in
      elim (Bool-cases (eqb u 10)) [
        | inl e ↦ rw e (omega (arith, ends))
        | inr e ↦ rw e (omega (arith, fence_lines-le start (line ++ u ∷ []) us))
      ]

pub fence-le :
    (total : ℕ) (edge : Edge) (tool : Bool)
    → length (fence total edge tool).after ≤ length edge.after
unfolding fence
fence-le total edge tool =
    fence_lines-le total edge.mark edge.size tool (offset total edge.after) [] edge.after

-- A block that follows a call leaves less than `n` units.
abbrev pub IsShorterBlock : ℕ → Option Block → Type 0
IsShorterBlock n none = Unit
IsShorterBlock n (some block) = length block.after < n

pub block_at-IsShorterBlock :
    (total n : ℕ) (o : Option Edge) → IsShorterEdge n o → IsShorterBlock n (block_at total o)
block_at-IsShorterBlock total n none h = tt
block_at-IsShorterBlock total n (some edge) h =
    if_holds (IsShorterBlock n) (eqb edge.mark b'`' && leb 4 edge.size)
      (some (fence total edge true)) none (omega (arith, h, fence-le total edge true)) tt

-- The blocks of a call end, and leave at most `n` units.
abbrev pub IsEnded : ℕ → Option Blocks → Type 0
IsEnded n none = ⊥
IsEnded n (some blocks) = length blocks.after ≤ n

IsEnded-le : (m n : ℕ) (o : Option Blocks) → m ≤ n → IsEnded m o → IsEnded n o
IsEnded-le m n none h e = absurd e
IsEnded-le m n (some blocks) h e = omega (arith, h, e)

last_blocks-le :
    (total : ℕ) (after next : List ℕ) (opaque : List (ℕ × ℕ)) (repairs : List ℕ)
    → length (last_blocks total after next opaque repairs).after ≤ length after
last_blocks-le total after next opaque repairs = elim (Bool-cases (is_first_ticks next)) [
  | inl e ↦ rw e (omega arith)
  | inr e ↦ rw e (omega arith)
]

module _ (total : ℕ) where
  pub call_blocks-IsEnded :
      (fuel : ℕ) (after : List ℕ) (opaque : List (ℕ × ℕ)) (repairs : List ℕ)
      → length after < fuel
      → IsEnded (length after) (call_blocks total fuel after opaque repairs)
  unfolding call_blocks
  call_blocks-IsEnded zero after opaque repairs h = absurd (omega (arith, h))
  call_blocks-IsEnded (suc fuel) after opaque repairs h =
      let next = drop_while blank after in
      elim (Option-cases (block_at total (match_edge next))) [
        | inl e ↦ rw (call_blocks, e) (last_blocks-le total after next opaque repairs)
        | inr (block, e) ↦
            let found_block =
              block_at-IsShorterBlock total (length next) (match_edge next)
                (match_edge-IsShorterEdge next) in
            let less : length block.after < length next =
              subst (IsShorterBlock (length next)) e found_block in
            let le = drop_while-le blank after in
            let opaque' = opaque ++ (offset total next, offset total block.after) ∷ [] in
            let repairs' = add_repair block.repair repairs in
            rw (call_blocks, e)
              (if_holds (IsEnded (length after)) block.complete
                (call_blocks total fuel block.after opaque' repairs')
                (some (record {
                  after = block.after;
                  complete = false;
                  opaque = opaque';
                  repairs = repairs';
                }))
                (IsEnded-le (length block.after) (length after)
                  (call_blocks total fuel block.after opaque' repairs') (omega (arith, less, le))
                  (call_blocks-IsEnded fuel block.after opaque' repairs'
                    (omega (arith, h, less, le))))
                (omega (arith, less, le)))
      ]
