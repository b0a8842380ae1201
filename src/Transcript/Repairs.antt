-- ===== src/Transcript/Repairs.antt =====
-- About the offsets where the calls of webui/src/utils/transcriptProtocol.ts miss a line break.
use ga_hub.Prelude.{
  ℕ, zero, suc, ◌-◌, ◌≤◌, ◌<◌, ◌≡◌, refl, subst, Bool, false, ◌||◌, Option, none, some, List, [],
  ◌∷◌, ◌++◌, All, All-append, length, length-drop, drop, String, if_holds, blank, ltb, Bool-cases,
  Option-cases, inl, inr, arith,
}
use ga_hub.Transcript.Match.{
  units_of, drop_while, Edge, match_edge, match_tool, match_compact, match_turn,
}
use ga_hub.Transcript.Fence.{offset, balanced_call}
use ga_hub.Transcript.Progress.{
  drop_while-le, IsShorter, match_compact-IsShorter, match_tool-IsShorter, match_edge-IsShorterEdge,
}
use ga_hub.Transcript.Calls.{IsShorterBlock, block_at-IsShorterBlock}
use ga_hub.Transcript.Places.{IsShorterFound, header_of-IsShorter, IsWithin, balanced_call-IsWithin}
use ga_hub.Transcript.Tiling.{IsScan, push-IsScan, Found-cases, find_here-IsShorterFound}
use ga_hub.Transcript.{
  NodeKind, TranscriptNode, Token, Found, nothing, found, out_of_fuel, or_found, turn_token,
  find_turn, closed_tag, tag_token, find_tag, find_meta, after_first, strip_any_case, header_of,
  match_header, Blocks, add_repair, is_first_ticks, last_blocks, block_at, call_blocks, call_of,
  header_token, find_header, compact_call, compact_token, find_compact, code_token, find_code,
  find_pending, find_token, summary, thinking, pending, bare, Scan, flush, push, is_line_start,
  is_adjacent, find_here, scan_loop, scan_transcript,
}
use ga_hub.Transcript.Glued.{IsTo, IsToBlock, block_at-IsToBlock}

module _ (total : ℕ) where
  abbrev AllTo : List ℕ → Type 0
  AllTo ats = All (λ at. at ≤ total) ats

  add_repair-AllTo :
      (repair : Option ℕ) (repairs : List ℕ)
      → IsTo total repair
      → AllTo repairs
      → AllTo (add_repair repair repairs)
  add_repair-AllTo none repairs h a = a
  add_repair-AllTo (some at) repairs h a = All-append (λ r. r ≤ total) repairs (at ∷ []) a (h, tt)

  abbrev HasRepairs : Option Blocks → Type 0
  HasRepairs none = Unit
  HasRepairs (some blocks) = AllTo blocks.repairs

  last_blocks-HasRepairs :
      (after next : List ℕ) (opaque : List (ℕ × ℕ)) (repairs : List ℕ)
      → AllTo repairs
      → HasRepairs (some (last_blocks total after next opaque repairs))
  last_blocks-HasRepairs after next opaque repairs a = elim (Bool-cases (is_first_ticks next)) [
    | inl e ↦ rw e a
    | inr e ↦ rw e a
  ]

  call_blocks-HasRepairs :
      (fuel : ℕ) (after : List ℕ) (opaque : List (ℕ × ℕ)) (repairs : List ℕ)
      → length after ≤ total
      → AllTo repairs
      → HasRepairs (call_blocks total fuel after opaque repairs)
  unfolding call_blocks
  call_blocks-HasRepairs zero after opaque repairs h a = tt
  call_blocks-HasRepairs (suc fuel) after opaque repairs h a =
      let next = drop_while blank after in
      let le = drop_while-le blank after in
      let edge = match_edge-IsShorterEdge next in
      elim (Option-cases (block_at total (match_edge next))) [
        | inl e ↦ rw (call_blocks, e) (last_blocks-HasRepairs after next opaque repairs a)
        | inr (block, e) ↦
            let less : length block.after < length next =
              subst (IsShorterBlock (length next)) e
                (block_at-IsShorterBlock total (length next) (match_edge next) edge) in
            let within : IsToBlock total (some block) = subst (IsToBlock total) e (
              block_at-IsToBlock total (length next) (match_edge next) edge
                (omega (arith, le, h))) in
            let opaque' = opaque ++ (offset total next, offset total block.after) ∷ [] in
            let repairs' = add_repair block.repair repairs in
            let more : AllTo repairs' = add_repair-AllTo block.repair repairs within a in
            rw (call_blocks, e)
              (if_holds HasRepairs block.complete
                (call_blocks total fuel block.after opaque' repairs')
                (some (record {
                  after = block.after;
                  complete = false;
                  opaque = opaque';
                  repairs = repairs';
                }))
                (call_blocks-HasRepairs fuel block.after opaque' repairs'
                  (omega (arith, less, le, h)) more)
                more)
      ]

  abbrev IsRepairableFound : Found → Type 0
  IsRepairableFound (found t) = AllTo t.repairs
  IsRepairableFound _ = Unit

  or_found-IsRepairableFound :
      (f g : Found) → IsRepairableFound f → IsRepairableFound g → IsRepairableFound (or_found f g)
  or_found-IsRepairableFound nothing g h k = k
  or_found-IsRepairableFound (found t) g h k = h
  or_found-IsRepairableFound out_of_fuel g h k = tt

  call_of-IsRepairableFound :
      (name : List ℕ) (header_end : ℕ) (o : Option Blocks)
      → HasRepairs o
      → IsRepairableFound (call_of name header_end o)
  call_of-IsRepairableFound name header_end none h = tt
  call_of-IsRepairableFound name header_end (some blocks) h = h

  turn_token-IsRepairableFound : (o : Option (List ℕ × List ℕ)) → IsRepairableFound (turn_token o)
  turn_token-IsRepairableFound none = tt
  turn_token-IsRepairableFound (some m) = tt

  closed_tag-IsRepairableFound :
      (kind : NodeKind) (o : Option (List ℕ)) → IsRepairableFound (closed_tag kind o)
  closed_tag-IsRepairableFound kind none = tt
  closed_tag-IsRepairableFound kind (some us) = tt

  tag_token-IsRepairableFound :
      (kind : NodeKind) (closing : List ℕ) (o : Option (List ℕ))
      → IsRepairableFound (tag_token kind closing o)
  tag_token-IsRepairableFound kind closing none = tt
  tag_token-IsRepairableFound kind closing (some rest) =
      closed_tag-IsRepairableFound kind (after_first closing rest)

  find_tag-IsRepairableFound :
      (kind : NodeKind) (name : String) (us : List ℕ) → IsRepairableFound (find_tag kind name us)
  find_tag-IsRepairableFound kind name us =
      tag_token-IsRepairableFound kind (units_of "</" ++ units_of name ++ units_of ">")
        (strip_any_case (b'<' ∷ units_of name ++ units_of ">") us)

  find_meta-IsRepairableFound : (us : List ℕ) → IsRepairableFound (find_meta us)
  unfolding find_meta
  find_meta-IsRepairableFound us =
      or_found-IsRepairableFound (find_tag summary "summary" us) _
        (find_tag-IsRepairableFound summary "summary" us)
        (or_found-IsRepairableFound (find_tag thinking "thinking" us) _
          (find_tag-IsRepairableFound thinking "thinking" us)
          (or_found-IsRepairableFound (find_tag thinking "think" us)
            (find_tag thinking "analysis" us) (find_tag-IsRepairableFound thinking "think" us)
            (find_tag-IsRepairableFound thinking "analysis" us)))

  header_token-IsRepairableFound :
      (o : Option (List ℕ × List ℕ)) (n : ℕ)
      → n ≤ total
      → IsShorter n o
      → IsRepairableFound (header_token total o)
  header_token-IsRepairableFound none n e h = tt
  header_token-IsRepairableFound (some m) n e h =
      call_of-IsRepairableFound m.0 (offset total m.1) _
        (call_blocks-HasRepairs (suc (length m.1)) m.1 [] [] (omega (arith, e, h)) tt)

  compact_call-IsRepairableFound :
      (name after : List ℕ) (o : Option (List ℕ)) (n : ℕ)
      → n ≤ total
      → length after < n
      → IsWithin (length after) o
      → IsRepairableFound (compact_call total name after o)
  compact_call-IsRepairableFound name after none n e h w = tt
  compact_call-IsRepairableFound name after (some rest) n e h w =
      call_of-IsRepairableFound name (offset total after) _
        (call_blocks-HasRepairs (suc (length rest)) rest [] [] (omega (arith, e, h, w)) tt)

  compact_token-IsRepairableFound :
      (o : Option (List ℕ × List ℕ)) (n : ℕ)
      → n ≤ total
      → IsShorter n o
      → IsRepairableFound (compact_token total o)
  compact_token-IsRepairableFound none n e h = tt
  compact_token-IsRepairableFound (some m) n e h =
      compact_call-IsRepairableFound m.0 m.1 (balanced_call m.1) n e h (balanced_call-IsWithin m.1)

  code_token-IsRepairableFound : (o : Option Edge) → IsRepairableFound (code_token total o)
  code_token-IsRepairableFound none = tt
  code_token-IsRepairableFound (some edge) = tt

  find_token-IsRepairableFound :
      (line_start adjacent_tool : Bool) (us : List ℕ)
      → length us ≤ total
      → IsRepairableFound (find_token total line_start adjacent_tool us)
  unfolding find_token find_turn find_header match_header find_compact find_code find_pending
  find_token-IsRepairableFound line_start adjacent_tool us e =
      or_found-IsRepairableFound (find_turn us) _ (turn_token-IsRepairableFound (match_turn us)) (
        or_found-IsRepairableFound (find_meta us) _ (find_meta-IsRepairableFound us) (
          or_found-IsRepairableFound (find_header total us) _
            (header_token-IsRepairableFound (header_of (match_tool us)) (length us) e
              (header_of-IsShorter (length us) (match_tool us) (match_tool-IsShorter us)))
            (or_found-IsRepairableFound (find_compact total (line_start || adjacent_tool) us) _
              (if_holds IsRepairableFound (line_start || adjacent_tool)
                (compact_token total (match_compact us)) nothing
                (compact_token-IsRepairableFound (match_compact us) (length us) e
                  (match_compact-IsShorter us))
                tt)
              (or_found-IsRepairableFound (find_code total line_start us) (find_pending us)
                (if_holds IsRepairableFound line_start (code_token total (match_edge us)) nothing
                  (code_token-IsRepairableFound (match_edge us)) tt)
                (if_holds IsRepairableFound _ (found (bare pending [] false)) nothing (tt) tt)))))

-- The repairs of a node lie within a source of so many units.
abbrev pub IsRepairable : ℕ → TranscriptNode → Type 0
IsRepairable n node = All (λ at. at ≤ n) node.repairs

module _ (source : List ℕ) where
  abbrev IsRepairableHere : TranscriptNode → Type 0
  IsRepairableHere node = IsRepairable (length source) node

  flush-IsRepairable :
      (s : Scan) → All IsRepairableHere s.nodes → All IsRepairableHere (flush source s)
  flush-IsRepairable s a = elim (Bool-cases (ltb s.text_start s.pos)) [
    | inl e ↦ rw e (All-append IsRepairableHere s.nodes _ a (tt, tt))
    | inr e ↦ rw e a
  ]

  push-IsRepairable :
      (t : Token) (s : Scan)
      → AllTo (length source) t.repairs
      → All IsRepairableHere s.nodes
      → All IsRepairableHere (push source t s).nodes
  push-IsRepairable t s r a =
      All-append IsRepairableHere (flush source s) _ (flush-IsRepairable s a) (r, tt)

  find_here-IsRepairableFound :
      (s : Scan) → s.pos ≤ length source → IsRepairableFound (length source) (find_here source s)
  unfolding find_here
  find_here-IsRepairableFound s h =
      find_token-IsRepairableFound (length source) (is_line_start source s.pos)
        (is_adjacent source s.pos s.nodes) (drop s.pos source)
        (omega (arith, h, length-drop s.pos source))

  abbrev AllRepairable : Option (List TranscriptNode) → Type 0
  AllRepairable none = Unit
  AllRepairable (some nodes) = All IsRepairableHere nodes

  scan_loop-AllRepairable :
      (fuel : ℕ) (s : Scan)
      → IsScan source s
      → All IsRepairableHere s.nodes
      → AllRepairable (scan_loop source fuel s)
  unfolding scan_loop
  scan_loop-AllRepairable zero s i a =
      if_holds AllRepairable (ltb s.pos (length source)) none (some (flush source s)) tt
        (flush-IsRepairable s a)
  scan_loop-AllRepairable (suc fuel) s i a = elim (Bool-cases (ltb s.pos (length source))) [
    | inr e ↦ rw e (flush-IsRepairable s a)
    | inl e ↦
        let less : s.pos < length source = ground (arith, e) in
        let shorter = find_here-IsShorterFound source s less in
        let ranged = find_here-IsRepairableFound s (omega (arith, less)) in
        elim (Found-cases source (find_here source s)) [
          | inl k ↦
              rw (e, k)
                (scan_loop-AllRepairable fuel (record s { pos = suc s.pos })
                  (i.0, omega (arith, i), omega (arith, less)) a)
          | inr (inl (t, k)) ↦
              let took : length t.after < length source - s.pos =
                subst (IsShorterFound (length source - s.pos)) k shorter in
              rw (e, k)
                (scan_loop-AllRepairable fuel (push source t s) (push-IsScan source t s i took)
                  (push-IsRepairable t s (subst (IsRepairableFound (length source)) k ranged) a))
          | inr (inr k) ↦ absurd (subst (IsShorterFound (length source - s.pos)) k shorter)
        ]
  ]

  pub scan_transcript-AllRepairable :
      (nodes : List TranscriptNode)
      → scan_transcript source ≡ some nodes
      → All IsRepairableHere nodes
  unfolding scan_transcript
  scan_transcript-AllRepairable nodes e = subst AllRepairable e (
      scan_loop-AllRepairable (length source) (record { pos = 0; text_start = 0; nodes = [] })
        (refl, omega arith, omega arith) tt)
