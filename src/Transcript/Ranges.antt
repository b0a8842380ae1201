-- ===== src/Transcript/Ranges.antt =====
-- About the blocks that the calls of webui/src/utils/transcriptProtocol.ts keep as opaque ranges.
use ga_hub.Prelude.{
  ℕ, zero, suc, ◌-◌, ◌≤◌, ◌<◌, ◌≡◌, refl, sym, subst, Bool, false, ◌||◌, Option, none, some, List,
  [], ◌∷◌, ◌++◌, All, All-append, length, length-drop, drop, String, if_holds, blank, ltb,
  Bool-cases, Option-cases, inl, inr, arith, ◌⊎◌,
}
use ga_hub.Transcript.Match.{
  units_of, drop_while, Edge, match_edge, match_tool, match_compact, match_turn,
}
use ga_hub.Transcript.Fence.{offset, balanced_call}
use ga_hub.Transcript.Progress.{
  drop_while-le, IsShorter, match_compact-IsShorter, match_tool-IsShorter, match_edge-IsShorterEdge,
}
use ga_hub.Transcript.Calls.{IsShorterBlock, block_at-IsShorterBlock}
use ga_hub.Transcript.Places.{IsShorterFound, header_of-IsShorter, IsWithin, balanced_call-IsWithin}
use ga_hub.Transcript.Tiling.{IsScan, push-IsScan, Found-cases, find_here-IsShorterFound}
use ga_hub.Transcript.{
  NodeKind, TranscriptNode, Token, Found, nothing, found, out_of_fuel, or_found, turn_token,
  find_turn, closed_tag, tag_token, find_tag, find_meta, after_first, strip_any_case, header_of,
  match_header, Blocks, add_repair, is_first_ticks, last_blocks, block_at, call_blocks, call_of,
  header_token, find_header, compact_call, compact_token, find_compact, code_token, find_code,
  find_pending, find_token, summary, thinking, pending, bare, Scan, flush, push, is_line_start,
  is_adjacent, find_here, scan_loop, scan_transcript,
}

-- Ranges that follow each other between two offsets.
abbrev pub RangesFrom : ℕ → List (ℕ × ℕ) → ℕ → Type 0
RangesFrom from [] to = from ≤ to
RangesFrom from ((start, end) ∷ ranges) to =
    (from ≤ start) × (start ≤ end) × RangesFrom end ranges to

RangesFrom-snoc :
    (from to : ℕ) (ranges : List (ℕ × ℕ)) (start end : ℕ)
    → RangesFrom from ranges to
    → to ≤ start
    → start ≤ end
    → RangesFrom from (ranges ++ (start, end) ∷ []) end
RangesFrom-snoc from to [] start end r h k = (omega (arith, r, h), k, omega arith)
RangesFrom-snoc from to ((s, e) ∷ ranges) start end (a, b, r) h k =
    (a, b, RangesFrom-snoc e to ranges start end r h k)

RangesFrom-le :
    (from to later : ℕ) (ranges : List (ℕ × ℕ))
    → RangesFrom from ranges to
    → to ≤ later
    → RangesFrom from ranges later
RangesFrom-le from to later [] r h = omega (arith, r, h)
RangesFrom-le from to later ((s, e) ∷ ranges) (a, b, r) h =
    (a, b, RangesFrom-le e to later ranges r h)

module _ (total from : ℕ) where
  abbrev HasRanges : Option Blocks → Type 0
  HasRanges none = Unit
  HasRanges (some blocks) = RangesFrom from blocks.opaque (offset total blocks.after)

  last_blocks-HasRanges :
      (after : List ℕ) (opaque : List (ℕ × ℕ)) (repairs : List ℕ)
      → RangesFrom from opaque (offset total after)
      → HasRanges (some (last_blocks total after (drop_while blank after) opaque repairs))
  last_blocks-HasRanges after opaque repairs r =
      let next = drop_while blank after in
      let le = drop_while-le blank after in
      elim (Bool-cases (is_first_ticks next)) [
        | inl e ↦ rw e (
            RangesFrom-le from total (total - 0) (opaque ++ (offset total next, total) ∷ [])
              (RangesFrom-snoc from (offset total after) opaque (offset total next) total r
                (omega (arith, le)) (omega arith))
              (omega arith))
        | inr e ↦ rw e r
      ]

  call_blocks-HasRanges :
      (fuel : ℕ) (after : List ℕ) (opaque : List (ℕ × ℕ)) (repairs : List ℕ)
      → RangesFrom from opaque (offset total after)
      → HasRanges (call_blocks total fuel after opaque repairs)
  unfolding call_blocks
  call_blocks-HasRanges zero after opaque repairs r = tt
  call_blocks-HasRanges (suc fuel) after opaque repairs r =
      let next = drop_while blank after in
      elim (Option-cases (block_at total (match_edge next))) [
        | inl e ↦ rw (call_blocks, e) (last_blocks-HasRanges after opaque repairs r)
        | inr (block, e) ↦
            let less : length block.after < length next = subst (IsShorterBlock (length next)) e (
              block_at-IsShorterBlock total (length next) (match_edge next)
                (match_edge-IsShorterEdge next)) in
            let opaque' = opaque ++ (offset total next, offset total block.after) ∷ [] in
            let repairs' = add_repair block.repair repairs in
            let longer : RangesFrom from opaque' (offset total block.after) =
              RangesFrom-snoc from (offset total after) opaque (offset total next)
                (offset total block.after) r (omega (arith, drop_while-le blank after))
                (omega (arith, less)) in
            rw (call_blocks, e)
              (if_holds HasRanges block.complete
                (call_blocks total fuel block.after opaque' repairs')
                (some (record {
                  after = block.after;
                  complete = false;
                  opaque = opaque';
                  repairs = repairs';
                }))
                (call_blocks-HasRanges fuel block.after opaque' repairs' longer) longer)
      ]

  -- What was found keeps no range, or ranges that follow each other.
  abbrev IsRangedFound : Found → Type 0
  IsRangedFound (found t) = (t.opaque ≡ []) ⊎ RangesFrom from t.opaque (offset total t.after)
  IsRangedFound _ = Unit

  or_found-IsRangedFound :
      (f g : Found) → IsRangedFound f → IsRangedFound g → IsRangedFound (or_found f g)
  or_found-IsRangedFound nothing g h k = k
  or_found-IsRangedFound (found t) g h k = h
  or_found-IsRangedFound out_of_fuel g h k = tt

  call_of-IsRangedFound :
      (name : List ℕ) (header_end : ℕ) (o : Option Blocks)
      → HasRanges o
      → IsRangedFound (call_of name header_end o)
  call_of-IsRangedFound name header_end none h = tt
  call_of-IsRangedFound name header_end (some blocks) h = inr h

  turn_token-IsRangedFound : (o : Option (List ℕ × List ℕ)) → IsRangedFound (turn_token o)
  turn_token-IsRangedFound none = tt
  turn_token-IsRangedFound (some m) = inl refl

  closed_tag-IsRangedFound :
      (kind : NodeKind) (o : Option (List ℕ)) → IsRangedFound (closed_tag kind o)
  closed_tag-IsRangedFound kind none = inl refl
  closed_tag-IsRangedFound kind (some us) = inl refl

  tag_token-IsRangedFound :
      (kind : NodeKind) (closing : List ℕ) (o : Option (List ℕ))
      → IsRangedFound (tag_token kind closing o)
  tag_token-IsRangedFound kind closing none = tt
  tag_token-IsRangedFound kind closing (some rest) =
      closed_tag-IsRangedFound kind (after_first closing rest)

  find_tag-IsRangedFound :
      (kind : NodeKind) (name : String) (us : List ℕ) → IsRangedFound (find_tag kind name us)
  find_tag-IsRangedFound kind name us =
      tag_token-IsRangedFound kind (units_of "</" ++ units_of name ++ units_of ">")
        (strip_any_case (b'<' ∷ units_of name ++ units_of ">") us)

  find_meta-IsRangedFound : (us : List ℕ) → IsRangedFound (find_meta us)
  unfolding find_meta
  find_meta-IsRangedFound us =
      or_found-IsRangedFound (find_tag summary "summary" us) _
        (find_tag-IsRangedFound summary "summary" us)
        (or_found-IsRangedFound (find_tag thinking "thinking" us) _
          (find_tag-IsRangedFound thinking "thinking" us)
          (or_found-IsRangedFound (find_tag thinking "think" us) (find_tag thinking "analysis" us)
            (find_tag-IsRangedFound thinking "think" us)
            (find_tag-IsRangedFound thinking "analysis" us)))

  header_token-IsRangedFound :
      (o : Option (List ℕ × List ℕ)) (n : ℕ)
      → from ≡ total - n
      → IsShorter n o
      → IsRangedFound (header_token total o)
  header_token-IsRangedFound none n e h = tt
  header_token-IsRangedFound (some m) n e h =
      call_of-IsRangedFound m.0 (offset total m.1) _
        (call_blocks-HasRanges (suc (length m.1)) m.1 [] [] (omega (arith, e, h)))

  compact_call-IsRangedFound :
      (name after : List ℕ) (o : Option (List ℕ)) (n : ℕ)
      → from ≡ total - n
      → length after < n
      → IsWithin (length after) o
      → IsRangedFound (compact_call total name after o)
  compact_call-IsRangedFound name after none n e h w = inl refl
  compact_call-IsRangedFound name after (some rest) n e h w =
      call_of-IsRangedFound name (offset total after) _
        (call_blocks-HasRanges (suc (length rest)) rest [] [] (omega (arith, e, h, w)))

  compact_token-IsRangedFound :
      (o : Option (List ℕ × List ℕ)) (n : ℕ)
      → from ≡ total - n
      → IsShorter n o
      → IsRangedFound (compact_token total o)
  compact_token-IsRangedFound none n e h = tt
  compact_token-IsRangedFound (some m) n e h =
      compact_call-IsRangedFound m.0 m.1 (balanced_call m.1) n e h (balanced_call-IsWithin m.1)

  code_token-IsRangedFound : (o : Option Edge) → IsRangedFound (code_token total o)
  code_token-IsRangedFound none = tt
  code_token-IsRangedFound (some edge) = inl refl

  find_token-IsRangedFound :
      (line_start adjacent_tool : Bool) (us : List ℕ)
      → from ≡ total - length us
      → IsRangedFound (find_token total line_start adjacent_tool us)
  unfolding find_token find_turn find_header match_header find_compact find_code find_pending
  find_token-IsRangedFound line_start adjacent_tool us e =
      or_found-IsRangedFound (find_turn us) _ (turn_token-IsRangedFound (match_turn us)) (
        or_found-IsRangedFound (find_meta us) _ (find_meta-IsRangedFound us) (
          or_found-IsRangedFound (find_header total us) _
            (header_token-IsRangedFound (header_of (match_tool us)) (length us) e
              (header_of-IsShorter (length us) (match_tool us) (match_tool-IsShorter us)))
            (or_found-IsRangedFound (find_compact total (line_start || adjacent_tool) us) _
              (if_holds IsRangedFound (line_start || adjacent_tool)
                (compact_token total (match_compact us)) nothing
                (compact_token-IsRangedFound (match_compact us) (length us) e
                  (match_compact-IsShorter us))
                tt)
              (or_found-IsRangedFound (find_code total line_start us) (find_pending us)
                (if_holds IsRangedFound line_start (code_token total (match_edge us)) nothing
                  (code_token-IsRangedFound (match_edge us)) tt)
                (if_holds IsRangedFound _ (found (bare pending [] false)) nothing (inl refl) tt)))))

-- The ranges of a node follow each other within it.
abbrev pub IsRanged : TranscriptNode → Type 0
IsRanged node = RangesFrom node.start node.opaque node.end

module _ (source : List ℕ) where
  flush-IsRanged :
      (s : Scan) → s.text_start ≤ s.pos → All IsRanged s.nodes → All IsRanged (flush source s)
  flush-IsRanged s h a = elim (Bool-cases (ltb s.text_start s.pos)) [
    | inl e ↦ rw e (All-append IsRanged s.nodes _ a (h, tt))
    | inr e ↦ rw e a
  ]

  opaque-RangesFrom :
      (from to : ℕ) (opaque : List (ℕ × ℕ))
      → from ≤ to
      → (opaque ≡ []) ⊎ RangesFrom from opaque to
      → RangesFrom from opaque to
  opaque-RangesFrom from to opaque h (inl e) = subst (λ o. RangesFrom from o to) (sym e) h
  opaque-RangesFrom from to opaque h (inr r) = r

  push-IsRanged :
      (t : Token) (s : Scan)
      → IsScan source s
      → length t.after < length source - s.pos
      → IsRangedFound (length source) s.pos (found t)
      → All IsRanged s.nodes
      → All IsRanged (push source t s).nodes
  push-IsRanged t s (_, h, k) took r a =
      All-append IsRanged (flush source s) _ (flush-IsRanged s h a) (
        opaque-RangesFrom s.pos (offset (length source) t.after) t.opaque (omega (arith, took)) r,
        tt,
      )

  find_here-IsRangedFound :
      (s : Scan) → s.pos ≤ length source → IsRangedFound (length source) s.pos (find_here source s)
  unfolding find_here
  find_here-IsRangedFound s h =
      find_token-IsRangedFound (length source) s.pos (is_line_start source s.pos)
        (is_adjacent source s.pos s.nodes) (drop s.pos source)
        (omega (arith, h, length-drop s.pos source))

  abbrev AllRanged : Option (List TranscriptNode) → Type 0
  AllRanged none = Unit
  AllRanged (some nodes) = All IsRanged nodes

  scan_loop-AllRanged :
      (fuel : ℕ) (s : Scan)
      → IsScan source s
      → All IsRanged s.nodes
      → AllRanged (scan_loop source fuel s)
  unfolding scan_loop
  scan_loop-AllRanged zero s i a =
      if_holds AllRanged (ltb s.pos (length source)) none (some (flush source s)) tt
        (flush-IsRanged s i.1 a)
  scan_loop-AllRanged (suc fuel) s i a = elim (Bool-cases (ltb s.pos (length source))) [
    | inr e ↦ rw e (flush-IsRanged s i.1 a)
    | inl e ↦
        let less : s.pos < length source = ground (arith, e) in
        let shorter = find_here-IsShorterFound source s less in
        let ranged = find_here-IsRangedFound s (omega (arith, less)) in
        elim (Found-cases source (find_here source s)) [
          | inl k ↦
              rw (e, k)
                (scan_loop-AllRanged fuel (record s { pos = suc s.pos })
                  (i.0, omega (arith, i), omega (arith, less)) a)
          | inr (inl (t, k)) ↦
              let took : length t.after < length source - s.pos =
                subst (IsShorterFound (length source - s.pos)) k shorter in
              rw (e, k)
                (scan_loop-AllRanged fuel (push source t s) (push-IsScan source t s i took) (
                  push-IsRanged t s i took (subst (IsRangedFound (length source) s.pos) k ranged)
                    a))
          | inr (inr k) ↦ absurd (subst (IsShorterFound (length source - s.pos)) k shorter)
        ]
  ]

  pub scan_transcript-AllRanged :
      (nodes : List TranscriptNode) → scan_transcript source ≡ some nodes → All IsRanged nodes
  unfolding scan_transcript
  scan_transcript-AllRanged nodes e = subst AllRanged e (
      scan_loop-AllRanged (length source) (record { pos = 0; text_start = 0; nodes = [] })
        (refl, omega arith, omega arith) tt)
