-- ===== src/Transcript/Display.antt =====
-- What webui/src/utils/transcriptProtocol.ts makes of the nodes: `protectTranscript`,
-- `transcriptRecordMarkdown`, and the offsets of turns that webui/src/utils/replySegments.ts asks for.
pub mod Laws
pub mod Numbers
pub mod Restore
pub mod Protect
use ga_hub.Prelude.{
  ℕ, zero, suc, ◌-◌, String, Bool, true, false, not, ◌&&◌, Option, none, some, List, [], ◌∷◌, ◌++◌,
  map, filter, any, take, drop, length, get_elem?, sort_by, if◌then◌else◌, eqb, or_default, decimal,
}
use ga_hub.Reply.{TurnScanner}
use ga_hub.Transcript.Match.{units_of, unit, exactly, is_digit, group, Piece, match_pieces}
use ga_hub.Transcript.{
  NodeKind, text, code, tool, summary, thinking, turn, pending, is_tool, TranscriptNode,
  number_from, slice, is_line_start, scan_transcript,
}

abbrev pub node_ranges : NodeKind → TranscriptNode → List (ℕ × ℕ)
node_ranges code node = (node.start, node.end) ∷ []
node_ranges tool node = node.opaque
node_ranges _ node = []

abbrev pub all_ranges : List TranscriptNode → List (ℕ × ℕ)
all_ranges [] = []
all_ranges (node ∷ nodes) = node_ranges node.kind node ++ all_ranges nodes

abbrev pub placeholder : ℕ → List ℕ
placeholder n = 0 ∷ units_of "GA_TOOL_FENCE_" ++ units_of (decimal n) ++ 0 ∷ []

-- The loop of `protectTranscript` from a position on, with the values so far: `safe` and `values`.
unfoldable pub protect_ranges : List ℕ → ℕ → List (List ℕ) → List (ℕ × ℕ) → List ℕ × List (List ℕ)
protect_ranges source pos values [] = (drop pos source, values)
protect_ranges source pos values ((start, end) ∷ ranges) =
    let rest = protect_ranges source end (values ++ slice source start end ∷ []) ranges in
    (slice source pos start ++ (placeholder (length values) ++ rest.0), rest.1)

abbrev pub protected : List ℕ → Option (List TranscriptNode) → Option (List ℕ × List (List ℕ))
protected source none = none
protected source (some nodes) = some (protect_ranges source 0 [] (all_ranges nodes))

unfoldable pub protect_transcript : List ℕ → Option (List ℕ × List (List ℕ))
unfolding protect_ranges
protect_transcript source = protected source (scan_transcript source)

abbrev pub match_placeholder : List ℕ → Option (List ℕ × List ℕ)
match_placeholder us =
    match_pieces (unit 0 ∷ exactly "GA_TOOL_FENCE_" ++ group 1 is_digit ∷ unit 0 ∷ []) [] us

-- `restore`; `skipped` units belong to a placeholder that was replaced.
unfoldable pub restore_from : List (List ℕ) → (skipped : ℕ) → List ℕ → List ℕ
restore_from values skipped [] = []
restore_from values (suc skipped) (u ∷ us) = restore_from values skipped us
restore_from values zero (u ∷ us) = elim (match_placeholder (u ∷ us)) [
  | none ↦ u ∷ restore_from values 0 us
  | some m ↦
      or_default (get_elem? values (number_from 0 m.0)) []
      ++ restore_from values (length us - length m.1) us
]

unfoldable pub restore : List (List ℕ) → List ℕ → List ℕ
unfolding restore_from
restore values value = restore_from values 0 value

-- A Set of offsets, in the order of their addition.
abbrev add_offset : ℕ → List ℕ → List ℕ
add_offset at offsets = if any (λ o. eqb o at) offsets then offsets else offsets ++ at ∷ []

abbrev add_offsets : List ℕ → List ℕ → List ℕ
add_offsets [] offsets = offsets
add_offsets (at ∷ ats) offsets = add_offsets ats (add_offset at offsets)

-- The offsets where a line break is missing: repairs, and calls that do not begin a line.
abbrev pub inserts : List ℕ → List TranscriptNode → List ℕ → List ℕ
inserts source [] offsets = offsets
inserts source (node ∷ nodes) offsets =
    let repaired = add_offsets node.repairs offsets in
    inserts source nodes (
      if is_tool node.kind && not (is_line_start source node.start)
      then add_offset node.start repaired
      else repaired)

-- Line breaks at ascending offsets, the last one first.
abbrev pub insert_breaks : List ℕ → List ℕ → List ℕ
insert_breaks [] us = us
insert_breaks (at ∷ ats) us = let rest = insert_breaks ats us in take at rest ++ 10 ∷ drop at rest

abbrev pub with_breaks : List ℕ → Option (List TranscriptNode) → Option (List ℕ)
with_breaks source none = none
with_breaks source (some nodes) =
    some (insert_breaks (sort_by (λ at. at) (inserts source nodes [])) source)

unfoldable pub transcript_record_markdown : List ℕ → Option (List ℕ)
transcript_record_markdown source = with_breaks source (scan_transcript source)

abbrev is_turn : TranscriptNode → Bool
is_turn node = elim node.kind [ turn ↦ true | _ ↦ false ]

abbrev starts : Option (List TranscriptNode) → List ℕ
starts none = []
starts (some nodes) = map (λ node. node.start) (filter is_turn nodes)

-- The scanner that the model of the segments takes, as this one.
abbrev pub transcript_turns : TurnScanner
transcript_turns = record { turn_starts = λ content. starts (scan_transcript (units_of content)) }
