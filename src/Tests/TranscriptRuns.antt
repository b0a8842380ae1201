-- ===== src/Tests/TranscriptRuns.antt =====
-- Runs of webui/src/utils/transcriptProtocol.ts on short answers.
use ga_hub.Prelude.{
  ℕ, ◌≡◌, refl, Bool, true, false, Option, none, some, List, [], ◌∷◌, ◌++◌, map, length, sort_by,
  decimal,
}
use ga_hub.Transcript.Match.{units_of, match_tool, match_compact, match_turn, match_edge}
use ga_hub.Transcript.Fence.{fence, fence_lines, balanced_call, balanced_from}
use ga_hub.Transcript.{
  NodeKind, text, tool, summary, turn, pending, TranscriptNode, scan_transcript, find_here,
  find_token, find_turn, find_meta, find_header, match_header, find_compact, find_code,
  find_pending, call_blocks, scan_loop,
}
use ga_hub.Transcript.Display.{
  transcript_record_markdown, protect_transcript, protect_ranges, restore, restore_from,
}
use ga_hub.Transcript.Display.Laws.{is_missing, lines_at, transcript_record_markdown-lines_at}
use ga_hub.Transcript.Tiling.{IsTiling, scan_transcript-IsTiling}

-- A turn, a call with its block, prose, and a tag at the end.
abbrev answer : List ℕ
answer =
    units_of "LLM Running (Turn 2) ..."
    ++ 10 ∷ units_of "🛠 Tool: `read` 📥 args:"
    ++ 10 ∷ units_of "````"
    ++ 10 ∷ units_of "{}"
    ++ 10 ∷ units_of "````"
    ++ 10 ∷ units_of "done <summary>x</summary><sum"

abbrev shape : TranscriptNode → NodeKind × (ℕ × ℕ) × Bool
shape node = (node.kind, (node.start, node.end), node.complete)

abbrev shapes : Option (List TranscriptNode) → List (NodeKind × (ℕ × ℕ) × Bool)
shapes none = []
shapes (some nodes) = map shape nodes

answer-shapes :
    shapes (scan_transcript answer)
    ≡ (turn, (0, 24), true)
      ∷ (text, (24, 25), true)
      ∷ (tool, (25, 63), true)
      ∷ (text, (63, 68), true)
      ∷ (summary, (68, 88), true)
      ∷ (pending, (88, 92), false)
      ∷ []
unfolding scan_transcript scan_loop find_here find_token find_turn find_meta find_header
    match_header find_compact find_code find_pending call_blocks match_tool match_compact match_turn
    match_edge fence fence_lines balanced_call balanced_from
answer-shapes = refl

scan_transcript-IsTiling_example :
    (nodes : List TranscriptNode) × (scan_transcript answer ≡ some nodes)
    × IsTiling answer 0 nodes (length answer)
scan_transcript-IsTiling_example = scan_transcript-IsTiling answer

abbrev glued_answer : List ℕ
glued_answer =
    units_of "🛠 Tool: `read`" ++ 10 ∷ units_of "````" ++ 10 ∷ units_of "{}````" ++ 10 ∷ []

transcript_record_markdown-lines_at_example :
    (nodes : List TranscriptNode) × (scan_transcript glued_answer ≡ some nodes)
    × (transcript_record_markdown glued_answer
        ≡ some (lines_at (is_missing glued_answer nodes) 0 glued_answer))
transcript_record_markdown-lines_at_example = transcript_record_markdown-lines_at glued_answer

-- The block's closing fence is on the line of its result; a break goes between them.
markdown_of_glued :
    transcript_record_markdown glued_answer
    ≡ some (
        units_of "🛠 Tool: `read`"
        ++ 10 ∷ units_of "````"
        ++ 10 ∷ units_of "{}"
        ++ 10 ∷ units_of "````"
        ++ 10 ∷ [])
unfolding transcript_record_markdown scan_transcript scan_loop find_here find_token find_turn
    find_meta find_header match_header find_compact find_code find_pending call_blocks match_tool
    match_compact match_turn match_edge fence fence_lines balanced_call balanced_from sort_by
markdown_of_glued = refl

-- Code blocks and a call's blocks come back from their placeholders.
restored : Option (List ℕ × List (List ℕ)) → Option (List ℕ)
restored none = none
restored (some p) = some (restore p.1 p.0)

restored-answer :
    restored (protect_transcript (answer ++ glued_answer)) ≡ some (answer ++ glued_answer)
unfolding restored protect_transcript protect_ranges restore restore_from decimal scan_transcript
    scan_loop find_here find_token find_turn find_meta find_header match_header find_compact
    find_code find_pending call_blocks match_tool match_compact match_turn match_edge fence
    fence_lines balanced_call balanced_from
restored-answer = refl

-- A code block alone.
abbrev code_block : List ℕ
code_block = units_of "~~~" ++ 10 ∷ units_of "x" ++ 10 ∷ units_of "~~~"
