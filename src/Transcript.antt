-- ===== src/Transcript.antt =====
-- webui/src/utils/transcriptProtocol.ts: the scanner that divides an answer into text, code, tool calls,
-- summaries, thinking and turns. A source is the list of its UTF-16 units.
pub mod Match
mod Find
pub mod Fence
pub mod Progress
pub mod Calls
pub mod Places
pub mod Tiling
pub mod Ranges
pub mod Glued
pub mod Repairs
pub mod Display
unfoldable pub use Find.*
use ga_hub.Prelude.{
  ℕ, zero, suc, ◌+◌, ◌-◌, ◌*◌, String, Bool, true, false, not, ◌&&◌, ◌||◌, Option, none, some, List,
  [], ◌∷◌, ◌++◌, length, drop, take, any, if◌then◌else◌, ltb, leb, eqb, is_some, or_else, blank,
  get_elem?,
}
use ga_hub.Transcript.Match.{
  units_of, take_while, drop_while, is_empty, is_prefix, unit, exactly, fold, hammer, is_word,
  Piece, star, match_pieces, match_tool, match_compact, match_turn, Edge, match_edge,
}
use ga_hub.Transcript.Fence.{offset, balanced_call, Block, fence}

-- The state of the loop.
pub record Scan : Type 0 where
  pub pos : ℕ
  pub text_start : ℕ
  pub nodes : List TranscriptNode

module _ (source : List ℕ) where
  abbrev pub slice : ℕ → ℕ → List ℕ
  slice start end = take (end - start) (drop start source)

  -- `flush`, for the nodes.
  abbrev pub flush : Scan → List TranscriptNode
  flush s =
      if ltb s.text_start s.pos
      then s.nodes
        ++ record {
          kind = text;
          start = s.text_start;
          end = s.pos;
          raw = slice s.text_start s.pos;
          name = none;
          header_end = none;
          turn_number = none;
          complete = true;
          opaque = [];
          repairs = [];
        }
          ∷ []
      else s.nodes

  -- `push`, after `flush`, and the moves after it.
  abbrev pub push : Token → Scan → Scan
  push t s =
      let end = offset (length source) t.after in
      record {
        pos = end;
        text_start = end;
        nodes =
            flush s
            ++ record {
              kind = t.kind;
              start = s.pos;
              end = end;
              raw = slice s.pos end;
              name = t.name;
              header_end = t.header_end;
              turn_number = t.turn_number;
              complete = t.complete;
              opaque = t.opaque;
              repairs = t.repairs;
            }
              ∷ [];
      }

  abbrev is_newline : Option ℕ → Bool
  is_newline none = false
  is_newline (some u) = eqb u 10

  abbrev pub is_line_start : ℕ → Bool
  is_line_start zero = true
  is_line_start (suc pos) = is_newline (get_elem? source pos)

  -- `nodes.at(-1)` is a call that ends at `pos`.
  abbrev pub is_adjacent : ℕ → List TranscriptNode → Bool
  is_adjacent pos [] = false
  is_adjacent pos (node ∷ []) = is_tool node.kind && eqb node.end pos
  is_adjacent pos (node ∷ next ∷ nodes) = is_adjacent pos (next ∷ nodes)

  -- The token at the place of the loop.
  unfoldable pub find_here : Scan → Found
  unfolding find_token
  find_here s =
      find_token (length source) (is_line_start s.pos) (is_adjacent s.pos s.nodes)
        (drop s.pos source)

  -- The loop, `none` if the fuel runs out.
  unfoldable pub scan_loop : (fuel : ℕ) → Scan → Option (List TranscriptNode)
  unfolding find_here
  scan_loop zero s = if ltb s.pos (length source) then none else some (flush s)
  scan_loop (suc fuel) s =
      if ltb s.pos (length source)
      then elim (find_here s) [
        | nothing ↦ scan_loop fuel (record s { pos = suc s.pos })
        | found token ↦ scan_loop fuel (push token s)
        | out_of_fuel ↦ none
      ]
      else some (flush s)

  -- `scanTranscript`: a round of the loop takes at least one unit.
  unfoldable pub scan_transcript : Option (List TranscriptNode)
  unfolding scan_loop
  scan_transcript = scan_loop (length source) (record { pos = 0; text_start = 0; nodes = [] })
