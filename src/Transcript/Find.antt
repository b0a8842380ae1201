-- ===== src/Transcript/Find.antt =====
-- What the loop of `scanTranscript` of webui/src/utils/transcriptProtocol.ts finds at a place: a turn, a
-- tag, a call, a code block or a part of one of these at the source's end.
use ga_hub.Prelude.{
  ℕ, zero, suc, ◌+◌, ◌-◌, ◌*◌, String, Bool, true, false, not, ◌&&◌, ◌||◌, Option, none, some, List,
  [], ◌∷◌, ◌++◌, length, any, if◌then◌else◌, ltb, leb, eqb, is_some, or_else, blank,
}
use ga_hub.Transcript.Match.{
  units_of, drop_while, is_empty, is_prefix, exactly, fold, hammer, is_word, star, match_pieces,
  match_tool, match_compact, match_turn, Edge, match_edge,
}
use ga_hub.Transcript.Fence.{offset, balanced_call, Block, fence}

pub data NodeKind : Type 0 where
  text code tool summary thinking turn pending : NodeKind

abbrev pub is_tool : NodeKind → Bool
is_tool tool = true
is_tool _ = false

-- Optional lists that are absent are empty.
pub record TranscriptNode : Type 0 where
  pub kind : NodeKind
  pub start : ℕ
  pub end : ℕ
  pub raw : List ℕ
  pub name : Option (List ℕ)
  pub header_end : Option ℕ
  pub turn_number : Option ℕ
  pub complete : Bool
  pub opaque : List (ℕ × ℕ)
  pub repairs : List ℕ

-- What the scanner finds at a place; `after` is what is left after it.
pub record Token : Type 0 where
  pub kind : NodeKind
  pub after : List ℕ
  pub name : Option (List ℕ)
  pub header_end : Option ℕ
  pub turn_number : Option ℕ
  pub complete : Bool
  pub opaque : List (ℕ × ℕ)
  pub repairs : List ℕ

abbrev pub bare : NodeKind → List ℕ → Bool → Token
bare kind after complete = record {
  kind = kind;
  after = after;
  name = none;
  header_end = none;
  turn_number = none;
  complete = complete;
  opaque = [];
  repairs = [];
}

-- `out_of_fuel` stands for a loop of a call's blocks that does not end.
pub data Found : Type 0 where
  nothing : Found
  found : (token : Token) → Found
  out_of_fuel : Found

abbrev pub or_found : Found → Found → Found
or_found nothing other = other
or_found (found t) other = found t
or_found out_of_fuel other = out_of_fuel

abbrev pub number_from : ℕ → List ℕ → ℕ
number_from n [] = n
number_from n (u ∷ us) = number_from (n * 10 + (u - 48)) us

abbrev pub turn_token : Option (List ℕ × List ℕ) → Found
turn_token none = nothing
turn_token (some m) = found (record (bare turn m.1 true) { turn_number = some (number_from 0 m.0) })

unfoldable pub find_turn : List ℕ → Found
find_turn us = turn_token (match_turn us)

-- What is left after the first place that has a text in small letters, with the flag `i`.
abbrev pub strip_any_case : List ℕ → List ℕ → Option (List ℕ)
strip_any_case [] us = some us
strip_any_case (v ∷ vs) [] = none
strip_any_case (v ∷ vs) (u ∷ us) =
    let rest = strip_any_case vs us in if eqb (fold u) v then rest else none

abbrev pub after_first : List ℕ → List ℕ → Option (List ℕ)
after_first vs [] = strip_any_case vs []
after_first vs (u ∷ us) = or_else (strip_any_case vs (u ∷ us)) (after_first vs us)

-- A tag that was opened, and its end.
abbrev pub closed_tag : NodeKind → Option (List ℕ) → Found
closed_tag kind none = found (bare kind [] false)
closed_tag kind (some after) = found (bare kind after true)

abbrev pub tag_token : NodeKind → List ℕ → Option (List ℕ) → Found
tag_token kind closing none = nothing
tag_token kind closing (some rest) = closed_tag kind (after_first closing rest)

abbrev pub find_tag : NodeKind → String → List ℕ → Found
find_tag kind name us =
    tag_token kind (units_of "</" ++ units_of name ++ units_of ">")
      (strip_any_case (b'<' ∷ units_of name ++ units_of ">") us)

unfoldable pub find_meta : List ℕ → Found
find_meta us = or_found (find_tag summary "summary" us) (
    or_found (find_tag thinking "thinking" us)
      (or_found (find_tag thinking "think" us) (find_tag thinking "analysis" us)))

-- Whether what follows the whole header may be the call's first block.
abbrev pub may_follow : List ℕ → Bool
may_follow suffix =
    is_empty suffix
    || is_prefix (units_of "`") suffix
    || is_some (match_pieces (exactly "📥" ++ star blank ∷ exactly "args:") [] suffix)

-- `header`: the name and what is left after it.
abbrev pub checked_header : List ℕ → List ℕ → Option (List ℕ × List ℕ)
checked_header name after =
    let suffix = drop_while blank after in
    if not (is_empty suffix) && is_prefix suffix (units_of "📥 args:")
    then some (name, [])
    else if may_follow suffix
    then some (name, after)
    else none

abbrev pub header_of : Option (List ℕ × List ℕ) → Option (List ℕ × List ℕ)
header_of none = none
header_of (some m) = checked_header m.0 m.1

unfoldable pub match_header : List ℕ → Option (List ℕ × List ℕ)
match_header us = header_of (match_tool us)

-- The blocks after a call.
pub record Blocks : Type 0 where
  pub after : List ℕ
  pub complete : Bool
  pub opaque : List (ℕ × ℕ)
  pub repairs : List ℕ

abbrev pub add_repair : Option ℕ → List ℕ → List ℕ
add_repair none repairs = repairs
add_repair (some at) repairs = repairs ++ at ∷ []

-- `/^`{1,3}$/`.
abbrev pub is_first_ticks : List ℕ → Bool
is_first_ticks us = ltb 0 (length us) && leb (length us) 3 && not (any (λ u. not (eqb u b'`')) us)

-- The end of the loop, where no block follows.
abbrev pub last_blocks : ℕ → List ℕ → List ℕ → List (ℕ × ℕ) → List ℕ → Blocks
last_blocks total after next opaque repairs =
    if is_first_ticks next
    then record {
      after = [];
      complete = false;
      opaque = opaque ++ (offset total next, total) ∷ [];
      repairs = repairs;
    }
    else record { after = after; complete = true; opaque = opaque; repairs = repairs }

-- The block that EDGE matches at `next`, if it is one of at least four backticks.
abbrev pub block_at : ℕ → Option Edge → Option Block
block_at total none = none
block_at total (some edge) =
    if eqb edge.mark b'`' && leb 4 edge.size then some (fence total edge true) else none

-- The loop of a call's blocks, `none` if the fuel runs out.
unfoldable pub call_blocks : ℕ → (fuel : ℕ) → List ℕ → List (ℕ × ℕ) → List ℕ → Option Blocks
call_blocks total zero after opaque repairs = none
call_blocks total (suc fuel) after opaque repairs =
    let next = drop_while blank after in
    elim (block_at total (match_edge next)) [
      | none ↦ some (last_blocks total after next opaque repairs)
      | some block ↦
          let opaque' = opaque ++ (offset total next, offset total block.after) ∷ [] in
          let repairs' = add_repair block.repair repairs in
          let more = call_blocks total fuel block.after opaque' repairs' in
          if block.complete
          then more
          else some (record {
            after = block.after;
            complete = false;
            opaque = opaque';
            repairs = repairs';
          })
    ]

abbrev pub call_of : List ℕ → ℕ → Option Blocks → Found
call_of name header_end none = out_of_fuel
call_of name header_end (some blocks) = found (record {
  kind = tool;
  after = blocks.after;
  name = some name;
  header_end = some header_end;
  turn_number = none;
  complete = blocks.complete;
  opaque = blocks.opaque;
  repairs = blocks.repairs;
})

-- A call by its whole header. A round of the loop takes at least one unit.
abbrev pub header_token : ℕ → Option (List ℕ × List ℕ) → Found
header_token total none = nothing
header_token total (some m) =
    call_of m.0 (offset total m.1) (call_blocks total (suc (length m.1)) m.1 [] [])

unfoldable pub find_header : ℕ → List ℕ → Found
find_header total us = header_token total (match_header us)

-- A compact call, whose parentheses may be open.
abbrev pub compact_call : ℕ → List ℕ → List ℕ → Option (List ℕ) → Found
compact_call total name after none =
    call_of name (offset total after)
      (some (record { after = []; complete = false; opaque = []; repairs = [] }))
compact_call total name after (some rest) =
    call_of name (offset total after) (call_blocks total (suc (length rest)) rest [] [])

abbrev pub compact_token : ℕ → Option (List ℕ × List ℕ) → Found
compact_token total none = nothing
compact_token total (some m) = compact_call total m.0 m.1 (balanced_call m.1)

unfoldable pub find_compact : ℕ → Bool → List ℕ → Found
find_compact total may_be us =
    let call = compact_token total (match_compact us) in if may_be then call else nothing

abbrev pub code_token : ℕ → Option Edge → Found
code_token total none = nothing
code_token total (some edge) =
    let block = fence total edge false in found (bare code block.after block.complete)

unfoldable pub find_code : ℕ → Bool → List ℕ → Found
find_code total line_start us =
    let block = code_token total (match_edge us) in if line_start then block else nothing

-- `toLowerCase`, as far as a tag can come of it: the Kelvin sign becomes a k.
abbrev lower : ℕ → ℕ
lower u = if eqb u 0x212a then b'k' else fold u

abbrev lower_all : List ℕ → List ℕ
lower_all [] = []
lower_all (u ∷ us) = lower u ∷ lower_all us

abbrev fold_all : List ℕ → List ℕ
fold_all [] = []
fold_all (u ∷ us) = fold u ∷ fold_all us

abbrev is_pending_tag : List ℕ → Bool
is_pending_tag us =
    is_prefix (units_of "<") us
    && any (λ tag. is_prefix (lower_all us) (units_of tag))
        ("<thinking>" ∷ "<think>" ∷ "<analysis>" ∷ [])

-- What may stand of a header after the colon: a backtick and a part of the name.
abbrev is_pending_name : List ℕ → Bool
is_pending_name [] = true
is_pending_name (u ∷ us) = eqb u b'`' && is_empty (drop_while is_word us)

abbrev is_pending_tool : List ℕ → Bool
is_pending_tool us = elim (match_pieces hammer [] us) [
  | none ↦ false
  | some m ↦
      is_prefix (fold_all m.1) (units_of "tool") || elim (strip_any_case (units_of "tool:") m.1) [
        | none ↦ false
        | some rest ↦ is_pending_name (drop_while blank rest)
      ]
]

abbrev is_pending_summary : List ℕ → Bool
is_pending_summary us = not (is_empty us) && is_prefix (fold_all us) (units_of "<summary")

unfoldable pub find_pending : List ℕ → Found
find_pending us =
    if is_pending_tag us || is_pending_tool us || is_pending_summary us
    then found (bare pending [] false)
    else nothing

-- What the loop finds at a place, in the order of its tests.
unfoldable pub find_token : ℕ → (line_start adjacent_tool : Bool) → List ℕ → Found
unfolding find_turn find_meta find_header find_compact find_code find_pending
find_token total line_start adjacent_tool us = or_found (find_turn us) (
    or_found (find_meta us) (
      or_found (find_header total us) (
        or_found (find_compact total (line_start || adjacent_tool) us)
          (or_found (find_code total line_start us) (find_pending us)))))
