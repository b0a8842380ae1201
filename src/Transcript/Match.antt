-- ===== src/Transcript/Match.antt =====
-- The regular expressions of webui/src/utils/transcriptProtocol.ts. A source is the list of its UTF-16
-- units. In each of the expressions a part that repeats cannot match what the next part begins with, so
-- that the longest match of each part in turn is the match; what is left after it stands for its length.
use ga_hub.Prelude.{
  ℕ, ◌+◌, ◌-◌, ◌/◌, ◌%◌, String, Bool, true, false, not, ◌&&◌, ◌||◌, Option, none, some, List, [],
  ◌∷◌, ◌++◌, length, map, if◌then◌else◌, ltb, leb, eqb, blank,
}
use Prim.Native.Char.{code}

abbrev units_of_code : ℕ → List ℕ
units_of_code c =
    if ltb c 0x10000
    then c ∷ []
    else (0xd800 + (c - 0x10000) / 1024) ∷ (0xdc00 + (c - 0x10000) % 1024) ∷ []

-- The units of a text.
abbrev pub units_of : String → List ℕ
units_of String.[] = []
units_of (String.◌∷◌ c s) = units_of_code (code c) ++ units_of s

abbrev pub take_while : (ℕ → Bool) → List ℕ → List ℕ
take_while p [] = []
take_while p (u ∷ us) = let rest = take_while p us in if p u then u ∷ rest else []

abbrev pub drop_while : (ℕ → Bool) → List ℕ → List ℕ
drop_while p [] = []
drop_while p (u ∷ us) = let rest = drop_while p us in if p u then rest else u ∷ us

abbrev pub is_empty : List ℕ → Bool
is_empty [] = true
is_empty (u ∷ us) = false

abbrev pub is_prefix : List ℕ → List ℕ → Bool
is_prefix [] vs = true
is_prefix (u ∷ us) [] = false
is_prefix (u ∷ us) (v ∷ vs) = eqb u v && is_prefix us vs

-- A part of an expression: one unit, one or none, any number, and a group `{least}` that is captured.
pub data Piece : Type 0 where
  one : (test : ℕ → Bool) → Piece
  maybe : (test : ℕ → Bool) → Piece
  star : (test : ℕ → Bool) → Piece
  group : (least : ℕ) → (test : ℕ → Bool) → Piece

abbrev pub drop_one : (ℕ → Bool) → List ℕ → List ℕ
drop_one p [] = []
drop_one p (u ∷ us) = if p u then us else u ∷ us

-- What the last group has captured, and what is left.
abbrev pub match_pieces : List Piece → List ℕ → List ℕ → Option (List ℕ × List ℕ)
match_pieces [] captured us = some (captured, us)
match_pieces (one p ∷ pieces) captured [] = none
match_pieces (one p ∷ pieces) captured (u ∷ us) =
    let rest = match_pieces pieces captured us in if p u then rest else none
match_pieces (maybe p ∷ pieces) captured us = match_pieces pieces captured (drop_one p us)
match_pieces (star p ∷ pieces) captured us = match_pieces pieces captured (drop_while p us)
match_pieces (group least p ∷ pieces) captured us =
    let rest = match_pieces pieces (take_while p us) (drop_while p us) in
    if leb least (length (take_while p us)) then rest else none

abbrev pub rest_of : List ℕ → Option (List ℕ × List ℕ) → List ℕ
rest_of us none = us
rest_of us (some m) = m.1

-- `(?:...)?` of pieces without a group.
abbrev pub perhaps : List Piece → List ℕ → List ℕ
perhaps pieces us = rest_of us (match_pieces pieces [] us)

-- A match that is followed by a part that may be there.
abbrev pub then_perhaps : List Piece → Option (List ℕ × List ℕ) → Option (List ℕ × List ℕ)
then_perhaps pieces none = none
then_perhaps pieces (some m) = some (m.0, perhaps pieces m.1)

-- A unit as the flag `i` reads it: of the units that are no ASCII letters none is equal to one.
abbrev pub fold : ℕ → ℕ
fold u = if leb 65 u && leb u 90 then u + 32 else u

abbrev pub unit : ℕ → Piece
unit v = one (λ u. eqb u v)

abbrev pub exactly : String → List Piece
exactly s = map unit (units_of s)

-- A text in small letters, with the flag `i`.
abbrev pub any_case : String → List Piece
any_case s = map (λ v. one (λ u. eqb (fold u) v)) (units_of s)

abbrev pub is_space : ℕ → Bool
is_space u = eqb u 32 || eqb u 9

abbrev pub is_digit : ℕ → Bool
is_digit u = leb 48 u && leb u 57

-- `[\w.]` and `[\w.-]`.
abbrev pub is_word : ℕ → Bool
is_word u =
    is_digit u || (leb 65 u && leb u 90) || (leb 97 u && leb u 122) || eqb u b'_' || eqb u b'.'

abbrev pub is_name : ℕ → Bool
is_name u = is_word u || eqb u b'-'

abbrev pub hammer : List Piece
hammer = unit 0xd83d ∷ unit 0xdee0 ∷ maybe (λ u. eqb u 0xfe0f) ∷ star blank ∷ []

abbrev pub tool : List Piece
tool =
    hammer
    ++ any_case "tool"
    ++ star blank
      ∷ one (λ u. eqb u b':' || eqb u 0xff1a)
      ∷ star blank
      ∷ unit b'`'
      ∷ group 1 is_name
      ∷ unit b'`'
      ∷ []

abbrev pub args : List Piece
args = star is_space ∷ unit 0xd83d ∷ unit 0xdce5 ∷ star is_space ∷ any_case "args:"

abbrev pub compact : List Piece
compact = hammer ++ group 1 is_name ∷ star blank ∷ unit b'(' ∷ []

abbrev pub running : List Piece
running = any_case "llm running (turn " ++ group 1 is_digit ∷ any_case ") ..."

abbrev pub fence_edge : ℕ → List Piece
fence_edge mark =
    star is_space ∷ group 3 (λ u. eqb u mark) ∷ star (λ u. not (eqb u 10 || eqb u 13)) ∷ []

-- The name and what is left, for TOOL and COMPACT.
unfoldable pub match_tool : List ℕ → Option (List ℕ × List ℕ)
match_tool us = then_perhaps args (match_pieces tool [] us)

unfoldable pub match_compact : List ℕ → Option (List ℕ × List ℕ)
match_compact us = match_pieces compact [] us

-- The digits and what is left, for TURN.
unfoldable pub match_turn : List ℕ → Option (List ℕ × List ℕ)
match_turn us = then_perhaps (exactly "**") (match_pieces running [] (perhaps (exactly "**") us))

-- `(?:\r?\n|$)`.
abbrev pub line_end : List ℕ → Option (List ℕ)
line_end [] = some []
line_end (u ∷ []) = if eqb u 10 then some [] else none
line_end (u ∷ v ∷ us) =
    if eqb u 10 then some (v ∷ us) else if eqb u 13 && eqb v 10 then some us else none

pub record Edge : Type 0 where
  pub mark : ℕ
  pub size : ℕ
  pub after : List ℕ

abbrev pub ended_edge : ℕ → ℕ → Option (List ℕ) → Option Edge
ended_edge mark size none = none
ended_edge mark size (some after) = some (record { mark = mark; size = size; after = after })

abbrev pub edge_line : ℕ → Option (List ℕ × List ℕ) → Option Edge
edge_line mark none = none
edge_line mark (some m) = ended_edge mark (length m.0) (line_end m.1)

abbrev pub edge_of : ℕ → List ℕ → Option Edge
edge_of mark us = edge_line mark (match_pieces (fence_edge mark) [] us)

abbrev pub or_edge : Option Edge → Option Edge → Option Edge
or_edge none other = other
or_edge (some e) other = some e

-- EDGE.
unfoldable pub match_edge : List ℕ → Option Edge
match_edge us = or_edge (edge_of b'`' us) (edge_of b'~' us)
