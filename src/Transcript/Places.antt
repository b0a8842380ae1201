-- ===== src/Transcript/Places.antt =====
-- About what webui/src/utils/transcriptProtocol.ts finds at a place of the source.
use ga_hub.Prelude.{
  ℕ, suc, ◌≤◌, ◌<◌, Bool, false, not, ◌&&◌, ◌||◌, Option, none, some, List, [], ◌∷◌, ◌++◌, length,
  if◌then◌else◌, eqb, or_else, if_holds, arith, String, blank,
}
use ga_hub.Transcript.Match.{
  drop_while, Edge, match_edge, match_tool, match_compact, match_turn, is_empty, is_prefix,
  units_of, fold,
}
use ga_hub.Transcript.Fence.{balanced_from, balanced_call, Call, read_unit, offset}
use ga_hub.Transcript.Progress.{
  IsShorter, match_tool-IsShorter, match_compact-IsShorter, match_turn-IsShorter, IsShorterEdge,
  match_edge-IsShorterEdge,
}
use ga_hub.Transcript.{
  NodeKind, summary, thinking, pending, Found, nothing, found, out_of_fuel, or_found, find_turn,
  turn_token, after_first, strip_any_case, closed_tag, tag_token, find_tag, find_meta, header_of,
  may_follow, match_header, Blocks, header_token, find_header, compact_token, find_compact,
  compact_call, call_of, code_token, find_code, find_pending, find_token, bare,
}
use ga_hub.Transcript.Calls.{fence-le, IsEnded, call_blocks-IsEnded}

-- What was found, if anything, leaves less than `n` units.
abbrev pub IsShorterFound : ℕ → Found → Type 0
IsShorterFound n nothing = Unit
IsShorterFound n (found t) = length t.after < n
IsShorterFound n out_of_fuel = ⊥

or_found-IsShorterFound :
    (n : ℕ) (f g : Found)
    → IsShorterFound n f
    → IsShorterFound n g
    → IsShorterFound n (or_found f g)
or_found-IsShorterFound n nothing g h k = k
or_found-IsShorterFound n (found t) g h k = h
or_found-IsShorterFound n out_of_fuel g h k = absurd h

turn_token-IsShorterFound :
    (n : ℕ) (o : Option (List ℕ × List ℕ)) → IsShorter n o → IsShorterFound n (turn_token o)
turn_token-IsShorterFound n none h = tt
turn_token-IsShorterFound n (some m) h = h

call_of-IsShorterFound :
    (n m : ℕ) (name : List ℕ) (header_end : ℕ) (o : Option Blocks)
    → m < n
    → IsEnded m o
    → IsShorterFound n (call_of name header_end o)
call_of-IsShorterFound n m name header_end none h e = absurd e
call_of-IsShorterFound n m name header_end (some blocks) h e = omega (arith, h, e)

find_turn-IsShorterFound : (us : List ℕ) → IsShorterFound (length us) (find_turn us)
unfolding find_turn
find_turn-IsShorterFound us =
    turn_token-IsShorterFound (length us) (match_turn us) (match_turn-IsShorter us)

-- A place found in the source, if any, leaves at most `n` units.
abbrev pub IsWithin : ℕ → Option (List ℕ) → Type 0
IsWithin n none = Unit
IsWithin n (some us) = length us ≤ n

IsWithin-le : (m n : ℕ) (o : Option (List ℕ)) → m ≤ n → IsWithin m o → IsWithin n o
IsWithin-le m n none h w = tt
IsWithin-le m n (some us) h w = omega (arith, h, w)

strip_any_case-IsWithin : (vs us : List ℕ) → IsWithin (length us) (strip_any_case vs us)
strip_any_case-IsWithin [] us = omega arith
strip_any_case-IsWithin (v ∷ vs) [] = tt
strip_any_case-IsWithin (v ∷ vs) (u ∷ us) =
    if_holds (IsWithin (suc (length us))) (eqb (fold u) v) (strip_any_case vs us) none
      (IsWithin-le (length us) (suc (length us)) (strip_any_case vs us) (omega arith)
        (strip_any_case-IsWithin vs us))
      tt

or_else-IsWithin :
    (n : ℕ) (o other : Option (List ℕ))
    → IsWithin n o
    → IsWithin n other
    → IsWithin n (or_else o other)
or_else-IsWithin n none other h k = k
or_else-IsWithin n (some us) other h k = h

after_first-IsWithin : (vs us : List ℕ) → IsWithin (length us) (after_first vs us)
after_first-IsWithin vs [] = strip_any_case-IsWithin vs []
after_first-IsWithin vs (u ∷ us) =
    or_else-IsWithin (suc (length us)) (strip_any_case vs (u ∷ us)) (after_first vs us)
      (strip_any_case-IsWithin vs (u ∷ us))
      (IsWithin-le (length us) (suc (length us)) (after_first vs us) (omega arith)
        (after_first-IsWithin vs us))

closed_tag-IsShorterFound :
    (n m : ℕ) (kind : NodeKind) (o : Option (List ℕ))
    → m < n
    → IsWithin m o
    → IsShorterFound n (closed_tag kind o)
closed_tag-IsShorterFound n m kind none h w = omega (arith, h)
closed_tag-IsShorterFound n m kind (some us) h w = omega (arith, h, w)

-- A tag that was opened has taken a unit.
tag_token-IsShorterFound :
    (n : ℕ) (kind : NodeKind) (closing : List ℕ) (o : Option (List ℕ))
    → IsWithin n o
    → IsShorterFound (suc n) (tag_token kind closing o)
tag_token-IsShorterFound n kind closing none h = tt
tag_token-IsShorterFound n kind closing (some rest) h =
    closed_tag-IsShorterFound (suc n) (length rest) kind (after_first closing rest)
      (omega (arith, h)) (after_first-IsWithin closing rest)

find_tag-IsShorterFound :
    (kind : NodeKind) (name : String) (us : List ℕ)
    → IsShorterFound (length us) (find_tag kind name us)
find_tag-IsShorterFound kind name [] = tt
find_tag-IsShorterFound kind name (u ∷ us) =
    let opening = units_of name ++ units_of ">" in
    let closing = units_of "</" ++ units_of name ++ units_of ">" in
    tag_token-IsShorterFound (length us) kind closing
      (if eqb (fold u) b'<' then strip_any_case opening us else none)
      (if_holds (IsWithin (length us)) (eqb (fold u) b'<') (strip_any_case opening us) none
        (strip_any_case-IsWithin opening us) tt)

find_meta-IsShorterFound : (us : List ℕ) → IsShorterFound (length us) (find_meta us)
unfolding find_meta
find_meta-IsShorterFound us =
    or_found-IsShorterFound (length us) (find_tag summary "summary" us) _
      (find_tag-IsShorterFound summary "summary" us)
      (or_found-IsShorterFound (length us) (find_tag thinking "thinking" us) _
        (find_tag-IsShorterFound thinking "thinking" us)
        (or_found-IsShorterFound (length us) (find_tag thinking "think" us)
          (find_tag thinking "analysis" us) (find_tag-IsShorterFound thinking "think" us)
          (find_tag-IsShorterFound thinking "analysis" us)))

pub header_of-IsShorter :
    (n : ℕ) (o : Option (List ℕ × List ℕ)) → IsShorter n o → IsShorter n (header_of o)
header_of-IsShorter n none h = tt
header_of-IsShorter n (some m) h =
    let suffix = drop_while blank m.1 in
    if_holds (IsShorter n) (not (is_empty suffix) && is_prefix suffix (units_of "📥 args:"))
      (some (m.0, [])) (if may_follow suffix then some (m.0, m.1) else none) (omega (arith, h))
      (if_holds (IsShorter n) (may_follow suffix) (some (m.0, m.1)) none h tt)

header_token-IsShorterFound :
    (total n : ℕ) (o : Option (List ℕ × List ℕ))
    → IsShorter n o
    → IsShorterFound n (header_token total o)
header_token-IsShorterFound total n none h = tt
header_token-IsShorterFound total n (some m) h =
    call_of-IsShorterFound n (length m.1) m.0 (offset total m.1) _ h
      (call_blocks-IsEnded total (suc (length m.1)) m.1 [] [] (omega arith))

find_header-IsShorterFound :
    (total : ℕ) (us : List ℕ) → IsShorterFound (length us) (find_header total us)
unfolding find_header match_header
find_header-IsShorterFound total us =
    header_token-IsShorterFound total (length us) (header_of (match_tool us))
      (header_of-IsShorter (length us) (match_tool us) (match_tool-IsShorter us))

balanced_from-IsWithin : (c : Call) (us : List ℕ) → IsWithin (length us) (balanced_from c us)
unfolding balanced_from
balanced_from-IsWithin c [] = tt
balanced_from-IsWithin c (u ∷ us) =
    let next = read_unit u c in
    if_holds (IsWithin (suc (length us))) (eqb next.depth 0) (some us) (balanced_from next us)
      (omega arith)
      (IsWithin-le (length us) (suc (length us)) (balanced_from next us) (omega arith)
        (balanced_from-IsWithin next us))

pub balanced_call-IsWithin : (us : List ℕ) → IsWithin (length us) (balanced_call us)
unfolding balanced_call
balanced_call-IsWithin us =
    balanced_from-IsWithin (record { depth = 1; quoted = false; escaped = false }) us

compact_call-IsShorterFound :
    (total n : ℕ) (name after : List ℕ) (o : Option (List ℕ))
    → length after < n
    → IsWithin (length after) o
    → IsShorterFound n (compact_call total name after o)
compact_call-IsShorterFound total n name after none h w = omega (arith, h)
compact_call-IsShorterFound total n name after (some rest) h w =
    call_of-IsShorterFound n (length rest) name (offset total after) _ (omega (arith, h, w))
      (call_blocks-IsEnded total (suc (length rest)) rest [] [] (omega arith))

compact_token-IsShorterFound :
    (total n : ℕ) (o : Option (List ℕ × List ℕ))
    → IsShorter n o
    → IsShorterFound n (compact_token total o)
unfolding balanced_call
compact_token-IsShorterFound total n none h = tt
compact_token-IsShorterFound total n (some m) h =
    compact_call-IsShorterFound total n m.0 m.1 (balanced_call m.1) h (balanced_from-IsWithin _ m.1)

find_compact-IsShorterFound :
    (total : ℕ) (may_be : Bool) (us : List ℕ)
    → IsShorterFound (length us) (find_compact total may_be us)
unfolding find_compact
find_compact-IsShorterFound total may_be us =
    if_holds (IsShorterFound (length us)) may_be (compact_token total (match_compact us)) nothing
      (compact_token-IsShorterFound total (length us) (match_compact us)
        (match_compact-IsShorter us))
      tt

code_token-IsShorterFound :
    (total n : ℕ) (o : Option Edge) → IsShorterEdge n o → IsShorterFound n (code_token total o)
code_token-IsShorterFound total n none h = tt
code_token-IsShorterFound total n (some edge) h = omega (arith, h, fence-le total edge false)

find_code-IsShorterFound :
    (total : ℕ) (line_start : Bool) (us : List ℕ)
    → IsShorterFound (length us) (find_code total line_start us)
unfolding find_code
find_code-IsShorterFound total line_start us =
    if_holds (IsShorterFound (length us)) line_start (code_token total (match_edge us)) nothing
      (code_token-IsShorterFound total (length us) (match_edge us) (match_edge-IsShorterEdge us)) tt

find_pending-IsShorterFound :
    (us : List ℕ) → 0 < length us → IsShorterFound (length us) (find_pending us)
unfolding find_pending
find_pending-IsShorterFound us h =
    if_holds (IsShorterFound (length us)) _ (found (bare pending [] false)) nothing h tt

-- The scanner's loops end at every place that is not the source's end, and what they find there takes at
-- least one unit.
pub find_token-IsShorterFound :
    (total : ℕ) (line_start adjacent_tool : Bool) (us : List ℕ)
    → 0 < length us
    → IsShorterFound (length us) (find_token total line_start adjacent_tool us)
unfolding find_token
find_token-IsShorterFound total line_start adjacent_tool us h =
    or_found-IsShorterFound (length us) (find_turn us) _ (find_turn-IsShorterFound us) (
      or_found-IsShorterFound (length us) (find_meta us) _ (find_meta-IsShorterFound us) (
        or_found-IsShorterFound (length us) (find_header total us) _
          (find_header-IsShorterFound total us)
          (or_found-IsShorterFound (length us) (find_compact total (line_start || adjacent_tool) us)
            _ (find_compact-IsShorterFound total (line_start || adjacent_tool) us)
            (or_found-IsShorterFound (length us) (find_code total line_start us) (find_pending us)
              (find_code-IsShorterFound total line_start us) (find_pending-IsShorterFound us h)))))
