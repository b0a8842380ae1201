-- ===== src/Reply.antt =====
-- The segments of a logical reply: webui/src/utils/replySegments.ts and archiveTurnSegments.ts.
-- A transport stream carries the cumulative text of one segment. The scanner of turn markers
-- (scanTranscript of transcriptProtocol.ts) enters as `TurnScanner`, which every function and
-- theorem takes as it comes: nothing is assumed of it.
pub mod Laws
pub mod Replay
use ga_hub.Prelude.{
  ℕ, zero, suc, ◌-◌, String, Bool, true, false, not, ◌&&◌, ◌||◌, Option, none, some, List, [], ◌∷◌,
  ◌++◌, map, ◌==◌, starts_with, any, filter, find?, update_first, or_default, or_else, is_some, eqb,
  if◌then◌else◌, truthy, opt_eq, has_ink, join, utf16_length, utf16_slice, ◌⧺◌,
}

pub record ReplySegment : Type 0 where
  pub stream_id : String
  pub content : String
  pub turn_segments : Option (List String)
  pub archived : Bool
  pub done : Bool

pub data Phase : Type 0 where
  started next done : Phase

-- The offsets at which the turn markers of a text stand.
pub record TurnScanner : Type 0 where
  pub turn_starts : String → List ℕ

abbrev all_ink : List String → Bool
all_ink [] = true
all_ink (s ∷ rest) = has_ink s && all_ink rest

abbrev nonempty {ℓ} : {A : Type ℓ} → List A → Bool
nonempty [] = false
nonempty (x ∷ xs) = true

-- `value` is a list of texts or nothing, as the wire types say.
unfoldable pub valid_turn_segments : Option (List String) → String → Option (List String)
unfolding join
valid_turn_segments none content = none
valid_turn_segments (some parts) content =
    if nonempty parts && all_ink parts && join "" parts == content then some parts else none

abbrev pub has_stream : String → ReplySegment → Bool
has_stream sid part = part.stream_id == sid

abbrev is_started : Phase → Bool
is_started started = true
is_started _ = false

abbrev is_done : Phase → Bool
is_done done = true
is_done _ = false

-- A frame of `content` may be missing: a `started` event has none.
abbrev stale_content : ReplySegment → Option String → Bool
stale_content old none = false
stale_content old (some content) =
    not old.archived && not (old.content == content) && starts_with old.content content

-- The three early returns, which keep the list.
abbrev pub ignores : ReplySegment → Phase → Option String → Bool
ignores old phase content =
    (old.archived && is_started phase)
    || (old.done && not old.archived && not (is_done phase))
    || stale_content old content

abbrev old_content : Option ReplySegment → String
old_content none = ""
old_content (some old) = old.content

abbrev old_done : Option ReplySegment → Bool
old_done none = false
old_done (some old) = old.done && not old.archived

abbrev same_content : Option ReplySegment → Option String → Bool
same_content old none = true
same_content none (some content) = false
same_content (some old) (some content) = content == old.content

abbrev old_turns : Option ReplySegment → Option (List String)
old_turns none = none
old_turns (some old) = old.turn_segments

unfoldable pub next_part :
    Option ReplySegment → String → Phase → Option String → Option (List String) → ReplySegment
unfolding valid_turn_segments
next_part old sid phase content turns = record {
  stream_id = sid;
  content = if is_started phase then old_content old else or_default content (old_content old);
  turn_segments =
      or_else (valid_turn_segments turns (or_default content (old_content old)))
        (if same_content old content then old_turns old else none);
  archived = false;
  done = is_done phase || old_done old;
}

-- `parts` with the segment of the stream put in place, or appended.
abbrev pub put_part : String → ReplySegment → List ReplySegment → List ReplySegment
put_part sid part parts = update_first (has_stream sid) (λ _. part) parts

unfoldable pub update_reply_segments :
    List ReplySegment → String → Phase → Option String → Option (List String) → List ReplySegment
unfolding next_part
update_reply_segments previous sid phase content turns = elim (find? (has_stream sid) previous) [
  | none ↦ previous ++ next_part none sid phase content turns ∷ []
  | some old ↦
      if ignores old phase content
      then previous
      else put_part sid (next_part (some old) sid phase content turns) previous
]

-- `parts.map(content).filter(Boolean).join('\n\n')`.
unfoldable pub reply_segments_content : List ReplySegment → String
unfolding join
reply_segments_content parts = join "\n\n" (filter truthy (map (λ p. p.content) parts))

-- The slices of a text between successive cuts.
abbrev slices : String → ℕ → List ℕ → List String
slices text from [] = []
slices text from (to ∷ rest) = utf16_slice from to text ∷ slices text to rest

-- `[...new Set(cuts)]`: each number once, at its first place.
abbrev contains : List ℕ → ℕ → Bool
contains [] n = false
contains (m ∷ ms) n = eqb m n || contains ms n

unique_from : List ℕ → List ℕ → List ℕ
unique_from seen [] = []
unique_from seen (n ∷ rest) =
    let tail = unique_from (n ∷ seen) rest in
    let other = unique_from seen rest in if contains seen n then other else n ∷ tail

abbrev cut_all : String → List ℕ → List String
cut_all text [] = []
cut_all text (from ∷ rest) = slices text from rest

abbrev is_trusted : ReplySegment → Bool
is_trusted part = is_some (valid_turn_segments part.turn_segments part.content)

-- Puts the separator before the first turn of every later part.
abbrev joined_turns : List String → List String → List String
joined_turns [] turns = turns
joined_turns (r ∷ result) [] = r ∷ result
joined_turns (r ∷ result) (t ∷ turns) = (r ∷ result) ++ ("\n\n" ⧺ t) ∷ turns

module _ ⦃scanner : TurnScanner⦄ where
  part_turns : ReplySegment → List String
  unfolding valid_turn_segments unique_from
  part_turns part = or_default (valid_turn_segments part.turn_segments part.content) (
      cut_all part.content
        (unique_from [] (0 ∷ scanner.turn_starts part.content ++ utf16_length part.content ∷ [])))

  collect_turns : List String → List ReplySegment → List String
  collect_turns result [] = result
  collect_turns result (part ∷ parts) = collect_turns (joined_turns result (part_turns part)) parts

  unfoldable pub reply_segments_turns : List ReplySegment → Option (List String)
  unfolding collect_turns part_turns valid_turn_segments
  reply_segments_turns parts =
      let result = collect_turns [] (filter (λ p. truthy p.content) parts) in
      if any is_trusted parts then (if nonempty result then some result else none) else none
