-- ===== src/Chat/Logical.antt =====
-- One logical answer out of several transport streams: mergeRunReply and updateLogicalReply of
-- webui/src/stores/chatStore.ts.
use ga_hub.Prelude.{
  ℕ, suc, String, Bool, false, not, ◌&&◌, ◌||◌, Option, none, some, List, [], ◌∷◌, ◌++◌, any, find?,
  find_index?, get_elem?, set, update_first, drop, if◌then◌else◌, truthy, is_set, or_set, or_text,
  or_else, or_default, opt_eq, ◌==◌, starts_with, ◌+◌,
}
use ga_hub.Reply.{
  Phase, started, ReplySegment, TurnScanner, has_stream, update_reply_segments,
  reply_segments_content, reply_segments_turns,
}
use ga_hub.Chat.Message.{
  ChatMsg, Slot, own, read, assistant, bare, spread, is_assistant, is_on, belongs_to_run, slot_is,
  parts_of, has_outcome,
}
use ga_hub.Chat.Event.{StreamEvent}
use ga_hub.Chat.Notice.{retry_key}

abbrev is_history_id : String → Bool
is_history_id sid = starts_with sid "history:"

-- A provisional archive segment whose text and the frame's continue one another.
abbrev is_archive_of : ReplySegment → ReplySegment → Bool
is_archive_of part previous =
    is_history_id previous.stream_id
    && truthy previous.content
    && (starts_with part.content previous.content || starts_with previous.content part.content)

abbrev offset_index : ℕ → Option ℕ → Option ℕ
offset_index from none = none
offset_index from (some i) = some (from + i)

-- `segments.findIndex((previous, i) => i >= from && p(previous))`.
abbrev find_index_from {ℓ} : {A : Type ℓ} → ℕ → (A → Bool) → List A → Option ℕ
find_index_from from p xs = offset_index from (find_index? p (drop from xs))

abbrev equal_turns : ReplySegment → ReplySegment → Bool → Option (List String)
equal_turns previous part keep =
    if previous.content == part.content
    then or_else part.turn_segments previous.turn_segments
    else if keep
    then previous.turn_segments
    else part.turn_segments

abbrev from_archive : ReplySegment → Bool
from_archive previous = previous.archived || is_history_id previous.stream_id

abbrev keep_previous : ReplySegment → ReplySegment → Bool
keep_previous previous part =
    if from_archive previous
    then not (truthy part.content)
    else starts_with previous.content part.content

-- What a segment of the list becomes when the incoming `part` is matched with it.
unfoldable pub merge_segment : ReplySegment → ReplySegment → ReplySegment
merge_segment previous part =
    let keep = keep_previous previous part in
    record {
      stream_id = part.stream_id;
      content = if keep then previous.content else part.content;
      turn_segments = equal_turns previous part keep;
      archived = if keep then previous.archived else part.archived;
      done = part.done || (not (from_archive previous) && previous.done);
    }

abbrev merge_found : ReplySegment → ℕ → List ReplySegment → Option ReplySegment → List ReplySegment
merge_found part index segments none = segments
merge_found part index segments (some previous) = set segments index (merge_segment previous part)

abbrev merge_at : ReplySegment → Option ℕ → List ReplySegment → List ReplySegment
merge_at part none segments = segments ++ part ∷ []
merge_at part (some index) segments = merge_found part index segments (get_elem? segments index)

abbrev archive_index : ReplySegment → ℕ → List ReplySegment → Option ℕ
archive_index part cursor segments =
    if truthy part.content then find_index_from cursor (is_archive_of part) segments else none

abbrev cursor_after : ℕ → Option ℕ → ℕ
cursor_after cursor none = cursor
cursor_after cursor (some index) = suc index

-- One round of the loop over the incoming segments; the pair is `segments` and `archiveCursor`.
merge_part : List ReplySegment × ℕ → ReplySegment → List ReplySegment × ℕ
unfolding merge_segment
merge_part (segments, cursor) part = elim (find_index? (has_stream part.stream_id) segments) [
  | some index ↦ (merge_at part (some index) segments, cursor)
  | none ↦
      let index = archive_index part cursor segments in
      (merge_at part index segments, cursor_after cursor index)
]

merge_parts : List ReplySegment × ℕ → List ReplySegment → List ReplySegment
merge_parts state [] = state.0
merge_parts state (part ∷ parts) = merge_parts (merge_part state part) parts

-- The segments of `mergeRunReply(old, incoming)`.
unfoldable pub merge_run_segments : List ReplySegment → List ReplySegment → List ReplySegment
unfolding merge_parts merge_part
merge_run_segments old incoming = merge_parts (old, 0) incoming

-- The bubble that an event of the run, the logical answer or the stream goes to.
abbrev pub is_reply_target : StreamEvent → ChatMsg → Bool
is_reply_target evt m =
    is_assistant m.role
    && belongs_to_run m evt.run_id
    && (is_set evt.run_id
        || slot_is m.logical_id (retry_key evt)
        || slot_is m.stream_id (retry_key evt)
        || slot_is m.stream_id evt.stream_id
        || any (λ part. has_stream evt.stream_id part || opt_eq (some part.stream_id) evt.retry_of)
            (parts_of m.segments))

abbrev initial_of : ChatMsg → Option (List ReplySegment) → Option String → List ReplySegment
initial_of old (some parts) sid = parts
initial_of old none none = []
initial_of old none (some sid) =
    if truthy sid
    then record {
      stream_id = sid;
      content = old.content;
      turn_segments = none;
      archived = false;
      done = not (is_on old.streaming) && not (is_on old.stopped);
    }
      ∷ []
    else []

abbrev pub initial_segments : Option ChatMsg → List ReplySegment
initial_segments none = []
initial_segments (some old) = initial_of old (read old.segments) (read old.stream_id)

abbrev event_part : StreamEvent → List ReplySegment → List ReplySegment
event_part evt parts = update_reply_segments parts evt.stream_id evt.phase evt.content evt.turn_segs

abbrev has_run : Option ChatMsg → Bool
has_run none = false
has_run (some old) = is_set (read old.run_id)

unfoldable pub reply_segments_after : Option ChatMsg → StreamEvent → List ReplySegment
unfolding merge_run_segments
reply_segments_after old evt =
    let initial = initial_segments old in
    if has_run old then merge_run_segments initial (event_part evt []) else event_part evt initial

-- `!latest.done` of the last segment; there is always one.
abbrev pub last_open : List ReplySegment → Bool
last_open [] = false
last_open (p ∷ []) = not p.done
last_open (p ∷ q ∷ parts) = last_open (q ∷ parts)

abbrev base_of : Option ChatMsg → ChatMsg
base_of old = or_default old (bare assistant "")

abbrev settled {ℓ} : {A : Type ℓ} → Bool → Slot A → Slot A
settled streaming slot = if streaming then slot else own none

abbrev is_repeat : Phase → String → List ReplySegment → Bool
is_repeat started sid initial = any (has_stream sid) initial
is_repeat _ sid initial = false

-- The two early returns, which keep the list.
abbrev pub refuses : ChatMsg → StreamEvent → Bool
refuses old evt = has_outcome old || is_repeat evt.phase evt.stream_id (initial_segments (some old))

module _ ⦃scanner : TurnScanner⦄ where
  -- The whole bubble of `mergeRunReply(old, incoming)`.
  unfoldable pub merge_run_reply : ChatMsg → ChatMsg → ChatMsg
  unfolding merge_run_segments spread
  merge_run_reply old incoming =
      let segments = merge_run_segments (parts_of old.segments) (parts_of incoming.segments) in
      let both = spread old incoming in
      record both {
        segments = own (some segments);
        content = reply_segments_content segments;
        turn_segments = own (reply_segments_turns segments);
      }

  unfoldable pub reply_message : Option ChatMsg → StreamEvent → ℕ → ChatMsg
  unfolding reply_segments_after
  reply_message old evt now =
      let base = base_of old in
      let segments = reply_segments_after old evt in
      let streaming = not (is_on base.stopped) && last_open segments in
      record base {
        role = assistant;
        logical_id = own (some (or_text (read base.logical_id) (retry_key evt)));
        run_id = own (or_set evt.run_id (read base.run_id));
        stream_id = own (some (or_text (read base.stream_id) evt.stream_id));
        source = own (or_set (read base.source) evt.source);
        segments = own (some segments);
        content = reply_segments_content segments;
        turn_segments = own (reply_segments_turns segments);
        streaming = own (some streaming);
        timestamp = own (some (or_default (read base.timestamp) now));
        started_at = own (some (or_default (read base.started_at) now));
        finished_at =
            own (if streaming then none else some (or_default (read base.finished_at) now));
        recovery_notice = settled streaming base.recovery_notice;
        recovery_offset = settled streaming base.recovery_offset;
        recovery_stream_id = settled streaming base.recovery_stream_id;
      }

  unfoldable pub update_logical_reply : List ChatMsg → StreamEvent → ℕ → List ChatMsg
  unfolding reply_message
  update_logical_reply prev evt now = elim (find? (is_reply_target evt) prev) [
    | none ↦ prev ++ reply_message none evt now ∷ []
    | some old ↦
        if refuses old evt
        then prev
        else update_first (is_reply_target evt) (λ _. reply_message (some old) evt now) prev
  ]
