-- ===== src/Chat/Merge.antt =====
-- mergeLive and its helpers of webui/src/stores/chatStore.ts: a live projection is laid over the
-- archived one.
pub mod Laws
use ga_hub.Prelude.{
  ℕ, ◌-◌, ◌+◌, String, Bool, true, false, not, ◌&&◌, ◌||◌, Option, none, some, List, [], ◌∷◌, ◌++◌,
  map, any, any_pair, filter, update_last, update_last_pair, if◌then◌else◌, leb, ltb, is_set,
  or_set, opt_eq, is_some, ◌==◌, starts_with, utf16_length,
}
use ga_hub.Reply.{TurnScanner}
use ga_hub.Chat.Message.{
  ChatMsg, Slot, absent, own, read, is_user, is_assistant, is_system, is_on, slot_is, has_outcome,
  spread,
}
use ga_hub.Chat.Logical.{merge_run_reply}
use ga_hub.Chat.Order.{earlier, order_conversation_turns}

abbrev pub tolerance_ms : ℕ
tolerance_ms = 120000

abbrev distance : ℕ → ℕ → ℕ
distance a b = (a - b) + (b - a)

abbrev within : Option ℕ → Option ℕ → Bool
within none b = true
within (some a) none = true
within (some a) (some b) = leb (distance a b) tolerance_ms

abbrev pub timestamps_overlap : ChatMsg → ChatMsg → Bool
timestamps_overlap archived live = within (read archived.timestamp) (read live.timestamp)

abbrev is_dated_msg : ChatMsg → Bool
is_dated_msg m = is_some (read m.timestamp)

abbrev same_id : Option String → Option String → Bool
same_id a b = is_set a && opt_eq a b

-- The question and answer of the archive are those of the stream.
unfoldable pub pairs_describe_same_turn : ChatMsg → ChatMsg → ChatMsg → ChatMsg → Bool
pairs_describe_same_turn archived_query archived_answer query answer =
    if not (is_user archived_query.role && is_assistant archived_answer.role)
    then false
    else if is_set (read archived_query.run_id) || is_set (read query.run_id)
    then same_id (read archived_query.run_id) (read query.run_id)
    else if is_set (read archived_query.logical_id) || is_set (read query.logical_id)
    then same_id (read archived_query.logical_id) (read query.logical_id)
    else archived_query.content == query.content
      && timestamps_overlap archived_query query
      && timestamps_overlap archived_answer answer
      && ((is_dated_msg archived_query
            && is_dated_msg query
            && is_dated_msg archived_answer
            && is_dated_msg answer)
          || archived_answer.content == answer.content)

-- `slot === false`.
abbrev is_finished : Slot Bool → Bool
is_finished absent = false
is_finished (own none) = false
is_finished (own (some b)) = not b

abbrev same_stream : ChatMsg → ChatMsg → Bool
same_stream query answer =
    is_some (read query.stream_id) && opt_eq (read query.stream_id) (read answer.stream_id)

-- A complete question and answer of one stream.
abbrev is_finished_pair : ChatMsg → ChatMsg → Bool
is_finished_pair query answer =
    is_user query.role
    && is_assistant answer.role
    && same_stream query answer
    && is_finished answer.streaming

abbrev pub is_history : ChatMsg → Bool
is_history m = slot_is m.source "history"

abbrev overlaps : List ChatMsg → ChatMsg → ChatMsg → Bool
overlaps archived query answer =
    is_finished_pair query answer
    && any_pair (λ q a. pairs_describe_same_turn q a query answer) archived

-- Live bubbles, each with the mark that the archive has adopted it.
abbrev pub Marked : Type 0
Marked = List (ChatMsg × Bool)

-- An answer is no question, so that two pairs of the source's loop never share a bubble.
drop_overlaps : List ChatMsg → Marked → Marked
drop_overlaps archived [] = []
drop_overlaps archived (m ∷ []) = m ∷ []
drop_overlaps archived (query ∷ answer ∷ rest) =
    let without = drop_overlaps archived rest in
    let kept = drop_overlaps archived (answer ∷ rest) in
    if overlaps archived query.0 answer.0 then without else query ∷ kept

unfoldable pub remove_archived_snapshot_overlap : List ChatMsg → Marked → Marked
unfolding drop_overlaps pairs_describe_same_turn
remove_archived_snapshot_overlap base live = drop_overlaps (filter is_history base) live

-- `livePositionKey`, by its two parts: the identity and the role.
abbrev pub identity_of : ChatMsg → Option String
identity_of m = or_set (or_set (read m.run_id) (read m.logical_id)) (read m.stream_id)

abbrev pub same_role : ChatMsg → ChatMsg → Bool
same_role a b =
    (is_user a.role && is_user b.role)
    || (is_assistant a.role && is_assistant b.role)
    || (is_system a.role && is_system b.role)

abbrev pub same_position : ChatMsg → ChatMsg → Bool
same_position msg m =
    is_set (identity_of msg) && opt_eq (identity_of m) (identity_of msg) && same_role m msg

-- A stream that is still receiving, with its question.
abbrev is_open_pair : ChatMsg → ChatMsg → Bool
is_open_pair query answer =
    is_user query.role
    && is_assistant answer.role
    && is_on answer.streaming
    && is_set (read query.stream_id)
    && opt_eq (read query.stream_id) (read answer.stream_id)
    && is_dated_msg query

abbrev is_partial_archive : ChatMsg → ChatMsg → ChatMsg → Bool
is_partial_archive query archived_query archived_answer =
    is_history archived_query
    && is_history archived_answer
    && is_user archived_query.role
    && is_assistant archived_answer.role
    && not (is_set (read archived_query.run_id))
    && not (is_set (read query.run_id))
    && not (is_set (read archived_query.logical_id))
    && not (is_set (read query.logical_id))
    && archived_query.content == query.content
    && is_dated_msg archived_query
    && timestamps_overlap archived_query query

abbrev adopts : List ChatMsg → ChatMsg → ChatMsg → Bool
adopts out query answer = is_open_pair query answer && any_pair (is_partial_archive query) out

abbrev adopt_pair : ChatMsg → ChatMsg → List ChatMsg → List ChatMsg
adopt_pair query answer out =
    update_last_pair (is_partial_archive query) (λ m. spread m query) (λ m. spread m answer) out

-- The first loop: partial archive pairs take the live ones over, which are marked.
adopt_live : List ChatMsg → List ChatMsg → List ChatMsg × Marked
unfolding spread
adopt_live out [] = (out, [])
adopt_live out (m ∷ []) = (out, (m, false) ∷ [])
adopt_live out (query ∷ answer ∷ rest) =
    let taken = adopt_live (adopt_pair query answer out) rest in
    let kept = adopt_live out (answer ∷ rest) in
    if adopts out query answer
    then (taken.0, (query, true) ∷ (answer, true) ∷ taken.1)
    else (kept.0, (query, false) ∷ kept.1)

-- An old bubble that a live one may not replace: it is final, or it has more of the same text.
abbrev pub keeps_old : ChatMsg → ChatMsg → Bool
keeps_old old msg =
    has_outcome old
    || (starts_with old.content msg.content
        && ltb (utf16_length msg.content) (utf16_length old.content))

abbrev same_run : ChatMsg → ChatMsg → Bool
same_run old msg = is_set (read old.run_id) && opt_eq (read old.run_id) (read msg.run_id)

unfoldable pub spread_live : ChatMsg → ChatMsg → ChatMsg
unfolding spread
spread_live old msg =
    let both = spread old msg in
    record both {
      timestamp = own (
          if is_user old.role && same_run old msg
          then earlier (read old.timestamp) (read msg.timestamp)
          else read msg.timestamp);
    }

-- A bubble and the one under whose key it was entered.
abbrev pub Placed : Type 0
Placed = List (ChatMsg × ChatMsg)

abbrev pub is_placed : ChatMsg → ChatMsg × ChatMsg → Bool
is_placed msg e = same_position msg e.1

module _ ⦃scanner : TurnScanner⦄ where
  unfoldable pub merge_into : ChatMsg → ChatMsg → ChatMsg
  unfolding merge_run_reply spread_live
  merge_into msg old =
      if keeps_old old msg
      then old
      else if is_assistant old.role && same_run old msg
      then merge_run_reply old msg
      else spread_live old msg

  -- One round of the second loop. A bubble stands with the one that entered its key in `positions`,
  -- which a merge does not change.
  unfoldable pub lay_over : Placed → ChatMsg → Placed
  unfolding merge_into
  lay_over out msg =
      if any (is_placed msg) out
      then update_last (is_placed msg) (λ e. (merge_into msg e.0, e.1)) out
      else out ++ (msg, msg) ∷ []

  unfoldable pub lay_all : Placed → Marked → Placed
  unfolding lay_over
  lay_all out [] = out
  lay_all out ((msg, adopted) ∷ rest) = lay_all (if adopted then out else lay_over out msg) rest

  -- The merged bubbles before they are ordered.
  unfoldable pub merge_projections : List ChatMsg → List ChatMsg → List ChatMsg
  unfolding adopt_live lay_all remove_archived_snapshot_overlap
  merge_projections base live =
      let (out, marked) = adopt_live base live in
      map (λ e. e.0)
        (lay_all (map (λ m. (m, m)) out) (remove_archived_snapshot_overlap base marked))

  unfoldable pub merge_live : List ChatMsg → List ChatMsg → List ChatMsg
  unfolding merge_projections order_conversation_turns
  merge_live base live = order_conversation_turns (merge_projections base live)
