-- ===== src/Chat/Reducer.antt =====
-- applyEvent and reduceEvent of webui/src/stores/chatStore.ts, for every event but the snapshot;
-- Faults has the branches of retries, errors, aborted and rewound.
-- `runtime.abortedStreams`, which the source keeps outside the store, is the second part of the
-- reduced state: the streams that were receiving when the run was aborted. `now` is `Date.now()`.
mod Faults
pub mod Finals
pub mod Abort
unfoldable pub use Faults.*
use ga_hub.Prelude.{
  ℕ, String, Bool, true, false, not, ◌&&◌, ◌||◌, Option, none, some, List, [], ◌∷◌, ◌++◌, map, any,
  filter, find?, update_first, update_last, if◌then◌else◌, truthy, is_set, or_set, or_text,
  or_default, opt_eq, is_some, ◌==◌, ◌⧺◌, decimal, before_colon, contains_text, remove_text, max,
}
use ga_hub.Reply.{Phase, started, next, done, TurnScanner}
use ga_hub.Chat.Message.{
  ChatMsg, Slot, absent, own, read, user, assistant, system, bare, Outcome, is_user, is_assistant,
  is_system, is_on, is_cancelled, is_hidden_source, belongs_to_run, slot_is, has_outcome,
  epoch_milliseconds,
}
use ga_hub.Chat.Event.{
  StreamEvent, RetryEvent, retrying, scheduled, exhausted, RuntimeEvent, ErrorEvent,
}
use ga_hub.Chat.Notice.{
  upsert_retry_notice, recovery_note, retry_key, is_recovery_source, ensure_retry_start_notice,
}
use ga_hub.Chat.Logical.{update_logical_reply}

-- A run that is reported as running streams again.
unfoldable pub resume : String → ChatMsg → ChatMsg
resume run m =
    if is_assistant m.role && slot_is m.run_id run && not (has_outcome m) && not (is_on m.stopped)
    then record m { streaming = own (some true); finished_at = own none }
    else m

unfoldable pub settle : String → Outcome → ℕ → ChatMsg → ChatMsg
settle run outcome now m =
    if is_assistant m.role && slot_is m.run_id run
    then record m {
      streaming = own (some false);
      recovery_notice = own none;
      recovery_offset = own none;
      recovery_stream_id = own none;
      outcome = own (some outcome);
      stopped = own (some (is_cancelled outcome));
      finished_at = own (some (or_default (read m.finished_at) now));
    }
    else m

abbrev settle_run : Option String → Option Outcome → ℕ → List ChatMsg → List ChatMsg
settle_run (some run) (some outcome) now prev =
    if truthy run then map (settle run outcome now) prev else prev
settle_run (some run) none now prev = prev
settle_run none outcome now prev = prev

unfoldable pub apply_runtime : RuntimeEvent → ℕ → List ChatMsg → List ChatMsg
unfolding resume settle
apply_runtime evt now prev =
    if evt.status == "running" && is_set evt.run_id
    then map (resume (or_default evt.run_id "")) prev
    else if evt.status == "idle"
    then settle_run evt.completed_run_id evt.outcome now prev
    else prev

abbrev source_of : StreamEvent → String
source_of evt = or_default evt.source "user"

abbrev start_time : StreamEvent → ℕ → ℕ
start_time evt now = or_default (epoch_milliseconds evt.ts) now

-- An answer of the run, the stream or the logical turn is already there.
abbrev answers_start : StreamEvent → ChatMsg → Bool
answers_start evt m =
    is_assistant m.role
    && belongs_to_run m evt.run_id
    && (slot_is m.stream_id evt.stream_id
        || is_set evt.run_id
        || (is_set evt.logical_id && opt_eq (read m.logical_id) evt.logical_id))

abbrev pub is_pending_user : ChatMsg → Bool
is_pending_user m = is_user m.role && is_on m.pending_webui

-- The staged bubble takes the identity of its stream.
unfoldable pub adopt : StreamEvent → ChatMsg → ChatMsg
adopt evt m = record m {
  stream_id = own (some evt.stream_id);
  run_id = own evt.run_id;
  logical_id = own evt.logical_id;
  pending_webui = own (some false);
  pending_webui_id = own (read m.pending_webui_id);
}

unfoldable pub started_answer : StreamEvent → ℕ → ChatMsg
started_answer evt now =
    let base = bare assistant "" in
    record base {
      stream_id = own (some evt.stream_id);
      run_id = own evt.run_id;
      logical_id = own evt.logical_id;
      source = own (some (source_of evt));
      streaming = own (some true);
      timestamp = own (some now);
      started_at = own (some (start_time evt now));
      finished_at = own none;
    }

unfoldable pub started_question : StreamEvent → ℕ → ChatMsg
started_question evt now =
    let base = bare user (or_default evt.query "") in
    record base {
      stream_id = own (some evt.stream_id);
      run_id = own evt.run_id;
      logical_id = own evt.logical_id;
      source = own (some (source_of evt));
      timestamp = own (some now);
    }

abbrev is_question_of : StreamEvent → ChatMsg → Bool
is_question_of evt m =
    is_user m.role && belongs_to_run m evt.run_id && slot_is m.stream_id evt.stream_id

abbrev is_answer_of : StreamEvent → ChatMsg → Bool
is_answer_of evt m =
    is_assistant m.role && belongs_to_run m evt.run_id && slot_is m.stream_id evt.stream_id

abbrev push_unless : (ChatMsg → Bool) → ChatMsg → List ChatMsg → List ChatMsg
push_unless p m msgs = if any p msgs then msgs else msgs ++ m ∷ []

unfoldable pub fresh_pair : StreamEvent → ℕ → List ChatMsg → List ChatMsg
unfolding started_question started_answer
fresh_pair evt now prev =
    push_unless (is_answer_of evt) (started_answer evt now)
      (push_unless (is_question_of evt) (started_question evt now) prev)

abbrev takes_identity : StreamEvent → ChatMsg → Bool
takes_identity evt m =
    slot_is m.stream_id evt.stream_id
    && (not (is_set (read m.run_id)) || belongs_to_run m evt.run_id)

-- What `applyEvent` does after a `started` event.
unfoldable pub identify : StreamEvent → ChatMsg → ChatMsg
identify evt m =
    if takes_identity evt m
    then record m {
      run_id = own (or_set evt.run_id (read m.run_id));
      logical_id = own (or_set evt.logical_id (read m.logical_id));
    }
    else m

-- The answer that a side question was given.
abbrev is_side_answer : String → ChatMsg → Bool
is_side_answer sid m = (is_assistant m.role || is_system m.role) && slot_is m.stream_id sid

unfoldable pub side_answer : StreamEvent → ℕ → ChatMsg
side_answer evt now =
    let base = bare system (or_default evt.content "") in
    record base {
      stream_id = own (some evt.stream_id);
      source = own evt.source;
      streaming = own (some false);
      timestamp = own (some now);
      started_at = own (some now);
      finished_at = own (some now);
    }

abbrev rewrite_side : StreamEvent → ℕ → ChatMsg → ChatMsg
rewrite_side evt now m = record m {
  content = or_default evt.content "";
  streaming = own (some false);
  timestamp = own (some now);
  finished_at = own (some now);
}

unfoldable pub finish_side : StreamEvent → ℕ → List ChatMsg → List ChatMsg
unfolding side_answer
finish_side evt now msgs =
    if any (is_side_answer evt.stream_id) msgs
    then update_first (is_side_answer evt.stream_id) (rewrite_side evt now) msgs
    else msgs ++ side_answer evt now ∷ []

module _ ⦃scanner : TurnScanner⦄ where
  unfoldable pub reduce_started : StreamEvent → ℕ → List ChatMsg → List ChatMsg
  unfolding upsert_retry_notice recovery_note update_logical_reply adopt started_answer fresh_pair
  reduce_started evt now prev =
      if is_hidden_source (some (source_of evt))
      then prev
      else if is_recovery_source (some (source_of evt))
      then update_logical_reply
          (upsert_retry_notice prev (retry_key evt) (recovery_note evt) (some now)
            (some evt.stream_id) evt.run_id)
          evt (start_time evt now)
      else if any (answers_start evt) prev
      then update_logical_reply prev evt (start_time evt now)
      else if source_of evt == "webui" && any is_pending_user prev
      then update_last is_pending_user (adopt evt) prev ++ started_answer evt now ∷ []
      else fresh_pair evt now prev

  unfoldable pub reduce_next : StreamEvent → ℕ → List ChatMsg → List ChatMsg
  unfolding ensure_retry_start_notice update_logical_reply
  reduce_next evt now prev =
      if is_hidden_source evt.source
      then prev
      else update_logical_reply (ensure_retry_start_notice prev evt) evt now

  unfoldable pub reduce_done : StreamEvent → ℕ → Reduced → Reduced
  unfolding ensure_retry_start_notice update_logical_reply finish_side
  reduce_done evt now (prev, aborted) =
      let next = ensure_retry_start_notice prev evt in
      let msgs =
        if opt_eq evt.source (some "system")
        then finish_side evt now next
        else update_logical_reply next evt now in
      if is_hidden_source evt.source
      then (prev, aborted)
      else (msgs, remove_text evt.stream_id aborted)

  abbrev pub has_identity : StreamEvent → Bool
  has_identity evt = is_set evt.run_id || is_set evt.logical_id

  -- A `next` or `done` event that names its run or logical answer.
  unfoldable pub apply_identified : StreamEvent → ℕ → List ChatMsg → List ChatMsg
  unfolding update_logical_reply
  apply_identified evt now prev =
      if is_hidden_source evt.source then prev else update_logical_reply prev evt now

  unfoldable pub apply_stream : StreamEvent → ℕ → Reduced → Reduced
  unfolding reduce_started reduce_next reduce_done apply_identified identify
  apply_stream evt now (prev, aborted) = elim evt.phase [
    | started ↦ (map (identify evt) (reduce_started evt now prev), aborted)
    | next ↦
        if has_identity evt
        then (apply_identified evt now prev, aborted)
        else (reduce_next evt now prev, aborted)
    | done ↦
        if has_identity evt
        then (apply_identified evt now prev, aborted)
        else reduce_done evt now (prev, aborted)
  ]
