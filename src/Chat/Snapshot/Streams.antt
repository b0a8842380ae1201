-- ===== src/Chat/Snapshot/Streams.antt =====
-- applySnapshot of webui/src/stores/chatStore.ts: the bubbles of the streams that run.
use ga_hub.Prelude.{
  ℕ, String, Bool, true, false, not, ◌&&◌, ◌||◌, Option, none, some, List, [], ◌∷◌, ◌++◌,
  if◌then◌else◌, ltb, truthy, or_set, or_text, or_default, ◌==◌, ◌⧺◌,
}
use ga_hub.Reply.{next, done, TurnScanner, valid_turn_segments}
use ga_hub.Chat.Message.{ChatMsg, own, user, assistant, bare, is_hidden_source, epoch_milliseconds}
use ga_hub.Chat.Event.{StreamEvent, StreamSnapshot}
use ga_hub.Chat.Notice.{upsert_retry_notice, counted, is_recovery_source}
use ga_hub.Chat.Logical.{update_logical_reply}

abbrev pub snapshot_key : StreamSnapshot → String
snapshot_key s = or_text (or_set s.logical_id s.retry_of) s.stream_id

-- `retryNoticeEntries`: the strongest attempt that has been shown for a key.
abbrev pub Entries : Type 0
Entries = List (String × ℕ)

abbrev pub entry_of : String → Entries → Option ℕ
entry_of key [] = none
entry_of key ((k, n) ∷ entries) = if k == key then some n else entry_of key entries

abbrev pub notice_key : StreamSnapshot → String
notice_key s = or_text s.run_id "legacy" ⧺ ":" ⧺ snapshot_key s

abbrev pub exceeds : ℕ → Option ℕ → Bool
exceeds n none = true
exceeds n (some m) = ltb m n

abbrev pub reason_text : Option String → String
reason_text none = ""
reason_text (some s) = if truthy s then " · " ⧺ s else ""

unfoldable pub notice_label : StreamSnapshot → String
unfolding counted
notice_label s =
    "_自动重试请求"
    ⧺ (if s.done then "已完成" else "进行中")
    ⧺ "（"
    ⧺ counted (or_default s.retry_attempt 0) s.retry_max
    ⧺ reason_text s.retry_reason
    ⧺ "）。_"

abbrev pub snapshot_time : StreamSnapshot → Option ℕ
snapshot_time s = epoch_milliseconds (some (if s.done then s.finished_at else s.started_at))

-- The event that a recovery stream of a snapshot stands for.
abbrev pub recovery_event : StreamSnapshot → StreamEvent
recovery_event s = record {
  phase = if s.done then done else next;
  stream_id = s.stream_id;
  content = some s.content;
  turn_segs = s.turn_segs;
  source = some s.source;
  run_id = s.run_id;
  logical_id = s.logical_id;
  retry_of = s.retry_of;
  retry_attempt = none;
  retry_max = none;
  retry_reason = none;
  query = none;
  ts = none;
}

unfoldable pub snapshot_question : StreamSnapshot → ChatMsg
snapshot_question s =
    let base = bare user s.query in
    record base {
      logical_id = own s.logical_id;
      run_id = own s.run_id;
      stream_id = own (some s.stream_id);
      source = own (some s.source);
      timestamp = own (epoch_milliseconds (some s.started_at));
    }

unfoldable pub snapshot_answer : StreamSnapshot → ChatMsg
unfolding valid_turn_segments
snapshot_answer s =
    let base = bare assistant s.content in
    let turns = valid_turn_segments s.turn_segs s.content in
    record base {
      logical_id = own s.logical_id;
      run_id = own s.run_id;
      outcome = own s.outcome;
      turn_segments = own turns;
      segments = own (
          some (
            record {
              stream_id = s.stream_id;
              content = s.content;
              turn_segments = turns;
              archived = false;
              done = s.done;
            }
            ∷ []));
      stream_id = own (some s.stream_id);
      source = own (some s.source);
      streaming = own (some (not s.done));
      started_at = own (epoch_milliseconds (some s.started_at));
      timestamp = own (snapshot_time s);
    }

abbrev pub push_if : Bool → ChatMsg → List ChatMsg → List ChatMsg
push_if b m out = if b then out ++ m ∷ [] else out

abbrev pub has_answer : StreamSnapshot → Bool
has_answer s = truthy s.content || not s.done

unfoldable pub ordinary_stream : StreamSnapshot → List ChatMsg → List ChatMsg
unfolding snapshot_question snapshot_answer
ordinary_stream s out =
    push_if (has_answer s) (snapshot_answer s) (push_if (truthy s.query) (snapshot_question s) out)

module _ ⦃scanner : TurnScanner⦄ where
  abbrev pub shows_notice : StreamSnapshot → Entries → Bool
  shows_notice s entries =
      not s.done && exceeds (or_default s.retry_attempt 0) (entry_of (notice_key s) entries)

  unfoldable pub recovery_stream :
      StreamSnapshot → ℕ → List ChatMsg × Entries → List ChatMsg × Entries
  unfolding upsert_retry_notice notice_label update_logical_reply
  recovery_stream s now (out, entries) =
      let noticed =
        if shows_notice s entries
        then upsert_retry_notice out (snapshot_key s) (notice_label s)
            (epoch_milliseconds (some s.started_at)) (some s.stream_id) s.run_id
        else out in
      (
        if has_answer s
            then update_logical_reply noticed (recovery_event s) (or_default (snapshot_time s) now)
            else noticed,
        if shows_notice s entries
            then (notice_key s, or_default s.retry_attempt 0) ∷ entries
            else entries,
      )

  unfoldable pub apply_one : StreamSnapshot → ℕ → List ChatMsg × Entries → List ChatMsg × Entries
  unfolding recovery_stream ordinary_stream
  apply_one s now (out, entries) =
      if is_hidden_source (some s.source)
      then (out, entries)
      else if is_recovery_source (some s.source)
      then recovery_stream s now (out, entries)
      else (ordinary_stream s out, entries)

  apply_from : List StreamSnapshot → ℕ → List ChatMsg × Entries → List ChatMsg
  unfolding apply_one
  apply_from [] now state = state.0
  apply_from (s ∷ streams) now state = apply_from streams now (apply_one s now state)

  unfoldable pub apply_snapshot : List StreamSnapshot → ℕ → List ChatMsg
  unfolding apply_from
  apply_snapshot streams now = apply_from streams now ([], [])
