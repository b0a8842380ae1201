-- ===== src/Chat/Snapshot.antt =====
-- applySnapshot, mergeSessionSnapshot, settleSnapshot and the whole of applyEvent of
-- webui/src/stores/chatStore.ts.
mod Streams
unfoldable pub use Streams.*
use ga_hub.Prelude.{
  ℕ, String, Bool, true, false, not, ◌&&◌, ◌||◌, Option, none, some, List, [], ◌∷◌, ◌++◌, map,
  filter, find?, if◌then◌else◌, ltb, truthy, is_set, or_set, or_text, or_else, or_default, ◌==◌,
  ◌⧺◌,
}
use ga_hub.Reply.{next, done, TurnScanner, valid_turn_segments}
use ga_hub.Chat.Message.{ChatMsg, own, user, assistant, bare, is_hidden_source, epoch_milliseconds}
use ga_hub.Chat.Event.{
  StreamEvent, RuntimeEvent, StreamSnapshot, ActiveMessage, SnapshotEvent, Event, session_runtime,
  snapshot, reset, stream, retry, error, aborted, rewound,
}
use ga_hub.Chat.Notice.{upsert_retry_notice, counted, is_recovery_source}
use ga_hub.Chat.Logical.{update_logical_reply}
use ga_hub.Chat.Reducer.{
  Reduced, apply_runtime, apply_stream, reduce_retry, reduce_error, reduce_aborted, reduce_rewound,
}
use ga_hub.Chat.Order.{order_conversation_turns}
use ga_hub.Chat.Merge.{merge_live, is_history}

abbrev snapshot_key : StreamSnapshot → String
snapshot_key s = or_text (or_set s.logical_id s.retry_of) s.stream_id

abbrev runtime_of : SnapshotEvent → Option RuntimeEvent → RuntimeEvent
runtime_of event none = record {
  status = or_default event.status "";
  run_id = event.run_id;
  completed_run_id = event.completed_run_id;
  outcome = event.outcome;
}
runtime_of event (some r) = record {
  status = r.status;
  run_id = r.run_id;
  completed_run_id = or_else r.completed_run_id event.completed_run_id;
  outcome = or_else r.outcome event.outcome;
}

unfoldable pub settle_snapshot : SnapshotEvent → ℕ → List ChatMsg → List ChatMsg
unfolding apply_runtime
settle_snapshot event now msgs = apply_runtime (runtime_of event event.runtime) now msgs

abbrev first_or : ChatMsg → List ChatMsg → ChatMsg
first_or m [] = m
first_or m (x ∷ xs) = x

abbrev settle_archived : SnapshotEvent → ℕ → ChatMsg → ChatMsg
settle_archived event now m =
    if is_history m then first_or m (settle_snapshot event now (m ∷ [])) else m

abbrev is_stream : String → StreamSnapshot → Bool
is_stream sid s = s.stream_id == sid

abbrev empty_stream : ActiveMessage → StreamSnapshot
empty_stream active = record {
  stream_id = active.stream_id;
  source = "webui";
  query = "";
  content = "";
  turn_segs = none;
  done = false;
  started_at = 0;
  finished_at = 0;
  logical_id = none;
  run_id = none;
  outcome = none;
  retry_attempt = none;
  retry_max = none;
  retry_of = none;
  retry_reason = none;
}

abbrev same_text : ActiveMessage → Option StreamSnapshot → Option (List String)
same_text active none = none
same_text active (some existing) =
    if active.content == existing.content then existing.turn_segs else none

-- The stream of the active message, over what the snapshot lists of it.
unfoldable pub active_stream :
    SnapshotEvent → ActiveMessage → ℕ → Option StreamSnapshot → StreamSnapshot
active_stream event active ts existing =
    let base = or_default existing (empty_stream active) in
    record base {
      run_id = or_set active.run_id event.run_id;
      logical_id = or_set active.logical_id base.logical_id;
      retry_of = or_set active.retry_of base.retry_of;
      retry_attempt = or_else active.retry_attempt base.retry_attempt;
      retry_max = or_else active.retry_max base.retry_max;
      retry_reason = or_set active.retry_reason base.retry_reason;
      stream_id = active.stream_id;
      source = or_default active.source base.source;
      query = or_default active.query "";
      started_at = ts;
      finished_at = base.finished_at;
      content = active.content;
      turn_segs = or_else active.turn_segs (same_text active existing);
      done = active.done;
    }

abbrev active_event : ActiveMessage → StreamEvent
active_event active = record {
  phase = if active.done then done else next;
  stream_id = active.stream_id;
  content = some active.content;
  turn_segs = active.turn_segs;
  source = active.source;
  run_id = active.run_id;
  logical_id = active.logical_id;
  retry_of = active.retry_of;
  retry_attempt = none;
  retry_max = none;
  retry_reason = none;
  query = none;
  ts = none;
}

abbrev asked_at : ActiveMessage → Option ℕ
asked_at active = if is_set active.query then active.ts else none

abbrev active_streams : SnapshotEvent → ActiveMessage → ℕ → List StreamSnapshot
active_streams event active ts =
    let streams = or_default event.streams [] in
    filter (λ s. not (is_stream active.stream_id s)) streams
    ++ active_stream event active ts (find? (is_stream active.stream_id) streams) ∷ []

module _ ⦃scanner : TurnScanner⦄ where
  abbrev lay_streams : Option (List StreamSnapshot) → ℕ → List ChatMsg → List ChatMsg
  lay_streams none now base = base
  lay_streams (some streams) now base = merge_live base (apply_snapshot streams now)

  abbrev lay_active : Option ActiveMessage → ℕ → Reduced → Reduced
  lay_active none now state = state
  lay_active (some active) now state = apply_stream (active_event active) now state

  -- The bubbles before the run is settled and the turns are ordered.
  unfoldable pub lay_snapshot : SnapshotEvent → Option ActiveMessage → ℕ → Reduced → Reduced
  unfolding apply_snapshot merge_live apply_stream active_stream
  lay_snapshot event none now (base, streams) = (lay_streams event.streams now base, streams)
  lay_snapshot event (some active) now (base, streams) = elim (asked_at active) [
    | none ↦ lay_active (some active) now (lay_streams event.streams now base, streams)
    | some ts ↦ (merge_live base (apply_snapshot (active_streams event active ts) now), streams)
  ]

  unfoldable pub merge_session_snapshot : SnapshotEvent → ℕ → Reduced → Reduced
  unfolding lay_snapshot settle_snapshot order_conversation_turns
  merge_session_snapshot event now (prev, streams) =
      let base = map (settle_archived event now) prev in
      let (msgs, left) = lay_snapshot event event.active_message now (base, streams) in
      (order_conversation_turns (settle_snapshot event now msgs), left)

  unfoldable pub apply_event : Event → ℕ → Reduced → Reduced
  unfolding merge_session_snapshot apply_runtime apply_stream reduce_retry reduce_error
      reduce_aborted reduce_rewound
  apply_event (session_runtime evt) now (prev, streams) = (apply_runtime evt now prev, streams)
  apply_event (snapshot evt) now state = merge_session_snapshot evt now state
  apply_event reset now (prev, streams) = ([], streams)
  apply_event (stream evt) now state = apply_stream evt now state
  apply_event (retry evt) now (prev, streams) = (reduce_retry evt now prev, streams)
  apply_event (error evt) now (prev, streams) = (reduce_error evt now (prev, streams), streams)
  apply_event aborted now state = reduce_aborted now state
  apply_event (rewound sids) now (prev, streams) = (reduce_rewound sids prev, streams)
  apply_event _ now state = state
