-- ===== src/Chat/Live.antt =====
-- The connection of the shown session: what `start` of webui/src/stores/chatStore.ts closes over,
-- and its handlers. `World` is the store with the `runtime` singletons. A callback carries the
-- number of the `start` call that made it, and `live` has the number of the newest one: that is
-- the source's `active` flag. Microtasks are queued in `tasks`.
pub mod Laws
pub mod Waiting
use ga_hub.Prelude.{
  ℕ, suc, ◌+◌, ◌-◌, String, Bool, true, false, not, ◌&&◌, ◌||◌, Option, none, some, List, [], ◌∷◌,
  ◌++◌, map, any, filter, if◌then◌else◌, leb, eqb, opt_eq, is_some, ◌==◌,
}
use ga_hub.Reply.{Phase, started, next, done, TurnScanner}
use ga_hub.Chat.Message.{ChatMsg, any_streaming}
use ga_hub.Chat.Event.{
  StreamEvent, RetryKind, retrying, scheduled, exhausted, RetryEvent, Event, Frame, session_runtime,
  snapshot, reset, stream, retry, error, aborted, rewound, resync_required, replay_done, pong,
  heartbeat, SnapshotEvent,
}
use ga_hub.Chat.Snapshot.{apply_event}
use ga_hub.Chat.State.{
  ChatState, Connection, Cursors, commit_cursor, delete_cursor, loading_history, closed,
}

pub record Live : Type 0 where
  pub start_id : ℕ
  pub session : String
  pub history_ready : Bool
  pub buffered : List Frame
  pub pending : List (String × Frame)  -- `pendingNext`, by stream
  pub timer : Bool
  pub last_flush : ℕ

pub data Task : Type 0 where
  restart : (generation : ℕ) → (session : String) → Task
  reload : (start_id : ℕ) → (session : String) → Task
  force_restart : (session : String) → Task

pub record World : Type 0 where
  pub state : ChatState
  pub aborted_streams : List String
  pub cursors : Cursors
  pub generation : ℕ
  pub live : Option Live
  pub older_request : Option ℕ  -- `olderHistoryAbort`
  pub older_count : ℕ
  pub tasks : List Task

abbrev pub flush_ms : ℕ
flush_ms = 100

-- `pendingNext.set(sid, frame)`.
unfoldable pub put_pending : String → Frame → List (String × Frame) → List (String × Frame)
put_pending sid frame [] = (sid, frame) ∷ []
put_pending sid frame ((s, f) ∷ pending) =
    if s == sid then (s, frame) ∷ pending else (s, f) ∷ put_pending sid frame pending

abbrev pub shows : String → World → Bool
shows session w = opt_eq w.state.session_id (some session)

abbrev commit_all : String → List (String × Frame) → Cursors → Cursors
commit_all session [] cursors = cursors
commit_all session ((s, f) ∷ pending) cursors =
    commit_all session pending (commit_cursor session f cursors)

abbrev kind_pending : RetryKind → Bool
kind_pending scheduled = true
kind_pending _ = false

abbrev phase_pending : Phase → Bool → Bool
phase_pending next old = old
phase_pending _ old = false

-- `retryPending` after an event that is neither a snapshot nor a barrier.
abbrev pub retry_after : Event → Bool → Bool
retry_after (retry evt) old = kind_pending evt.kind
retry_after (stream evt) old = phase_pending evt.phase old
retry_after aborted old = false
retry_after _ old = old

-- The pending frames are gone, and the timer with them.
abbrev pub quiet : Live → Live
quiet l = record l { pending = []; timer = false }

module _ ⦃scanner : TurnScanner⦄ where
  -- An event changes the transcript of the shown session and the aborted streams.
  unfoldable pub apply_to : Event → ℕ → World → World
  unfolding apply_event
  apply_to event now w =
      let (msgs, streams) = apply_event event now (w.state.msgs, w.aborted_streams) in
      let st = w.state in
      record w {
        state = record st { msgs = msgs; streaming = any_streaming msgs };
        aborted_streams = streams;
      }

  unfoldable pub apply_pending : List (String × Frame) → ℕ → World → World
  unfolding apply_to
  apply_pending [] now w = w
  apply_pending ((s, f) ∷ pending) now w = apply_pending pending now (apply_to f.event now w)

  -- `flushNext`.
  unfoldable pub flush_next : Live → ℕ → World → World
  unfolding apply_pending commit_cursor
  flush_next l now w =
      let idle_live = record l { timer = false } in
      let flushed = record l { pending = []; timer = false; last_flush = now } in
      let w' = if shows l.session w then apply_pending l.pending now w else w in
      elim l.pending [
        | [] ↦ record w { live = some idle_live }
        | p ∷ pending ↦ record w' {
          live = some flushed;
          cursors = commit_all l.session (p ∷ pending) w'.cursors;
        }
      ]

  unfoldable pub on_snapshot : Live → Frame → ℕ → World → World
  unfolding apply_to commit_cursor
  on_snapshot l frame now w =
      let w' = apply_to frame.event now w in
      record w' { live = some (quiet l); cursors = commit_cursor l.session frame w'.cursors }

  -- A `next` frame waits for the end of the quiet window, or is shown at once.
  unfoldable pub on_next : Live → StreamEvent → Frame → ℕ → World → World
  unfolding put_pending flush_next
  on_next l evt frame now w =
      let l' = record l { pending = put_pending evt.stream_id frame l.pending } in
      let waiting = record l' { timer = true } in
      if leb flush_ms (now - l.last_flush)
      then flush_next l' now w
      else record w { live = some waiting }

  -- `sock.close()` tells the listener, which still serves the connection.
  unfoldable pub on_resync : Live → World → World
  unfolding delete_cursor
  on_resync l w =
      let st = w.state in
      let l' = record l { pending = []; timer = false; history_ready = false } in
      record w {
        state = record st { sock = false; conn = closed; history_status = loading_history };
        cursors = delete_cursor l.session w.cursors;
        live = some l';
        tasks = w.tasks ++ restart w.generation l.session ∷ [];
      }

  -- Pending frames are shown before what follows them.
  unfoldable pub flush_first : Live → ℕ → World → World
  unfolding flush_next
  flush_first l now w = elim l.pending [ [] ↦ w | p ∷ pending ↦ flush_next l now w ]

  abbrev commit_to : Live → Frame → World → World
  commit_to l frame w = record w { cursors = commit_cursor l.session frame w.cursors }

  unfoldable pub on_replay_done : Live → Frame → ℕ → World → World
  unfolding flush_first commit_cursor
  on_replay_done l frame now w =
      let w' = commit_to l frame (flush_first l now w) in
      let st = w'.state in
      if shows l.session w' then record w' { state = record st { projection_ready = true } } else w'

  unfoldable pub on_rewound : Live → Frame → ℕ → World → World
  unfolding flush_first apply_to commit_cursor
  on_rewound l frame now w =
      let w' = commit_to l frame (apply_to frame.event now (flush_first l now w)) in
      record w' { tasks = w'.tasks ++ reload l.start_id l.session ∷ [] }

  unfoldable pub on_other : Live → Frame → ℕ → World → World
  unfolding flush_first apply_to commit_cursor
  on_other l frame now w =
      let w' = apply_to frame.event now (flush_first l now w) in
      let st = w'.state in
      commit_to l frame (record w' {
        state = record st { retry_pending = retry_after frame.event st.retry_pending };
      })

  dispatch : Live → Event → Frame → ℕ → World → World
  unfolding on_snapshot on_next on_resync on_replay_done on_rewound on_other
  dispatch l (snapshot evt) frame now w = on_snapshot l frame now w
  dispatch l resync_required frame now w = on_resync l w
  dispatch l replay_done frame now w = on_replay_done l frame now w
  dispatch l (rewound sids) frame now w = on_rewound l frame now w
  dispatch l (stream evt) frame now w = elim evt.phase [
    | next ↦ on_next l evt frame now w
    | _ ↦ on_other l frame now w
  ]
  dispatch l event frame now w = on_other l frame now w

  -- `handleReadyMessage` of the newest connection.
  unfoldable pub handle_ready : Frame → ℕ → World → World
  unfolding dispatch
  handle_ready frame now w = elim w.live [
    | none ↦ w
    | some l ↦ if shows l.session w then dispatch l frame.event frame now w else w
  ]

  unfoldable pub handle_all : List Frame → ℕ → World → World
  unfolding handle_ready
  handle_all [] now w = w
  handle_all (f ∷ frames) now w = handle_all frames now (handle_ready f now w)

  abbrev receive : Live → Frame → ℕ → World → World
  receive l frame now w =
      let l' = record l { buffered = l.buffered ++ frame ∷ [] } in
      let buffering = record w { live = some l' } in
      if l.history_ready then handle_ready frame now w else buffering

  -- `sock.onMessage`, of the connection that `start_id` made.
  unfoldable pub on_message : ℕ → Frame → ℕ → World → World
  unfolding handle_ready
  on_message start_id frame now w = elim w.live [
    | none ↦ w
    | some l ↦ if eqb l.start_id start_id && shows l.session w then receive l frame now w else w
  ]

  -- The frames of one connection, as they arrive.
  unfoldable pub on_messages : ℕ → List Frame → ℕ → World → World
  unfolding on_message
  on_messages start_id [] now w = w
  on_messages start_id (f ∷ frames) now w =
      on_messages start_id frames now (on_message start_id f now w)

  -- The timer of the quiet window.
  unfoldable pub on_timer : ℕ → ℕ → World → World
  unfolding flush_next
  on_timer start_id now w = elim w.live [
    | none ↦ w
    | some l ↦ if eqb l.start_id start_id && l.timer then flush_next l now w else w
  ]

unfoldable pub on_state : ℕ → Connection → World → World
on_state start_id conn w = elim w.live [
  | none ↦ w
  | some l ↦
      let st = w.state in
      if eqb l.start_id start_id && shows l.session w
      then record w { state = record st { conn = conn } }
      else w
]
