-- ===== src/Chat/Event.antt =====
-- The frames of the chat socket: ChatWSOut of webui/src/api/types.ts, the optional fields that no
-- handler reads left out.
use ga_hub.Prelude.{ℕ, String, Bool, Option, List}
use ga_hub.Reply.{Phase}
use ga_hub.Chat.Message.{Outcome}

-- `started`, `next` and `done` events. A `started` event has no content, and it alone has a query.
pub record StreamEvent : Type 0 where
  pub phase : Phase
  pub stream_id : String
  pub content : Option String
  pub turn_segs : Option (List String)
  pub source : Option String
  pub run_id : Option String
  pub logical_id : Option String
  pub retry_of : Option String
  pub retry_attempt : Option ℕ
  pub retry_max : Option ℕ
  pub retry_reason : Option String
  pub query : Option String
  pub ts : Option ℕ

-- `retry`, `retry_scheduled` and `retry_exhausted` events.
pub data RetryKind : Type 0 where
  retrying scheduled exhausted : RetryKind

pub record RetryEvent : Type 0 where
  pub kind : RetryKind
  pub stream_id : String
  pub source : Option String
  pub run_id : Option String
  pub logical_id : Option String
  pub attempt : ℕ
  pub max_attempts : ℕ
  pub delay_seconds : Option ℕ
  pub reason_label : Option String
  pub retry_reason : Option String

pub record RuntimeEvent : Type 0 where
  pub status : String
  pub run_id : Option String
  pub completed_run_id : Option String
  pub outcome : Option Outcome

-- ChatStreamSnapshot.
pub record StreamSnapshot : Type 0 where
  pub stream_id : String
  pub source : String
  pub query : String
  pub content : String
  pub turn_segs : Option (List String)
  pub done : Bool
  pub started_at : ℕ
  pub finished_at : ℕ
  pub logical_id : Option String
  pub run_id : Option String
  pub outcome : Option Outcome
  pub retry_attempt : Option ℕ
  pub retry_max : Option ℕ
  pub retry_of : Option String
  pub retry_reason : Option String

pub record ActiveMessage : Type 0 where
  pub stream_id : String
  pub content : String
  pub turn_segs : Option (List String)
  pub done : Bool
  pub query : Option String
  pub ts : Option ℕ
  pub source : Option String
  pub run_id : Option String
  pub logical_id : Option String
  pub retry_of : Option String
  pub retry_attempt : Option ℕ
  pub retry_max : Option ℕ
  pub retry_reason : Option String

pub record SnapshotEvent : Type 0 where
  pub streams : Option (List StreamSnapshot)
  pub status : Option String
  pub run_id : Option String
  pub completed_run_id : Option String
  pub outcome : Option Outcome
  pub runtime : Option RuntimeEvent
  pub active_message : Option ActiveMessage

pub record ErrorEvent : Type 0 where
  pub stream_id : String
  pub code : String
  pub detail : String

pub data Event : Type 0 where
  session_runtime : RuntimeEvent → Event
  snapshot : SnapshotEvent → Event
  reset : Event
  stream : StreamEvent → Event
  retry : RetryEvent → Event
  error : ErrorEvent → Event
  aborted : Event
  rewound : List String → Event
  resync_required replay_done pong heartbeat : Event

-- An event with the cursor that ChatWSMeta adds to it.
pub record Frame : Type 0 where
  pub event : Event
  pub event_id : Option ℕ
  pub epoch : Option String
