-- ===== src/Conductor/Rows.antt =====
-- What webui/src/stores/conductorStore.ts keeps, and the activity rows that it makes of events.
use ga_hub.Prelude.{
  ℕ, ◌+◌, ◌*◌, ◌/◌, String, Option, none, some, List, [], ◌∷◌, if◌then◌else◌, ltb, or_default, ◌==◌,
}

-- What the page knows of a message, of a worker and of an activity row; what it only hands on of a
-- worker (times, review, attempt) is left out.
pub record ConductorChatMessage : Type 0 where
  pub id : String
  pub role : String
  pub msg : String
  pub ts : ℕ
  pub request_id : Option String

pub record ConductorSubagent : Type 0 where
  pub id : String
  pub prompt : String
  pub reply : String
  pub status : String

pub record ConductorActivityEvent : Type 0 where
  pub id : String
  pub request_id : String
  pub kind : String
  pub at : ℕ
  pub at_ms : ℕ
  pub text : String
  pub worker_id : Option String

abbrev pub activity_limit : ℕ
activity_limit = 4000

-- `snapshot_revision` is `none` unless it is an integer that is not negative.
pub record SnapshotVersion : Type 0 where
  pub boot_id : Option String
  pub snapshot_revision : Option ℕ

abbrev pub worker_event_kinds : List (String × String)
worker_event_kinds =
    ("spawned", "worker_spawned")
    ∷ ("started", "worker_started")
    ∷ ("reworked", "worker_reworked")
    ∷ ("completed", "worker_completed")
    ∷ ("pending_review", "worker_completed")
    ∷ ("failed", "worker_failed")
    ∷ ("timeout_total", "worker_timeout")
    ∷ ("accepted", "worker_accepted")
    ∷ ("rejected", "worker_rejected")
    ∷ ("cancelled", "worker_cancelled")
    ∷ ("killed", "worker_killed")
    ∷ []

abbrev kind_of : String → List (String × String) → Option String
kind_of name [] = none
kind_of name ((event, kind) ∷ kinds) = if event == name then some kind else kind_of name kinds

-- `WORKER_EVENT_KIND[name]`.
abbrev pub worker_event_kind : String → Option String
worker_event_kind name = kind_of name worker_event_kinds

abbrev pub request_outcome_kind : String → String
request_outcome_kind status =
    if status == "ok"
    then "turn_completed"
    else if status == "yielded"
    then "turn_yielded"
    else "turn_failed"

-- `typeof at === 'number' && at > 0 ? at : Date.now() / 1000`.
abbrev pub stamp_of : Option ℕ → ℕ → ℕ
stamp_of none now = now * 1000
stamp_of (some at) now = if ltb 0 at then at else now * 1000

-- `atMs ?? Math.round(ts * 1000)`.
abbrev pub stamp_ms : Option ℕ → ℕ → ℕ
stamp_ms at_ms ts = or_default at_ms ((ts + 500) / 1000)

pub record WorkerEvent : Type 0 where
  pub id : String
  pub name : String
  pub request_id : Option String
  pub at : Option ℕ
  pub at_ms : Option ℕ
  pub text : String
  pub worker_id : Option String

abbrev pub worker_row : WorkerEvent → ℕ → String → ConductorActivityEvent
worker_row event ts kind = record {
  id = event.id;
  request_id = or_default event.request_id "";
  kind = kind;
  at = ts;
  at_ms = stamp_ms event.at_ms ts;
  text = event.text;
  worker_id = event.worker_id;
}

pub record WorkflowEvent : Type 0 where
  pub request_id : String
  pub kind : String
  pub at : Option ℕ
  pub at_ms : Option ℕ
  pub text : Option String

pub record TurnEvent : Type 0 where
  pub request_id : String
  pub status : String
  pub at : Option ℕ
  pub at_ms : Option ℕ
