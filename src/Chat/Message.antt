-- ===== src/Chat/Message.antt =====
-- ChatMsg of webui/src/stores/chatStore.ts. An optional field is a `Slot`, since a spread
-- `{ ...old, ...msg }` lets a field that `msg` has win even where its value is undefined. `null`
-- and undefined are both `none`. Times are whole milliseconds; fractions are not modelled.
use ga_hub.Prelude.{
  ℕ, ◌*◌, String, Bool, true, false, Option, none, some, List, [], any, ltb, eqb, if◌then◌else◌,
  is_some, opt_eq, ◌==◌,
}
use ga_hub.Reply.{ReplySegment}

pub data Slot {ℓ} (A : Type ℓ) : Type ℓ where
  absent : Slot A
  own : Option A → Slot A

abbrev pub read {ℓ} : {A : Type ℓ} → Slot A → Option A
read absent = none
read (own o) = o

-- The field of `{ ...old, ...new }`.
abbrev pub overlay {ℓ} : {A : Type ℓ} → Slot A → Slot A → Slot A
overlay old absent = old
overlay old (own o) = own o

pub data Role : Type 0 where
  user assistant system : Role

abbrev pub is_user : Role → Bool
is_user user = true
is_user _ = false

abbrev pub is_assistant : Role → Bool
is_assistant assistant = true
is_assistant _ = false

abbrev pub is_system : Role → Bool
is_system system = true
is_system _ = false

pub data Outcome : Type 0 where
  completed cancelled failed : Outcome

abbrev pub is_cancelled : Outcome → Bool
is_cancelled cancelled = true
is_cancelled _ = false

pub record Attachment : Type 0 where
  pub path : String
  pub preview : Option String

pub record ChatMsg : Type 0 where
  pub role : Role
  pub content : String
  pub turn_segments : Slot (List String)
  pub logical_id : Slot String
  pub run_id : Slot String
  pub outcome : Slot Outcome
  pub recovery_notice : Slot String
  pub recovery_offset : Slot ℕ
  pub recovery_stream_id : Slot String
  pub segments : Slot (List ReplySegment)
  pub timestamp : Slot ℕ
  pub started_at : Slot ℕ
  pub finished_at : Slot ℕ
  pub stream_id : Slot String
  pub source : Slot String
  pub streaming : Slot Bool
  pub stopped : Slot Bool
  pub attachments : Slot (List Attachment)
  pub pending_webui : Slot Bool
  pub pending_webui_id : Slot String

-- An object literal with the two required fields alone.
abbrev pub bare : Role → String → ChatMsg
bare role content = record {
  role = role;
  content = content;
  turn_segments = absent;
  logical_id = absent;
  run_id = absent;
  outcome = absent;
  recovery_notice = absent;
  recovery_offset = absent;
  recovery_stream_id = absent;
  segments = absent;
  timestamp = absent;
  started_at = absent;
  finished_at = absent;
  stream_id = absent;
  source = absent;
  streaming = absent;
  stopped = absent;
  attachments = absent;
  pending_webui = absent;
  pending_webui_id = absent;
}

-- `{ ...old, ...msg }`.
unfoldable pub spread : ChatMsg → ChatMsg → ChatMsg
spread old msg = record {
  role = msg.role;
  content = msg.content;
  turn_segments = overlay old.turn_segments msg.turn_segments;
  logical_id = overlay old.logical_id msg.logical_id;
  run_id = overlay old.run_id msg.run_id;
  outcome = overlay old.outcome msg.outcome;
  recovery_notice = overlay old.recovery_notice msg.recovery_notice;
  recovery_offset = overlay old.recovery_offset msg.recovery_offset;
  recovery_stream_id = overlay old.recovery_stream_id msg.recovery_stream_id;
  segments = overlay old.segments msg.segments;
  timestamp = overlay old.timestamp msg.timestamp;
  started_at = overlay old.started_at msg.started_at;
  finished_at = overlay old.finished_at msg.finished_at;
  stream_id = overlay old.stream_id msg.stream_id;
  source = overlay old.source msg.source;
  streaming = overlay old.streaming msg.streaming;
  stopped = overlay old.stopped msg.stopped;
  attachments = overlay old.attachments msg.attachments;
  pending_webui = overlay old.pending_webui msg.pending_webui;
  pending_webui_id = overlay old.pending_webui_id msg.pending_webui_id;
}

-- `!!flag` of an optional flag.
abbrev pub is_on : Slot Bool → Bool
is_on absent = false
is_on (own none) = false
is_on (own (some b)) = b

-- `slot === value`, where `value` is a plain text.
abbrev pub slot_is : Slot String → String → Bool
slot_is slot s = opt_eq (read slot) (some s)

abbrev pub has_outcome : ChatMsg → Bool
has_outcome m = is_some (read m.outcome)

-- The segments, none where the field is missing.
abbrev pub parts_of : Slot (List ReplySegment) → List ReplySegment
parts_of absent = []
parts_of (own none) = []
parts_of (own (some parts)) = parts

abbrev pub is_hidden_source : Option String → Bool
is_hidden_source none = false
is_hidden_source (some s) = s == "wechat"

-- `epochMilliseconds`: 0 and a missing value are null, seconds are scaled.
abbrev pub epoch_milliseconds : Option ℕ → Option ℕ
epoch_milliseconds none = none
epoch_milliseconds (some v) =
    if eqb v 0 then none else if ltb v 1000000000000 then some (v * 1000) else some v

-- Transport and logical ids mean something only inside their run.
abbrev pub belongs_to_run : ChatMsg → Option String → Bool
belongs_to_run m run = opt_eq (read m.run_id) run

abbrev pub any_streaming : List ChatMsg → Bool
any_streaming msgs = any (λ m. is_on m.streaming) msgs
