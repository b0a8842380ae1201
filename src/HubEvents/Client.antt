-- ===== src/HubEvents/Client.antt =====
-- The client of webui/src/runtime/hubEventClient.ts: its subscriptions, its cursor and what it does with a
-- message and with a state of its transport.
use ga_hub.Prelude.{
  ℕ, suc, String, Bool, true, false, not, ◌&&◌, Option, none, some, List, [], ◌∷◌, ◌++◌, map,
  filter, if◌then◌else◌, leb, eqb, is_some, truthy, decimal, starts_with, ◌==◌,
}
use ga_hub.Socket.{SocketState, closed, connecting, open_now, eq_state}

abbrev pub control_event_prefixes : List String
control_event_prefixes =
    "agent:" ∷ "session:" ∷ "wechat:" ∷ "conductor:" ∷ "autonomous:" ∷ "task:" ∷ []

-- An event: a topic that is not a text is `none`, as are an id that is not a safe integer from 0 on and
-- an epoch that is not a text.
pub record BusEvent : Type 0 where
  pub topic : Option String
  pub payload : String
  pub event_id : Option ℕ
  pub epoch : Option String

-- `HubEventMessage`; `other` is a value that is no object.
pub data HubEventMessage : Type 0 where
  resync_required : (reason epoch : String) → HubEventMessage
  replay_done : (event_id : Option ℕ) → (epoch : String) → HubEventMessage
  bus_event : (event : BusEvent) → HubEventMessage
  other : HubEventMessage

pub record EventCursor : Type 0 where
  pub event_id : ℕ
  pub epoch : String

-- `hasCursorMetadata`, with the metadata.
abbrev pub cursor_metadata : Option ℕ → Option String → Option EventCursor
cursor_metadata none epoch = none
cursor_metadata (some id) none = none
cursor_metadata (some id) (some epoch) =
    if truthy epoch then some (record { event_id = id; epoch = epoch }) else none

-- The calls of the handlers stand with the handler's number, the newest first.
pub record HubEventClient : Type 0 where
  pub next_subscriber_id : ℕ
  pub state : SocketState
  pub cursor : Option EventCursor
  pub accepting_events : Bool
  pub event_handlers : List (ℕ × String)
  pub state_handlers : List ℕ
  pub control_handlers : List ℕ
  pub event_calls : List (ℕ × BusEvent)
  pub state_calls : List (ℕ × SocketState)
  pub control_calls : List (ℕ × HubEventMessage)

abbrev pub new_client : HubEventClient
new_client = record {
  next_subscriber_id = 1;
  state = closed;
  cursor = none;
  accepting_events = false;
  event_handlers = [];
  state_handlers = [];
  control_handlers = [];
  event_calls = [];
  state_calls = [];
  control_calls = [];
}

-- Handlers are called in the order in which they subscribed.
abbrev pub call_all {ℓ} : {A : Type ℓ} → A → List ℕ → List (ℕ × A) → List (ℕ × A)
call_all a [] calls = calls
call_all a (i ∷ ids) calls = call_all a ids ((i, a) ∷ calls)

abbrev without_id : ℕ → List ℕ → List ℕ
without_id i ids = filter (λ j. not (eqb j i)) ids

abbrev without_handler : ℕ → List (ℕ × String) → List (ℕ × String)
without_handler i handlers = filter (λ h. not (eqb h.0 i)) handlers

unfoldable pub set_state : SocketState → HubEventClient → HubEventClient
set_state s c =
    if eq_state c.state s
    then c
    else record c { state = s; state_calls = call_all s c.state_handlers c.state_calls }

unfoldable pub subscribe : String → HubEventClient → HubEventClient
subscribe prefix c = record c {
  next_subscriber_id = suc c.next_subscriber_id;
  event_handlers = c.event_handlers ++ (c.next_subscriber_id, prefix) ∷ [];
}

unfoldable pub unsubscribe : ℕ → HubEventClient → HubEventClient
unsubscribe i c = record c { event_handlers = without_handler i c.event_handlers }

-- `subscribeState` tells the state at once.
unfoldable pub subscribe_state : HubEventClient → HubEventClient
subscribe_state c = record c {
  next_subscriber_id = suc c.next_subscriber_id;
  state_handlers = c.state_handlers ++ c.next_subscriber_id ∷ [];
  state_calls = (c.next_subscriber_id, c.state) ∷ c.state_calls;
}

unfoldable pub unsubscribe_state : ℕ → HubEventClient → HubEventClient
unsubscribe_state i c = record c { state_handlers = without_id i c.state_handlers }

unfoldable pub subscribe_control : HubEventClient → HubEventClient
subscribe_control c = record c {
  next_subscriber_id = suc c.next_subscriber_id;
  control_handlers = c.control_handlers ++ c.next_subscriber_id ∷ [];
}

unfoldable pub unsubscribe_control : ℕ → HubEventClient → HubEventClient
unsubscribe_control i c = record c { control_handlers = without_id i c.control_handlers }

abbrev cursor_query : Option EventCursor → List (String × String)
cursor_query none = []
cursor_query (some at) = ("after_event_id", decimal at.event_id) ∷ ("epoch", at.epoch) ∷ []

-- The parameters of `connectionPath`.
unfoldable pub connection_query : List String → HubEventClient → List (String × String)
connection_query prefixes c =
    map (λ prefix. ("prefix", prefix)) prefixes
    ++ ("cursor", "1") ∷ ("replay", "0") ∷ cursor_query c.cursor

-- `cursor?.epoch === epoch && eventId <= cursor.event_id`.
abbrev pub is_behind : Option EventCursor → EventCursor → Bool
is_behind none new = false
is_behind (some at) new = at.epoch == new.epoch && leb new.event_id at.event_id

-- `advanceCursor`: whether it advanced stands first.
unfoldable pub advance_cursor : EventCursor → HubEventClient → Bool × HubEventClient
advance_cursor new c =
    if is_behind c.cursor new then (false, c) else (true, record c { cursor = some new })

abbrev subscribed : String → List (ℕ × String) → List ℕ
subscribed topic [] = []
subscribed topic ((i, prefix) ∷ handlers) =
    let rest = subscribed topic handlers in if starts_with topic prefix then i ∷ rest else rest

unfoldable pub dispatch : String → BusEvent → HubEventClient → HubEventClient
dispatch topic event c = record c {
  event_calls = call_all event (subscribed topic c.event_handlers) c.event_calls;
}

abbrev pub tell_control : HubEventMessage → HubEventClient → HubEventClient
tell_control message c = record c {
  control_calls = call_all message c.control_handlers c.control_calls;
}

-- An event with a cursor; its topic is a text.
unfoldable pub handle_cursor_event :
    EventCursor → String → BusEvent → HubEventClient → HubEventClient
unfolding advance_cursor dispatch
handle_cursor_event at topic event c =
    let advanced = advance_cursor at c in
    if not c.accepting_events && not (is_some c.cursor)
    then c
    else if not advanced.0
    then c
    else dispatch topic event advanced.1

-- An event without one, from an older server; `transport` is the socket's state.
unfoldable pub handle_plain_event :
    SocketState → String → BusEvent → HubEventClient → HubEventClient
unfolding dispatch set_state
handle_plain_event transport topic event c = dispatch topic event (
    if eq_state transport open_now
    then set_state open_now (record c { accepting_events = true })
    else c)

unfoldable pub handle_event :
    SocketState → Option String → Option EventCursor → BusEvent → HubEventClient → HubEventClient
handle_event transport none at event c = c
handle_event transport (some topic) none event c = handle_plain_event transport topic event c
handle_event transport (some topic) (some at) event c = handle_cursor_event at topic event c

unfoldable pub handle_replay_done : Option ℕ → String → HubEventClient → HubEventClient
unfolding advance_cursor set_state
handle_replay_done none epoch c = c
handle_replay_done (some id) epoch c =
    let advanced = (advance_cursor (record { event_id = id; epoch = epoch }) c).1 in
    if truthy epoch then set_state open_now (record advanced { accepting_events = true }) else c

unfoldable pub handle_message : SocketState → HubEventMessage → HubEventClient → HubEventClient
unfolding set_state handle_replay_done handle_event
handle_message transport (resync_required reason epoch) c =
    set_state connecting (record (tell_control (resync_required reason epoch) c) {
      cursor = none;
      accepting_events = false;
    })
handle_message transport (replay_done id epoch) c =
    handle_replay_done id epoch (tell_control (replay_done id epoch) c)
handle_message transport (bus_event event) c =
    handle_event transport event.topic (cursor_metadata event.event_id event.epoch) event c
handle_message transport other c = c

unfoldable pub handle_transport_state : SocketState → HubEventClient → HubEventClient
unfolding set_state
handle_transport_state open_now c = record c { accepting_events = is_some c.cursor }
handle_transport_state closed c = set_state closed (record c { accepting_events = false })
handle_transport_state connecting c = set_state connecting (record c { accepting_events = false })
