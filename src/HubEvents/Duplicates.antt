-- ===== src/HubEvents/Duplicates.antt =====
-- About events of webui/src/runtime/hubEventClient.ts that come twice.
use ga_hub.Prelude.{
  ℕ, ◌≤◌, ◌≡◌, String, Bool, true, false, ◌||◌, Option, none, some, List, All, truthy, is_some,
  Bool-cases, inl, inr, arith, ◌==◌, eq_iff, eq_refl,
}
use ga_hub.Socket.{SocketState, closed, connecting, open_now, Backoff}
use ga_hub.HubEvents.{
  BusEvent, HubEventMessage, resync_required, replay_done, bus_event, other, EventCursor,
  cursor_metadata, HubEventClient, set_state, subscribe, unsubscribe, subscribe_state,
  unsubscribe_state, subscribe_control, unsubscribe_control, is_behind, advance_cursor, dispatch,
  handle_cursor_event, handle_plain_event, handle_event, handle_replay_done, handle_message,
  handle_transport_state, Hub, HubHappening, hub_run,
}
use ga_hub.HubEvents.Laws.{Stays, brings, hub_run_stays}

-- A message that keeps the cursor in its epoch.
abbrev keeps_cursor : String → Option EventCursor → Bool
keeps_cursor epoch none = true
keeps_cursor epoch (some at) = at.epoch == epoch

abbrev pub keeps_epoch : String → HubEventMessage → Bool
keeps_epoch epoch (resync_required reason e) = false
keeps_epoch epoch (replay_done id e) = e == epoch
keeps_epoch epoch (bus_event event) =
    keeps_cursor epoch (cursor_metadata event.event_id event.epoch)
keeps_epoch epoch other = true

is_behind_advanced :
    (cursor : Option EventCursor) (at new : EventCursor)
    → (new.epoch == at.epoch) ≡ true
    → is_behind cursor at ≡ true
    → is_behind cursor new ≡ false
    → is_behind (some new) at ≡ true
is_behind_advanced none at new e h k = cc
is_behind_advanced (some old) at new e h k = ground (
  arith,
  e,
  h,
  k,
  eq_iff new.epoch at.epoch,
  eq_iff old.epoch at.epoch,
  eq_iff old.epoch new.epoch,
)

module _ (at : EventCursor) where
  abbrev IsPassed : HubEventClient → Type 0
  IsPassed c = is_behind c.cursor at ≡ true

  advance_cursor-IsPassed :
      (new : EventCursor) (c : HubEventClient)
      → (new.epoch == at.epoch) ≡ true
      → IsPassed c
      → IsPassed (advance_cursor new c).1
  unfolding advance_cursor
  advance_cursor-IsPassed new c e p = elim (Bool-cases (is_behind c.cursor new)) [
    | inl k ↦ rw k p
    | inr k ↦ rw k (is_behind_advanced c.cursor at new e p k)
  ]

  handle_replay_done-IsPassed :
      (id : Option ℕ) (epoch : String) (c : HubEventClient)
      → (epoch == at.epoch) ≡ true
      → IsPassed c
      → IsPassed (handle_replay_done id epoch c)
  unfolding handle_replay_done set_state
  handle_replay_done-IsPassed none epoch c e p = p
  handle_replay_done-IsPassed (some id) epoch c e p =
      ground (arith, p, advance_cursor-IsPassed (record { event_id = id; epoch = epoch }) c e p)

  handle_event-IsPassed :
      (transport : SocketState) (topic : Option String) (new : Option EventCursor)
      (event : BusEvent) (c : HubEventClient)
      → keeps_cursor at.epoch new ≡ true
      → IsPassed c
      → IsPassed (handle_event transport topic new event c)
  unfolding handle_event handle_plain_event handle_cursor_event dispatch set_state
  handle_event-IsPassed transport none new event c k p = p
  handle_event-IsPassed transport (some topic) none event c k p = ground (arith, p)
  handle_event-IsPassed transport (some topic) (some new) event c k p =
      ground (arith, p, advance_cursor-IsPassed new c k p)

  handle_message-IsPassed :
      (transport : SocketState) (m : HubEventMessage) (c : HubEventClient)
      → keeps_epoch at.epoch m ≡ true
      → IsPassed c
      → IsPassed (handle_message transport m c)
  unfolding handle_message
  handle_message-IsPassed transport (resync_required reason e) c k p = cc
  handle_message-IsPassed transport (replay_done id e) c k p =
      handle_replay_done-IsPassed id e _ k p
  handle_message-IsPassed transport (bus_event event) c k p =
      handle_event-IsPassed transport event.topic (cursor_metadata event.event_id event.epoch) event
        c k p
  handle_message-IsPassed transport other c k p = p

  handle_transport_state-IsPassed :
      (s : SocketState) (c : HubEventClient) → IsPassed c → IsPassed (handle_transport_state s c)
  unfolding handle_transport_state set_state
  handle_transport_state-IsPassed open_now c p = p
  handle_transport_state-IsPassed closed c p = ground (arith, p)
  handle_transport_state-IsPassed connecting c p = ground (arith, p)

  IsPassed-Stays : Stays IsPassed (keeps_epoch at.epoch)
  unfolding subscribe unsubscribe subscribe_state unsubscribe_state subscribe_control
      unsubscribe_control
  IsPassed-Stays = record {
    on_state = handle_transport_state-IsPassed;
    on_message = handle_message-IsPassed;
    on_subscribe = λ prefix c p. p;
    on_unsubscribe = λ id c p. p;
    on_subscribe_state = λ c p. p;
    on_unsubscribe_state = λ id c p. p;
    on_subscribe_control = λ c p. p;
    on_unsubscribe_control = λ id c p. p;
  }

  handle_cursor_event_passes :
      (topic : String) (event : BusEvent) (c : HubEventClient)
      → c.accepting_events || is_some c.cursor ≡ true
      → IsPassed (handle_cursor_event at topic event c)
  unfolding handle_cursor_event advance_cursor dispatch
  handle_cursor_event_passes topic event c a = elim (Bool-cases (is_behind c.cursor at)) [
    | inl k ↦ ground (arith, k)
    | inr k ↦ ground (arith, k, a, eq_refl at.epoch)
  ]

-- An event with its cursor.
abbrev pub event_at : String → String → EventCursor → BusEvent
event_at topic payload at = record {
  topic = some topic;
  payload = payload;
  event_id = some at.event_id;
  epoch = some at.epoch;
}

is_behind_older :
    (cursor : Option EventCursor) (at : EventCursor) (id : ℕ)
    → id ≤ at.event_id
    → is_behind cursor at ≡ true
    → is_behind cursor (record at { event_id = id }) ≡ true
is_behind_older none at id le h = h
is_behind_older (some old) at id le h = ground (arith, le, h)

handle_cursor_event_behind :
    (topic : String) (event : BusEvent) (at : EventCursor) (c : HubEventClient)
    → is_behind c.cursor at ≡ true
    → handle_cursor_event at topic event c ≡ c
unfolding handle_cursor_event advance_cursor
handle_cursor_event_behind topic event at c h = ground (arith, h)

module _ (transport : SocketState) (topic payload : String) (at : EventCursor)
    (t : truthy at.epoch ≡ true) (c : HubEventClient) where
  handle_message_behind :
      is_behind c.cursor at ≡ true
      → handle_message transport (bus_event (event_at topic payload at)) c ≡ c
  unfolding handle_message handle_event
  handle_message_behind h =
      rw t (handle_cursor_event_behind topic (event_at topic payload at) at c h)

  handle_message_passes :
      c.accepting_events || is_some c.cursor ≡ true
      → IsPassed at (handle_message transport (bus_event (event_at topic payload at)) c)
  unfolding handle_message handle_event
  handle_message_passes a =
      rw t (handle_cursor_event_passes at topic (event_at topic payload at) c a)

-- An event that came while the client took events is not dispatched again: after it, an event of its
-- epoch with its id or a smaller one changes nothing, whatever the socket, the messages and the
-- subscriptions did in between, reconnections included, while no message asked for a
-- resynchronisation or told of another epoch.
pub hub_run-handle_message :
    ⦃backoff : Backoff⦄ (parses : String → Bool) (read : String → HubEventMessage)
    (happenings : List HubHappening) (transport : SocketState)
    (topic payload old_topic old_payload : String) (at : EventCursor) (id : ℕ) (h : Hub)
    → truthy at.epoch ≡ true
    → id ≤ at.event_id
    → h.client.accepting_events || is_some h.client.cursor ≡ true
    → All (λ happening. brings read (keeps_epoch at.epoch) happening ≡ true) happenings
    → let first = handle_message transport (bus_event (event_at topic payload at)) h.client in
      let y = (hub_run parses read happenings (record h { client = first })).client in
      handle_message transport
        (bus_event (event_at old_topic old_payload (record at { event_id = id })))
        y
      ≡ y
hub_run-handle_message parses read happenings transport topic payload old_topic old_payload at id h
      t le accepts keeps =
    handle_message_behind transport old_topic old_payload (record at { event_id = id }) t y
      (is_behind_older y.cursor at id le (
        hub_run_stays (IsPassed at) (keeps_epoch at.epoch) (IsPassed-Stays at) read parses
          happenings (record h { client = first }) keeps
          (handle_message_passes transport topic payload at t h.client accepts)))
  where
    first : HubEventClient
    first = handle_message transport (bus_event (event_at topic payload at)) h.client

    y : HubEventClient
    y = (hub_run parses read happenings (record h { client = first })).client
