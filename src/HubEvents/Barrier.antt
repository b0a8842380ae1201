-- ===== src/HubEvents/Barrier.antt =====
-- About the replay barrier of webui/src/runtime/hubEventClient.ts.
use ga_hub.Prelude.{
  ℕ, ◌≡◌, String, Bool, true, false, not, ◌&&◌, Option, none, some, List, All, is_some, arith,
}
use ga_hub.Socket.{SocketState, closed, connecting, open_now, Backoff, eq_state}
use ga_hub.HubEvents.{
  BusEvent, HubEventMessage, resync_required, replay_done, bus_event, other, EventCursor,
  cursor_metadata, HubEventClient, set_state, subscribe, unsubscribe, subscribe_state,
  unsubscribe_state, subscribe_control, unsubscribe_control, handle_cursor_event, handle_event,
  handle_message, handle_transport_state, Hub, HubHappening, hub_run,
}
use ga_hub.HubEvents.Laws.{Stays, brings, hub_run_stays}

-- The client has no cursor, takes no events with one, and is not shown as open.
abbrev pub is_waiting : HubEventClient → Bool
is_waiting c = not c.accepting_events && not (is_some c.cursor) && not (eq_state c.state open_now)

-- A message before the end of the replay: no `replay_done`, and no event without a cursor.
abbrev pub is_replay : HubEventMessage → Bool
is_replay (resync_required reason e) = true
is_replay (replay_done id e) = false
is_replay (bus_event event) = is_some (cursor_metadata event.event_id event.epoch)
is_replay other = true

module _ (calls : List (ℕ × BusEvent)) where
  abbrev IsWaiting : HubEventClient → Type 0
  IsWaiting c = (is_waiting c ≡ true) × (c.event_calls ≡ calls)

  handle_event-IsWaiting :
      (transport : SocketState) (topic : Option String) (new : Option EventCursor)
      (event : BusEvent) (c : HubEventClient)
      → is_some new ≡ true
      → IsWaiting c
      → IsWaiting (handle_event transport topic new event c)
  unfolding handle_event handle_cursor_event
  handle_event-IsWaiting transport none new event c k w = w
  handle_event-IsWaiting transport (some topic) none event c k w = cc
  handle_event-IsWaiting transport (some topic) (some new) event c k (w, e) =
      (ground (arith, w), ground (arith, w, e))

  handle_message-IsWaiting :
      (transport : SocketState) (m : HubEventMessage) (c : HubEventClient)
      → is_replay m ≡ true
      → IsWaiting c
      → IsWaiting (handle_message transport m c)
  unfolding handle_message set_state
  handle_message-IsWaiting transport (resync_required reason e) c k (w, h) =
      (ground (arith, w), ground (arith, h))
  handle_message-IsWaiting transport (replay_done id e) c k w = cc
  handle_message-IsWaiting transport (bus_event event) c k w =
      handle_event-IsWaiting transport event.topic (cursor_metadata event.event_id event.epoch)
        event c k w
  handle_message-IsWaiting transport other c k w = w

  handle_transport_state-IsWaiting :
      (s : SocketState) (c : HubEventClient) → IsWaiting c → IsWaiting (handle_transport_state s c)
  unfolding handle_transport_state set_state
  handle_transport_state-IsWaiting open_now c (w, h) = (ground (arith, w), h)
  handle_transport_state-IsWaiting closed c (w, h) = (ground (arith, w), ground (arith, h))
  handle_transport_state-IsWaiting connecting c (w, h) = (ground (arith, w), ground (arith, h))

  IsWaiting-Stays : Stays IsWaiting is_replay
  unfolding subscribe unsubscribe subscribe_state unsubscribe_state subscribe_control
      unsubscribe_control
  IsWaiting-Stays = record {
    on_state = handle_transport_state-IsWaiting;
    on_message = handle_message-IsWaiting;
    on_subscribe = λ prefix c w. w;
    on_unsubscribe = λ id c w. w;
    on_subscribe_state = λ c w. w;
    on_unsubscribe_state = λ id c w. w;
    on_subscribe_control = λ c w. w;
    on_unsubscribe_control = λ id c w. w;
  }

-- After a `resync_required` no handler is called with an event and the client is not shown as open,
-- whatever the socket and the subscriptions do, reconnections included, until a `replay_done` or an
-- event without a cursor comes.
pub hub_run-is_waiting :
    ⦃backoff : Backoff⦄ (parses : String → Bool) (read : String → HubEventMessage)
    (happenings : List HubHappening) (transport : SocketState) (reason epoch : String) (h : Hub)
    → All (λ happening. brings read is_replay happening ≡ true) happenings
    → let asked = handle_message transport (resync_required reason epoch) h.client in
      let y = (hub_run parses read happenings (record h { client = asked })).client in
      (is_waiting y ≡ true) × (y.event_calls ≡ h.client.event_calls)
unfolding handle_message set_state
hub_run-is_waiting parses read happenings transport reason epoch h replayed =
    hub_run_stays (IsWaiting h.client.event_calls) is_replay (IsWaiting-Stays h.client.event_calls)
      read parses happenings
      (record h { client = handle_message transport (resync_required reason epoch) h.client })
      replayed (ground arith, ground arith)
