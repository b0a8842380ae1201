-- ===== src/Tests/HubRuns.antt =====
-- Runs of webui/src/runtime/hubEventClient.ts: a connection that is lost and replays what it sent.
use ga_hub.Prelude.{◌≡◌, refl, String, true, none, some, List, [], ◌∷◌, arith, if◌then◌else◌, ◌==◌}
use ga_hub.Socket.{Backoff, open_now, opened, received, disconnected, timer_fired, Socket}
use ga_hub.HubEvents.{
  HubEventMessage, resync_required, replay_done, bus_event, EventCursor, new_client, handle_message,
  Hub, new_hub, HubHappening, transport_happens, subscribes, hub_run,
}
use ga_hub.HubEvents.Duplicates.{event_at, hub_run-handle_message}
use ga_hub.HubEvents.Barrier.{is_waiting, hub_run-is_waiting}

abbrev usual : Backoff
usual = record { delay_of = λ attempt. none }

abbrev at_seven : EventCursor
at_seven = record { event_id = 7; epoch = "e1" }

abbrev read : String → HubEventMessage
read text =
    if text == "seven"
    then bus_event (event_at "task:done" "{}" at_seven)
    else replay_done (some 7) "e1"

abbrev reconnects : List HubHappening
reconnects =
    transport_happens (disconnected 0 1)
    ∷ transport_happens (timer_fired true)
    ∷ transport_happens (opened 1 1)
    ∷ transport_happens (received 1 1 (some "seven"))
    ∷ subscribes "task:"
    ∷ []

abbrev transport : Socket
transport = record new_hub.transport {
  ws = some 0;
  running = true;
  generation = 1;
  created = 1;
  state = open_now;
}

abbrev listening : Hub
listening = record {
  transport = transport;
  client = record new_client {
    accepting_events = true;
    event_handlers = (1, "task:") ∷ [];
    next_subscriber_id = 2;
    state = open_now;
  };
}

hub_run-handle_message_example :
    let first =
      handle_message open_now (bus_event (event_at "task:done" "{}" at_seven)) listening.client in
    let y =
      (hub_run ⦃backoff = usual⦄
        (λ text. true)
        read
        reconnects
        (record listening { client = first })).client in
    handle_message open_now
      (bus_event (event_at "task:done" "{}" (record at_seven { event_id = 6 })))
      y
    ≡ y
hub_run-handle_message_example =
    hub_run-handle_message ⦃backoff = usual⦄ (λ text. true) read reconnects open_now "task:done"
      "{}" "task:done" "{}" at_seven 6 listening refl (omega arith) refl
      (refl, (refl, (refl, (refl, (refl, tt)))))

hub_run-is_waiting_example :
    let asked = handle_message open_now (resync_required "gap" "e1") listening.client in
    let y =
      (hub_run ⦃backoff = usual⦄
        (λ text. true)
        read
        reconnects
        (record listening { client = asked })).client in
    (is_waiting y ≡ true) × (y.event_calls ≡ [])
hub_run-is_waiting_example =
    hub_run-is_waiting ⦃backoff = usual⦄ (λ text. true) read reconnects open_now "gap" "e1"
      listening (refl, (refl, (refl, (refl, (refl, tt)))))
