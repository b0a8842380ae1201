-- ===== src/HubEvents.antt =====
-- webui/src/runtime/hubEventClient.ts: the control stream's client over its socket. A handler is the
-- number of its subscription; handlers do not call the client back. What JSON.parse makes of a text is
-- an argument. A connection's query is the list of its parameters; the URL's encoding is outside.
mod Client
pub mod Laws
pub mod Duplicates
pub mod Barrier
unfoldable pub use Client.*
use ga_hub.Prelude.{
  ℕ, suc, ◌-◌, String, Bool, true, false, not, ◌&&◌, Option, none, some, List, [], ◌∷◌, ◌++◌, map,
  filter, take, length, if◌then◌else◌, leb, eqb, is_some, truthy, decimal, starts_with, ◌==◌,
}
use ga_hub.Socket.{
  SocketState, closed, connecting, open_now, eq_state, Socket, fresh, Backoff, Happening, step,
}

-- The client with its transport.
pub record Hub : Type 0 where
  pub transport : Socket
  pub client : HubEventClient

abbrev pub new_hub : Hub
new_hub = record { transport = fresh; client = new_client }

-- The newest calls of a log, the oldest of them first.
abbrev pub oldest_first {ℓ} : {A : Type ℓ} → List A → List A → List A
oldest_first [] done = done
oldest_first (x ∷ xs) done = oldest_first xs (x ∷ done)

abbrev pub new_calls {ℓ} : {A : Type ℓ} → List A → List A → List A
new_calls before after = oldest_first (take (length after - length before) after) []

abbrev pub on_states : List SocketState → HubEventClient → HubEventClient
on_states [] c = c
on_states (s ∷ states) c = on_states states (handle_transport_state s c)

abbrev pub on_messages :
    (String → HubEventMessage) → SocketState → List String → HubEventClient → HubEventClient
on_messages read transport [] c = c
on_messages read transport (text ∷ texts) c =
    on_messages read transport texts (handle_message transport (read text) c)

-- What happens to the hub: something to its transport, or a subscription that comes or goes.
pub data HubHappening : Type 0 where
  transport_happens : (happening : Happening) → HubHappening
  subscribes : (prefix : String) → HubHappening
  unsubscribes : (id : ℕ) → HubHappening
  subscribes_state : HubHappening
  unsubscribes_state : (id : ℕ) → HubHappening
  subscribes_control : HubHappening
  unsubscribes_control : (id : ℕ) → HubHappening

-- The client's part of a step, from the transport before and after it.
unfoldable pub deliver :
    (String → HubEventMessage) → Socket → Socket → HubEventClient → HubEventClient
unfolding handle_transport_state handle_message
deliver read before after c =
    on_messages read after.state (new_calls before.messages after.messages)
      (on_states (new_calls before.states after.states) c)

module _ ⦃backoff : Backoff⦄ (parses : String → Bool) (read : String → HubEventMessage) where
  unfoldable pub hub_step : HubHappening → Hub → Hub
  unfolding step deliver
  hub_step (transport_happens happening) h =
      let after = step parses happening h.transport in
      record { transport = after; client = deliver read h.transport after h.client }
  hub_step (subscribes prefix) h = record h { client = subscribe prefix h.client }
  hub_step (unsubscribes id) h = record h { client = unsubscribe id h.client }
  hub_step subscribes_state h = record h { client = subscribe_state h.client }
  hub_step (unsubscribes_state id) h = record h { client = unsubscribe_state id h.client }
  hub_step subscribes_control h = record h { client = subscribe_control h.client }
  hub_step (unsubscribes_control id) h = record h { client = unsubscribe_control id h.client }

  unfoldable pub hub_run : List HubHappening → Hub → Hub
  unfolding hub_step
  hub_run [] h = h
  hub_run (happening ∷ happenings) h = hub_run happenings (hub_step happening h)
