-- ===== src/HubEvents/Laws.antt =====
-- About what steps of the hub leave as it is, of webui/src/runtime/hubEventClient.ts.
use ga_hub.Prelude.{
  ℕ, suc, ◌≡◌, refl, String, Bool, true, ◌&&◌, none, some, List, [], ◌∷◌, All, length, ◌-◌,
  Bool-cases, inl, inr, arith,
}
use ga_hub.Socket.{
  SocketState, closed, connecting, open_now, eq_state, Socket, Backoff, Happening, open_call,
  close_call, opened, received, disconnected, timer_fired, step, open_socket, close_socket, on_open,
  on_message, handle_disconnect, fire_timer, connect, schedule_reconnect,
}
use ga_hub.Socket
use ga_hub.HubEvents.{
  HubEventMessage, HubEventClient, subscribe, unsubscribe, subscribe_state, unsubscribe_state,
  subscribe_control, unsubscribe_control, handle_message, handle_transport_state, Hub, new_calls,
  on_states, on_messages, HubHappening, transport_happens, subscribes, unsubscribes,
  subscribes_state, unsubscribes_state, subscribes_control, unsubscribes_control, deliver, hub_step,
  hub_run,
}

-- A property of clients that nothing changes but certain messages.
pub record Stays {ℓ} (P : HubEventClient → Type ℓ) (ok : HubEventMessage → Bool) : Type ℓ where
  pub on_state : (s : SocketState) (c : HubEventClient) → P c → P (handle_transport_state s c)
  pub on_message :
      (transport : SocketState) (m : HubEventMessage) (c : HubEventClient)
      → ok m ≡ true
      → P c
      → P (handle_message transport m c)
  pub on_subscribe : (prefix : String) (c : HubEventClient) → P c → P (subscribe prefix c)
  pub on_unsubscribe : (id : ℕ) (c : HubEventClient) → P c → P (unsubscribe id c)
  pub on_subscribe_state : (c : HubEventClient) → P c → P (subscribe_state c)
  pub on_unsubscribe_state : (id : ℕ) (c : HubEventClient) → P c → P (unsubscribe_state id c)
  pub on_subscribe_control : (c : HubEventClient) → P c → P (subscribe_control c)
  pub on_unsubscribe_control : (id : ℕ) (c : HubEventClient) → P c → P (unsubscribe_control id c)

-- The text that a happening may bring, if any, passes a test.
abbrev pub is_ok : (String → Bool) → Happening → Bool
is_ok ok (received i generation (some text)) = ok text
is_ok ok _ = true

module _ ⦃backoff : Backoff⦄ (parses : String → Bool) where
  new_calls_same {ℓ} : {A : Type ℓ} (calls : List A) → new_calls calls calls ≡ []
  new_calls_same calls = let e : length calls - length calls ≡ 0 = omega arith in rw e refl

  new_calls_one {ℓ} : {A : Type ℓ} (a : A) (calls : List A) → new_calls calls (a ∷ calls) ≡ a ∷ []
  new_calls_one a calls = let e : suc (length calls) - length calls ≡ 1 = omega arith in rw e refl

  silent_ok :
      (ok : String → Bool) (h : Happening) (x : Socket)
      → (step parses h x).messages ≡ x.messages
      → All (λ text. ok text ≡ true) (new_calls x.messages (step parses h x).messages)
  silent_ok ok h x e = rw (e, new_calls_same x.messages) tt

  received_ok :
      (ok : String → Bool) (i generation : ℕ) (text : String) (x : Socket)
      → ok text ≡ true
      → All
          (λ t. ok t ≡ true)
          (new_calls x.messages (on_message parses i generation (some text) x).messages)
  unfolding on_message
  received_ok ok i generation text x k =
      elim (Bool-cases (Socket.is_current i generation x && parses text)) [
        | inl e ↦ rw (e, new_calls_one text x.messages) (k, tt)
        | inr e ↦ rw (e, new_calls_same x.messages) tt
      ]

  step_ok :
      (ok : String → Bool) (h : Happening) (x : Socket)
      → is_ok ok h ≡ true
      → All (λ text. ok text ≡ true) (new_calls x.messages (step parses h x).messages)
  unfolding step open_socket close_socket on_open handle_disconnect fire_timer connect
      schedule_reconnect Socket.set_state
  step_ok ok (open_call creates) x k = silent_ok ok (open_call creates) x (ground arith)
  step_ok ok close_call x k = silent_ok ok close_call x (ground arith)
  step_ok ok (opened i generation) x k = silent_ok ok (opened i generation) x (ground arith)
  step_ok ok (received i generation none) x k = rw (new_calls_same x.messages) tt
  step_ok ok (received i generation (some text)) x k = received_ok ok i generation text x k
  step_ok ok (disconnected i generation) x k =
      silent_ok ok (disconnected i generation) x (ground arith)
  step_ok ok (timer_fired creates) x k = silent_ok ok (timer_fired creates) x (ground arith)

-- What happens to the hub brings only messages that pass a test.
abbrev pub brings : (String → HubEventMessage) → (HubEventMessage → Bool) → HubHappening → Bool
brings read ok (transport_happens h) = is_ok (λ text. ok (read text)) h
brings read ok _ = true

module _ {ℓ} (P : HubEventClient → Type ℓ) (ok : HubEventMessage → Bool) (stays : Stays P ok)
    (read : String → HubEventMessage) where
  on_states_stays : (states : List SocketState) (c : HubEventClient) → P c → P (on_states states c)
  on_states_stays [] c p = p
  on_states_stays (s ∷ states) c p =
      on_states_stays states (handle_transport_state s c) (stays.on_state s c p)

  on_messages_stays :
      (transport : SocketState) (texts : List String) (c : HubEventClient)
      → All (λ text. ok (read text) ≡ true) texts
      → P c
      → P (on_messages read transport texts c)
  on_messages_stays transport [] c a p = p
  on_messages_stays transport (text ∷ texts) c (k, a) p =
      on_messages_stays transport texts (handle_message transport (read text) c) a
        (stays.on_message transport (read text) c k p)

  module _ ⦃backoff : Backoff⦄ (parses : String → Bool) where
    hub_step_stays :
        (happening : HubHappening) (h : Hub)
        → brings read ok happening ≡ true
        → P h.client
        → P (hub_step parses read happening h).client
    unfolding hub_step deliver
    hub_step_stays (transport_happens happening) h k p =
        let after = step parses happening h.transport in
        on_messages_stays after.state (new_calls h.transport.messages after.messages)
          (on_states (new_calls h.transport.states after.states) h.client)
          (step_ok parses (λ text. ok (read text)) happening h.transport k)
          (on_states_stays (new_calls h.transport.states after.states) h.client p)
    hub_step_stays (subscribes prefix) h k p = stays.on_subscribe prefix h.client p
    hub_step_stays (unsubscribes id) h k p = stays.on_unsubscribe id h.client p
    hub_step_stays subscribes_state h k p = stays.on_subscribe_state h.client p
    hub_step_stays (unsubscribes_state id) h k p = stays.on_unsubscribe_state id h.client p
    hub_step_stays subscribes_control h k p = stays.on_subscribe_control h.client p
    hub_step_stays (unsubscribes_control id) h k p = stays.on_unsubscribe_control id h.client p

    pub hub_run_stays :
        (happenings : List HubHappening) (h : Hub)
        → All (λ happening. brings read ok happening ≡ true) happenings
        → P h.client
        → P (hub_run parses read happenings h).client
    unfolding hub_run
    hub_run_stays [] h a p = p
    hub_run_stays (happening ∷ happenings) h (k, a) p =
        hub_run_stays happenings (hub_step parses read happening h) a
          (hub_step_stays happening h k p)
