-- ===== src/Socket.antt =====
-- webui/src/runtime/managedJsonSocket.ts: the lifetime of one reconnecting socket. A WebSocket object
-- is the number of its creation, and a callback carries its object and its generation, which the
-- source's closures capture. What lies outside is an argument: whether a WebSocket could be created,
-- and the delay that the owner asks for, `none` when its function throws. The owner's listeners do
-- not call the socket back.
pub mod Laws
pub mod Recovery
use ga_hub.Prelude.{
  ℕ, suc, ◌*◌, ◌^◌, min, String, Bool, true, false, not, ◌&&◌, ◌||◌, Option, none, some, List, [],
  ◌∷◌, ◌++◌, if◌then◌else◌, eqb, is_some, or_default,
}

pub data SocketState : Type 0 where
  closed connecting open_now : SocketState

abbrev pub eq_state : SocketState → SocketState → Bool
eq_state closed closed = true
eq_state connecting connecting = true
eq_state open_now open_now = true
eq_state closed connecting = false
eq_state closed open_now = false
eq_state connecting closed = false
eq_state connecting open_now = false
eq_state open_now closed = false
eq_state open_now connecting = false

-- DEFAULT_RECONNECT_DELAY_MS.
unfoldable pub default_delay : ℕ → ℕ
default_delay attempt = min (1000 * 2 ^ attempt) 30000

pub record Socket : Type 0 where
  pub ws : Option ℕ
  pub timer : Option ℕ  -- the generation that the timer reconnects
  pub attempts : ℕ
  pub running : Bool
  pub generation : ℕ
  pub state : SocketState
  pub created : ℕ  -- WebSocket objects made so far
  pub shut : List ℕ  -- those that were closed, the newest first
  pub delays : List ℕ  -- delays of the timers, the newest first
  pub states : List SocketState  -- calls of `onState`, the newest first
  pub messages : List String  -- calls of `onMessage`, the newest first

abbrev pub fresh : Socket
fresh = record {
  ws = none;
  timer = none;
  attempts = 0;
  running = false;
  generation = 0;
  state = closed;
  created = 0;
  shut = [];
  delays = [];
  states = [];
  messages = [];
}

-- `setState`.
unfoldable pub set_state : SocketState → Socket → Socket
set_state s x = if eq_state x.state s then x else record x { state = s; states = s ∷ x.states }

abbrev pub is_object : Option ℕ → ℕ → Bool
is_object none i = false
is_object (some j) i = eqb j i

-- `isCurrent`.
abbrev pub is_current : ℕ → ℕ → Socket → Bool
is_current i generation x = x.running && eqb generation x.generation && is_object x.ws i

abbrev shut_object : Option ℕ → List ℕ → List ℕ
shut_object none shut = shut
shut_object (some i) shut = i ∷ shut

-- What the owner asks for: the delay, or `none` if the function throws.
pub record Backoff : Type 0 where
  pub delay_of : ℕ → Option ℕ

module _ ⦃backoff : Backoff⦄ where
  -- `scheduleReconnect`.
  unfoldable pub schedule_reconnect : ℕ → Socket → Socket
  unfolding set_state default_delay
  schedule_reconnect generation x =
      let delay = or_default (backoff.delay_of x.attempts) (default_delay x.attempts) in
      let y = set_state closed (record x { attempts = suc x.attempts }) in
      if not x.running || not (eqb generation x.generation) || is_some x.timer
      then x
      else record y { timer = some generation; delays = delay ∷ x.delays }

  -- `connect`; `creates` says whether the WebSocket could be made.
  unfoldable pub connect : Bool → ℕ → Socket → Socket
  unfolding set_state schedule_reconnect
  connect creates generation x =
      let y = set_state connecting x in
      let failed = schedule_reconnect generation y in
      if not x.running || not (eqb generation x.generation)
      then x
      else if creates
      then record y { ws = some y.created; created = suc y.created }
      else failed

  unfoldable pub open_socket : Bool → Socket → Socket
  unfolding connect
  open_socket creates x =
      let y = record x { running = true; attempts = 0; generation = suc x.generation } in
      let connected = connect creates (suc x.generation) y in if x.running then x else connected

  -- `handleDisconnect`, of `onclose` and of `onerror`.
  unfoldable pub handle_disconnect : ℕ → ℕ → Socket → Socket
  unfolding set_state schedule_reconnect
  handle_disconnect i generation x =
      let y = record x { ws = none; shut = i ∷ x.shut } in
      let rescheduled = schedule_reconnect generation (set_state closed y) in
      if is_current i generation x then rescheduled else x

  -- The timer of `scheduleReconnect`. A timer that was cleared does not fire.
  unfoldable pub fire_timer : Bool → Socket → Socket
  unfolding connect
  fire_timer creates x = elim x.timer [
    | none ↦ x
    | some generation ↦ let y = record x { timer = none } in connect creates generation y
  ]

unfoldable pub close_socket : Socket → Socket
unfolding set_state
close_socket x =
    let y = record x {
      running = false;
      generation = suc x.generation;
      timer = none;
      ws = none;
      attempts = 0;
      shut = shut_object x.ws x.shut;
    } in
    if not x.running && not (is_some x.ws) && not (is_some x.timer) && eq_state x.state closed
    then x
    else set_state closed y

unfoldable pub on_open : ℕ → ℕ → Socket → Socket
unfolding set_state
on_open i generation x =
    let y = record x { attempts = 0 } in
    if is_current i generation x then set_state open_now y else x

-- `data` is `none` if the frame is no text; `parses` stands for JSON.parse, and the text for what it
-- makes of it.
unfoldable pub on_message : (String → Bool) → ℕ → ℕ → Option String → Socket → Socket
on_message parses i generation none x = x
on_message parses i generation (some text) x =
    if is_current i generation x && parses text
    then record x { messages = text ∷ x.messages }
    else x

-- `send`: whether the frame went out. `ready` is `readyState`, `encoded` what JSON.stringify makes of
-- the value, `none` where it throws or gives nothing, and `accepts` whether `ws.send` returns.
unfoldable pub send : ℕ → Option String → Bool → Socket → Bool
send ready encoded accepts x = is_some x.ws && eqb ready 1 && is_some encoded && accepts

-- What can happen to a socket, in any order. The numbers are the object and the generation that the
-- callback captured.
pub data Happening : Type 0 where
  open_call : (creates : Bool) → Happening
  close_call : Happening
  opened : (i generation : ℕ) → Happening
  received : (i generation : ℕ) → (text : Option String) → Happening
  disconnected : (i generation : ℕ) → Happening
  timer_fired : (creates : Bool) → Happening

module _ ⦃backoff : Backoff⦄ (parses : String → Bool) where
  unfoldable pub step : Happening → Socket → Socket
  unfolding open_socket close_socket on_open on_message handle_disconnect fire_timer
  step (open_call creates) x = open_socket creates x
  step close_call x = close_socket x
  step (opened i generation) x = on_open i generation x
  step (received i generation text) x = on_message parses i generation text x
  step (disconnected i generation) x = handle_disconnect i generation x
  step (timer_fired creates) x = fire_timer creates x

  unfoldable pub run : List Happening → Socket → Socket
  unfolding step
  run [] x = x
  run (h ∷ happenings) x = run happenings (step h x)
