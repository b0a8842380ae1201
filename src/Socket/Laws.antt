-- ===== src/Socket/Laws.antt =====
-- About the lifetime of the socket of webui/src/runtime/managedJsonSocket.ts.
use ga_hub.Prelude.{
  ℕ, suc, ◌≤◌, ◌≡◌, String, Bool, true, false, not, ◌&&◌, Option, none, some, List, [], ◌∷◌, arith,
  eqb, is_some, if◌then◌else◌,
}
use ga_hub.Socket.{
  SocketState, closed, eq_state, Socket, set_state, is_current, Backoff, schedule_reconnect,
  connect, open_socket, handle_disconnect, fire_timer, close_socket, on_open, on_message, Happening,
  open_call, close_call, opened, received, disconnected, timer_fired, step, run,
}

abbrev timer_of : Option ℕ → ℕ → Bool
timer_of none generation = true
timer_of (some g) generation = eqb g generation

-- A running socket has a WebSocket or a timer of its generation, never both, and is closed exactly
-- while it has none; a socket that is not running has neither and is closed.
abbrev pub is_sound : Socket → Bool
is_sound x =
    if x.running
    then timer_of x.timer x.generation
      && (if is_some x.ws
          then not (is_some x.timer) && not (eq_state x.state closed)
          else is_some x.timer && eq_state x.state closed)
    else not (is_some x.ws) && not (is_some x.timer) && eq_state x.state closed

close_socket-generation :
    (x : Socket) → x.running ≡ true → (close_socket x).generation ≡ suc x.generation
unfolding close_socket set_state
close_socket-generation x r = ground (arith, r)

module _ ⦃backoff : Backoff⦄ where
  open_socket_sound :
      (creates : Bool) (x : Socket) → is_sound x ≡ true → is_sound (open_socket creates x) ≡ true
  unfolding open_socket connect schedule_reconnect set_state
  open_socket_sound creates x h = ground (arith, h)

  close_socket_sound : (x : Socket) → is_sound x ≡ true → is_sound (close_socket x) ≡ true
  unfolding close_socket set_state
  close_socket_sound x h = ground (arith, h)

  on_open_sound :
      (i generation : ℕ) (x : Socket) → is_sound x ≡ true → is_sound (on_open i generation x) ≡ true
  unfolding on_open set_state
  on_open_sound i generation x h = ground (arith, h)

  handle_disconnect_sound :
      (i generation : ℕ) (x : Socket)
      → is_sound x ≡ true
      → is_sound (handle_disconnect i generation x) ≡ true
  unfolding handle_disconnect schedule_reconnect set_state
  handle_disconnect_sound i generation x h = ground (arith, h)

  fire_timer_sound :
      (creates : Bool) (x : Socket) → is_sound x ≡ true → is_sound (fire_timer creates x) ≡ true
  unfolding fire_timer connect schedule_reconnect set_state
  fire_timer_sound creates x h = ground (arith, h)

  on_message_sound :
      (parses : String → Bool) (i generation : ℕ) (text : Option String) (x : Socket)
      → is_sound x ≡ true
      → is_sound (on_message parses i generation text x) ≡ true
  unfolding on_message
  on_message_sound parses i generation none x h = h
  on_message_sound parses i generation (some text) x h = ground (arith, h)

  step_sound :
      (parses : String → Bool) (h : Happening) (x : Socket)
      → is_sound x ≡ true
      → is_sound (step parses h x) ≡ true
  unfolding step
  step_sound parses (open_call creates) x s = open_socket_sound creates x s
  step_sound parses close_call x s = close_socket_sound x s
  step_sound parses (opened i generation) x s = on_open_sound i generation x s
  step_sound parses (received i generation text) x s = on_message_sound parses i generation text x s
  step_sound parses (disconnected i generation) x s = handle_disconnect_sound i generation x s
  step_sound parses (timer_fired creates) x s = fire_timer_sound creates x s

  -- Whatever happens to a socket, in whatever order: while it runs it has either a WebSocket or the
  -- timer of its generation, never both and never neither, and its state is `closed` exactly while
  -- it has no WebSocket; while it does not run it has neither and is closed.
  pub run_sound :
      (parses : String → Bool) (happenings : List Happening) (x : Socket)
      → is_sound x ≡ true
      → is_sound (run parses happenings x) ≡ true
  unfolding run
  run_sound parses [] x s = s
  run_sound parses (h ∷ happenings) x s =
      run_sound parses happenings (step parses h x) (step_sound parses h x s)

  step-generation :
      (parses : String → Bool) (h : Happening) (x : Socket)
      → x.generation ≤ (step parses h x).generation
  unfolding step open_socket close_socket on_open on_message handle_disconnect fire_timer connect
      schedule_reconnect set_state
  step-generation parses (open_call creates) x = ground arith
  step-generation parses close_call x = ground arith
  step-generation parses (opened i generation) x = ground arith
  step-generation parses (received i generation none) x = omega arith
  step-generation parses (received i generation (some text)) x = ground arith
  step-generation parses (disconnected i generation) x = ground arith
  step-generation parses (timer_fired creates) x = ground arith

  run-generation :
      (parses : String → Bool) (happenings : List Happening) (x : Socket)
      → x.generation ≤ (run parses happenings x).generation
  unfolding run
  run-generation parses [] x = omega arith
  run-generation parses (h ∷ happenings) x =
      omega (arith, step-generation parses h x, run-generation parses happenings (step parses h x))

  -- A callback that captured the generation in which a running socket was closed, or an earlier
  -- one, changes nothing, whatever has happened since, reopening included.
  pub close_socket-stale :
      (parses : String → Bool) (happenings : List Happening) (i generation : ℕ) (text : String)
      (x : Socket)
      → x.running ≡ true
      → generation ≤ x.generation
      → let y = run parses happenings (close_socket x) in
        (on_open i generation y ≡ y)
        × (on_message parses i generation (some text) y ≡ y)
        × (handle_disconnect i generation y ≡ y)
  unfolding on_open on_message handle_disconnect
  close_socket-stale parses happenings i generation text x r g =
      let y = run parses happenings (close_socket x) in
      (simp (on_open, stale), simp (on_message, stale), simp (handle_disconnect, stale))
    where
      stale : is_current i generation (run parses happenings (close_socket x)) ≡ false
      stale =
          ground (
            arith,
            g,
            close_socket-generation x r,
            run-generation parses happenings (close_socket x),
          )

-- What the owner's listener was told last.
abbrev told : List SocketState → SocketState
told [] = closed
told (s ∷ states) = s

-- No call of the listener repeats the one before it; the first is not `closed`.
abbrev changes : List SocketState → Bool
changes [] = true
changes (s ∷ states) = not (eq_state s (told states)) && changes states

-- The listener knows the state, and every call told it something new.
abbrev pub is_told : Socket → Bool
is_told x = eq_state (told x.states) x.state && changes x.states

module _ ⦃backoff : Backoff⦄ where
  step_told :
      (parses : String → Bool) (h : Happening) (x : Socket)
      → is_told x ≡ true
      → is_told (step parses h x) ≡ true
  unfolding step open_socket close_socket on_open on_message handle_disconnect fire_timer connect
      schedule_reconnect set_state
  step_told parses (open_call creates) x t = ground (arith, t)
  step_told parses close_call x t = ground (arith, t)
  step_told parses (opened i generation) x t = ground (arith, t)
  step_told parses (received i generation none) x t = t
  step_told parses (received i generation (some text)) x t = ground (arith, t)
  step_told parses (disconnected i generation) x t = ground (arith, t)
  step_told parses (timer_fired creates) x t = ground (arith, t)

  -- Whatever happens to a socket whose listener knows its state: the listener was last told the
  -- socket's state, and no two calls of it in a row told it the same.
  pub run_told :
      (parses : String → Bool) (happenings : List Happening) (x : Socket)
      → is_told x ≡ true
      → is_told (run parses happenings x) ≡ true
  unfolding run
  run_told parses [] x t = t
  run_told parses (h ∷ happenings) x t =
      run_told parses happenings (step parses h x) (step_told parses h x t)
