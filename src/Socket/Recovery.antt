-- ===== src/Socket/Recovery.antt =====
-- About the reconnections of webui/src/runtime/managedJsonSocket.ts.
use ga_hub.Prelude.{ℕ, ◌≡◌, String, Bool, true, Option, none, some, List, [], ◌∷◌, arith}
use ga_hub.Socket.{
  open_now, Socket, set_state, Backoff, schedule_reconnect, connect, fire_timer, on_open, Happening,
  opened, timer_fired, step, run,
}
use ga_hub.Socket.Laws.{is_sound, run_sound}

-- What opens a running socket: its WebSocket opens, or its timer fires and the new one opens.
abbrev pub recovery : Socket → List Happening
recovery x = elim x.ws [
  | none ↦ timer_fired true ∷ opened x.created x.generation ∷ []
  | some i ↦ opened i x.generation ∷ []
]

module _ ⦃backoff : Backoff⦄ where
  recovery_opens :
      (parses : String → Bool) (ws timer : Option ℕ) (x : Socket)
      → let y = record x { ws = ws; timer = timer } in
        is_sound y ≡ true → y.running ≡ true → (run parses (recovery y) y).state ≡ open_now
  unfolding run step on_open fire_timer connect schedule_reconnect set_state
  recovery_opens parses none none x s r = ground (arith, s, r)
  recovery_opens parses none (some g) x s r = ground (arith, s, r)
  recovery_opens parses (some i) none x s r = ground (arith, s, r)
  recovery_opens parses (some i) (some g) x s r = ground (arith, s, r)

  -- Whatever has happened to a socket, a running one is never stuck: it opens when its WebSocket opens
  -- or, if it has none, when its timer fires, a WebSocket can be made and that opens.
  pub run-recovery :
      (parses : String → Bool) (happenings : List Happening) (x : Socket)
      → is_sound x ≡ true
      → (run parses happenings x).running ≡ true
      → let y = run parses happenings x in (run parses (recovery y) y).state ≡ open_now
  run-recovery parses happenings x s r =
      let y = run parses happenings x in
      recovery_opens parses y.ws y.timer y (run_sound parses happenings x s) r
