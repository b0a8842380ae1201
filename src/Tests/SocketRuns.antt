-- ===== src/Tests/SocketRuns.antt =====
-- Runs of webui/src/runtime/managedJsonSocket.ts: a socket that is opened, lost, reconnected and closed.
use ga_hub.Prelude.{◌≡◌, refl, true, none, some, List, [], ◌∷◌, arith}
use ga_hub.Socket.{
  Backoff, Happening, open_call, opened, received, disconnected, timer_fired, fresh, run,
  close_socket, on_open, on_message, handle_disconnect, Socket, step, schedule_reconnect, set_state,
  open_now, connecting,
}
use ga_hub.Socket.Laws.{is_sound, is_told, run_sound, run_told, close_socket-stale}
use ga_hub.Socket.Recovery.{run-recovery, recovery}

abbrev usual : Backoff
usual = record { delay_of = λ attempt. none }

abbrev trip : List Happening
trip =
    open_call true
    ∷ opened 0 1
    ∷ disconnected 0 1
    ∷ timer_fired true
    ∷ received 1 1 (some "{}")
    ∷ []

run_sound_example : is_sound (run ⦃backoff = usual⦄ (λ text. true) trip fresh) ≡ true
run_sound_example = run_sound ⦃backoff = usual⦄ (λ text. true) trip fresh refl

run_told_example : is_told (run ⦃backoff = usual⦄ (λ text. true) trip fresh) ≡ true
run_told_example = run_told ⦃backoff = usual⦄ (λ text. true) trip fresh refl

abbrev connected : Socket
connected = record fresh { ws = some 0; running = true; generation = 1; created = 1 }

abbrev connecting_socket : Socket
connecting_socket = record connected { state = connecting }

close_socket-stale_example :
    let y = run ⦃backoff = usual⦄ (λ text. true) (open_call true ∷ []) (close_socket connected) in
    (on_open 0 1 y ≡ y)
    × (on_message (λ text. true) 0 1 (some "{}") y ≡ y)
    × (handle_disconnect ⦃backoff = usual⦄ 0 1 y ≡ y)
close_socket-stale_example =
    close_socket-stale ⦃backoff = usual⦄ (λ text. true) (open_call true ∷ []) 0 1 "{}" connected
      refl (omega arith)

run-recovery_example :
    let y = run ⦃backoff = usual⦄ (λ text. true) (disconnected 0 1 ∷ []) connecting_socket in
    (run ⦃backoff = usual⦄ (λ text. true) (recovery y) y).state ≡ open_now
unfolding run step handle_disconnect schedule_reconnect set_state
run-recovery_example =
    run-recovery ⦃backoff = usual⦄ (λ text. true) (disconnected 0 1 ∷ []) connecting_socket refl
      refl
