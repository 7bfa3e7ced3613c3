-- ===== src/Tests/Sockets.antt =====
-- Runs of the hook for a socket.
use multi_rpc.Prelude.{true, ℕ, ◌≡◌, ◌≤◌, Option, List, [], ◌∷◌, Text, arith}
use multi_rpc.Socket.{
  Ready, Event, url, opens, fails, closes, timer, stop, opened, step, run, mounted,
}
use multi_rpc.Socket.Attempts.{run-attempts}
use multi_rpc.Socket.Silence.{run-disconnect}
use multi_rpc.Socket.Cycle.{overlap, overlapping, run-overlapping}

-- a service that is away
abbrev failures : List Event
failures = fails 0 ∷ closes 0 ∷ timer 0 ∷ closes 1 ∷ timer 1 ∷ closes 2 ∷ timer 2 ∷ closes 3 ∷ []

run-attempts_example :
    ((run (url true) 2 failures (mounted (url true) 2)).created ≤ 3)
    × ((run (url true) 2 failures (mounted (url true) 2)).reconnect_attempts ≤ 2)
run-attempts_example =
    run-attempts (url true) 2 failures (tt, (tt, (tt, (tt, (tt, (tt, (tt, (tt, tt))))))))

run-disconnect_example :
    let h = run (url true) 5 (closes 0 ∷ timer 0 ∷ opens 1 ∷ []) (mounted (url true) 5) in
    (run (url true) 5 (closes 1 ∷ timer 1 ∷ []) (step (url true) 5 stop h)).created ≡ h.created
run-disconnect_example =
    run-disconnect (url true) 5 (closes 0 ∷ timer 0 ∷ opens 1 ∷ []) (closes 1 ∷ timer 1 ∷ [])
      (tt, (tt, (tt, tt))) (tt, (tt, tt))

run-overlapping_example :
    (ready : ℕ → Ready) × (last_error : Option Text) × (run
        (url true)
        5
        (overlapping 3)
        (mounted (url true) 5)
      ≡ overlap 4 3 ready last_error)
    × (ready 4 ≡ opened)
run-overlapping_example = run-overlapping 5 (omega arith) 3
