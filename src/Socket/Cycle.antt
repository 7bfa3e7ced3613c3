-- ===== src/Socket/Cycle.antt =====
-- What a call of the hook's `connect` does while a socket is open.
use multi_rpc.Prelude.{
  ℕ, suc, zero, ◌+◌, ◌<◌, true, false, Option, none, some, List, [], ◌∷◌, Text, ◌≡◌, refl, arith,
  ap, ◌∙◌,
}
use multi_rpc.Socket.{
  Hook, Ready, Event, url, opens, closes, timer, reconnect, step, run, mounted, connect, on_open,
  on_close, opened, connecting, closing, closed, set_ready,
}

-- The current socket is open, though the hook says that it is not connected, and a timer is pending
-- that will replace it.
abbrev pub overlap : ℕ → ℕ → (ℕ → Ready) → Option Text → Hook
overlap i t ready last_error = record {
  current = some i;
  reconnect_attempts = 1;
  reconnect_timeout = some t;
  is_connected = false;
  last_error = last_error;
  created = suc i;
  ready = ready;
  timers_set = suc t;
  pending = t ∷ [];
}

-- The timer runs out, the new socket opens and the old one closes, again and again.
abbrev pub rounds : ℕ → ℕ → ℕ → List Event
rounds zero i t = []
rounds (suc n) i t = timer t ∷ opens (suc i) ∷ closes i ∷ rounds n (suc i) (suc t)

-- A connection is made, `connect` is called while it is open, the new socket opens and the old one
-- closes; then the rounds begin.
abbrev pub overlapping : ℕ → List Event
overlapping n = opens 0 ∷ reconnect ∷ opens 1 ∷ closes 0 ∷ rounds n 1 0

-- the sockets after a round
abbrev after : ℕ → (ℕ → Ready) → ℕ → Ready
after i ready =
    set_ready i closed
      (set_ready (suc i) opened (set_ready (suc i) connecting (set_ready i closing ready)))

module _ (max : ℕ) (some_attempt : 0 < max) where
  module _ (i t : ℕ) (ready : ℕ → Ready) (last_error : Option Text) (live : ready i ≡ opened) where
    timed : Hook
    timed = record (overlap i t ready last_error) {
      current = some (suc i);
      created = suc (suc i);
      ready = set_ready (suc i) connecting (set_ready i closing ready);
      pending = [];
    }

    step-timer : step (url true) max (timer t) (overlap i t ready last_error) ≡ timed
    unfolding step connect timed
    step-timer = ground (arith, live)

    opened_again : Hook
    opened_again = record timed {
      ready = set_ready (suc i) opened timed.ready;
      is_connected = true;
      last_error = none;
      reconnect_attempts = 0;
    }

    step-opens : step (url true) max (opens (suc i)) timed ≡ opened_again
    unfolding step on_open timed opened_again
    step-opens = ground arith

    step-closes :
        step (url true) max (closes i) opened_again ≡ overlap (suc i) (suc t) (after i ready) none
    unfolding step on_close timed opened_again
    step-closes = ground arith

    one_round :
        step (url true) max (closes i) (
          step
            (url true)
            max
            (opens (suc i))
            (step (url true) max (timer t) (overlap i t ready last_error)))
        ≡ overlap (suc i) (suc t) (after i ready) none
    one_round = rw (step-timer, step-opens) step-closes

  run-rounds :
      (n i t : ℕ) (ready : ℕ → Ready) (last_error : Option Text)
      → ready i ≡ opened
      → (ready' : ℕ → Ready) × (last_error' : Option Text) × (run
            (url true)
            max
            (rounds n i t)
            (overlap i t ready last_error)
          ≡ overlap (i + n) (t + n) ready' last_error')
        × (ready' (i + n) ≡ opened)
  unfolding run
  run-rounds zero i t ready last_error live =
      let a : i + 0 ≡ i = omega arith in
      let b : t + 0 ≡ t = omega arith in (ready, last_error, rw (a, b) refl, rw a live)
  run-rounds (suc n) i t ready last_error live =
      let a : i + suc n ≡ suc i + n = omega arith in
      let b : t + suc n ≡ suc t + n = omega arith in
      let (ready', last_error', same, live') =
        run-rounds n (suc i) (suc t) (after i ready) none (ground arith) in
      (
        ready',
        last_error',
        ap (run (url true) max (rounds n (suc i) (suc t))) (one_round i t ready last_error live)
            ∙ rw (a, b) same,
        rw a live',
      )

  begin : Hook
  begin =
      overlap 1 0
        (set_ready 0 closed (
          set_ready 1 opened (
            set_ready 1 connecting
              (set_ready 0 closing (set_ready 0 opened (set_ready 0 connecting (λ i. closed)))))))
        none

  run-begin :
      (es : List Event)
      → run (url true) max (opens 0 ∷ reconnect ∷ opens 1 ∷ closes 0 ∷ es) (mounted (url true) max)
        ≡ run (url true) max es begin
  unfolding run step mounted connect on_open on_close begin
  run-begin es = ground arith

  -- If the hook's `connect` is called while its socket is open, and from then on each new socket opens
  -- before the one that it replaced has closed, the hook never settles: after `n` rounds it has made
  -- `n + 2` connections, has counted a single attempt, holds an open socket and says that it is not
  -- connected, and a timer is pending that will replace the socket again.
  pub run-overlapping :
      (n : ℕ)
      → (ready : ℕ → Ready) × (last_error : Option Text) × (run
            (url true)
            max
            (overlapping n)
            (mounted (url true) max)
          ≡ overlap (1 + n) (0 + n) ready last_error)
        × (ready (1 + n) ≡ opened)
  unfolding begin
  run-overlapping n =
      let (ready, last_error, same, live) = run-rounds n 1 0 begin.ready none refl in
      (ready, last_error, run-begin (rounds n 1 0) ∙ same, live)
