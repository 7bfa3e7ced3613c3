-- ===== src/Socket/Attempts.antt =====
-- The number of attempts to reconnect is bounded.
use multi_rpc.Prelude.{
  ℕ, suc, ◌+◌, ◌≤◌, ◌<◌, true, false, Option, none, some, List, [], ◌∷◌, ◌++◌, length, ltb, ◌≡◌,
  refl, arith, Bool-cases, inl, inr, ap, All,
}
use multi_rpc.Socket.{
  Hook, Event, Url, missing, url, opens, fails, closes, timer, reconnect, stop, step, run, mounted,
  unmounted, connect, on_error, on_close, disconnect, close_if_opened, close_current, clear_timeout,
  can_close, without, among,
}

-- the events of a backend that is away: no socket opens, and the hook's user does nothing
abbrev pub IsAway : Event → Type 0
IsAway (opens i) = ⊥
IsAway (fails i) = Unit
IsAway (closes i) = Unit
IsAway (timer t) = Unit
IsAway reconnect = ⊥
IsAway stop = Unit

length-append_one : (ts : List ℕ) (t : ℕ) → length (ts ++ t ∷ []) ≡ suc (length ts)
length-append_one [] t = refl
length-append_one (u ∷ ts) t = omega (arith, length-append_one ts t)

length-without_le : (t : ℕ) (ts : List ℕ) → length (without t ts) ≤ length ts
length-without_le t [] = omega arith
length-without_le t (u ∷ ts) = ground (arith, length-without_le t ts)

length-without : (t : ℕ) (ts : List ℕ) → among t ts ≡ true → length (without t ts) < length ts
length-without t [] h = cc h
length-without t (u ∷ ts) h = ground (arith, length-without t ts, length-without_le t ts)

-- Every connection but the first was paid for by an attempt, and every pending timer will be.
abbrev pub IsPaid : ℕ → Hook → Type 0
IsPaid max h =
    (h.created + length h.pending ≤ suc h.reconnect_attempts) × (h.reconnect_attempts ≤ max)

module _ (address : Url) (max : ℕ) where
  connect-pays :
      (h : Hook)
      → ((connect address h).created ≤ suc h.created)
        × ((connect address h).pending ≡ h.pending)
        × ((connect address h).reconnect_attempts ≡ h.reconnect_attempts)
  unfolding connect
  connect-pays h = go address
    where
      closed_first :
          (o : Option ℕ)
          → ((close_if_opened o h).created ≡ h.created)
            × ((close_if_opened o h).pending ≡ h.pending)
            × ((close_if_opened o h).reconnect_attempts ≡ h.reconnect_attempts)
      closed_first none = (refl, refl, refl)
      closed_first (some i) = (ground arith, ground arith, ground arith)

      go :
          (a : Url)
          → ((connect a h).created ≤ suc h.created)
            × ((connect a h).pending ≡ h.pending)
            × ((connect a h).reconnect_attempts ≡ h.reconnect_attempts)
      go missing = (omega arith, refl, refl)
      go (url true) = let (a, b, c) = closed_first h.current in (omega (arith, a), b, c)
      go (url false) = let (a, b, c) = closed_first h.current in (omega (arith, a), b, c)

  on_close-IsPaid : (i : ℕ) (h : Hook) → IsPaid max h → IsPaid max (on_close max i h)
  unfolding on_close
  on_close-IsPaid i h paid = elim (Bool-cases (ltb h.reconnect_attempts max)) [
    | inl y ↦ ground (arith, length-append_one h.pending h.timers_set)
    | inr n ↦ ground arith
  ]

  timer-IsPaid :
      (t : ℕ) (h : Hook)
      → among t h.pending ≡ true
      → IsPaid max h
      → IsPaid max (connect address (record h { pending = without t h.pending }))
  timer-IsPaid t h there paid =
      let h' : Hook = record h { pending = without t h.pending } in
      let (made, same, tried) = connect-pays h' in
      (
        omega (
          arith,
          made,
          ap (λ (ts : List ℕ). length ts) same,
          tried,
          length-without t h.pending there,
        ),
        omega (arith, tried),
      )

  disconnect-IsPaid : (h : Hook) → IsPaid max h → IsPaid max (disconnect max h)
  unfolding disconnect
  disconnect-IsPaid h paid = go h.current
    where
      fewer : length (clear_timeout h.reconnect_timeout h.pending) ≤ length h.pending
      fewer = clear h.reconnect_timeout
        where
          clear : (o : Option ℕ) → length (clear_timeout o h.pending) ≤ length h.pending
          clear none = omega arith
          clear (some t) = length-without_le t h.pending

      stopped : Hook
      stopped = record h {
        pending = clear_timeout h.reconnect_timeout h.pending;
        reconnect_attempts = max;
      }

      go : (o : Option ℕ) → IsPaid max (close_current o stopped)
      go none = (omega (arith, fewer, paid.0, paid.1), omega arith)
      go (some i) = (omega (arith, fewer, paid.0, paid.1), omega arith)

  step-IsPaid : (e : Event) (h : Hook) → IsAway e → IsPaid max h → IsPaid max (step address max e h)
  unfolding step on_error
  step-IsPaid (opens i) h away paid = absurd away
  step-IsPaid (fails i) h away paid = elim (Bool-cases (can_close (h.ready i))) [
    | inl y ↦ rw y paid
    | inr n ↦ rw n paid
  ]
  step-IsPaid (closes i) h away paid = elim (Bool-cases (can_close (h.ready i))) [
    | inl y ↦ rw y (on_close-IsPaid i h paid)
    | inr n ↦ rw n paid
  ]
  step-IsPaid (timer t) h away paid = elim (Bool-cases (among t h.pending)) [
    | inl y ↦ rw y (timer-IsPaid t h y paid)
    | inr n ↦ rw n paid
  ]
  step-IsPaid reconnect h away paid = absurd away
  step-IsPaid stop h away paid = disconnect-IsPaid h paid

  run-IsPaid :
      (es : List Event) (h : Hook)
      → All IsAway es
      → IsPaid max h
      → IsPaid max (run address max es h)
  unfolding run
  run-IsPaid [] h away paid = paid
  run-IsPaid (e ∷ es) h away paid =
      run-IsPaid es (step address max e h) away.1 (step-IsPaid e h away.0 paid)

  -- While no socket opens and the user of the hook does not ask for a connection, whatever sockets fail
  -- and close and whichever timers run out, the hook makes no more connections than one and the attempts
  -- that it is allowed: it gives up.
  pub run-attempts :
      (es : List Event)
      → All IsAway es
      → ((run address max es (mounted address max)).created ≤ suc max)
        × ((run address max es (mounted address max)).reconnect_attempts ≤ max)
  unfolding mounted
  run-attempts es away =
      let (made, same, tried) = connect-pays unmounted in
      let first : IsPaid max (connect address unmounted) =
        (omega (arith, made, ap (λ (ts : List ℕ). length ts) same, tried), omega (arith, tried)) in
      let (made', tried') = run-IsPaid es (connect address unmounted) away first in
      (omega (arith, made', tried'), tried')
