-- ===== src/Socket/Silence.antt =====
-- After `disconnect` the hook is silent, if nobody but itself called `connect`.
use multi_rpc.Prelude.{
  ℕ, false, ◌==◌, Option, none, some, List, [], ◌∷◌, All, ltb, ◌≡◌, refl, arith, ap, ◌∙◌,
  Bool-cases, inl, inr,
}
use multi_rpc.Socket.{
  Hook, Ready, Event, Url, opens, fails, closes, timer, reconnect, stop, step, run, mounted,
  unmounted, connect, on_error, on_close, disconnect, close_current, close_ready, clear_timeout,
  among, opened, connecting, closing, closed, can_open, can_close,
}
use multi_rpc.Socket.Single.{IsSingle, IsOutside, connect-IsSingle, run-IsSingle}

-- nothing is pending, and no socket can open any more
pub record IsSilent (max : ℕ) (h : Hook) : Type 0 where
  pub nothing : h.pending ≡ []
  spent : h.reconnect_attempts ≡ max
  unable : (i : ℕ) → can_open (h.ready i) ≡ false

module _ (address : Url) (max : ℕ) where
  close_ready-unable : (r : Ready) → can_open (close_ready r) ≡ false
  close_ready-unable connecting = refl
  close_ready-unable opened = refl
  close_ready-unable closing = refl
  close_ready-unable closed = refl

  disconnect-IsSilent :
      (h : Hook)
      → IsSingle h
      → IsSilent max (disconnect max h) × ((disconnect max h).created ≡ h.created)
  unfolding disconnect
  disconnect-IsSilent h s = go h.current refl
    where
      cleared : clear_timeout h.reconnect_timeout h.pending ≡ []
      cleared = elim s.waiting [
        | inl empty ↦ rw empty (clear h.reconnect_timeout)
        | inr (t, one, last, shut) ↦ rw (one, last) (ground arith)
      ]
        where
          clear : (o : Option ℕ) → clear_timeout o [] ≡ []
          clear none = refl
          clear (some t) = refl

      h' : Hook
      h' = record h {
        pending = clear_timeout h.reconnect_timeout h.pending;
        reconnect_attempts = max;
      }

      go :
          (o : Option ℕ)
          → h.current ≡ o
          → IsSilent max (close_current o h') × ((close_current o h').created ≡ h.created)
      go none e = (
        record {
          nothing = cleared;
          spent = refl;
          unable = λ j. elim (s.alone j) [ inl shut ↦ rw shut refl | inr here ↦ ground arith ];
        },
        refl,
      )
      go (some i) e = (
        record {
          nothing = cleared;
          spent = refl;
          unable = λ j. elim (Bool-cases (i == j)) [
            | inl y ↦ rw y (close_ready-unable (h.ready i))
            | inr n ↦ elim (s.alone j) [ inl shut ↦ rw (n, shut) refl | inr here ↦ ground arith ]
          ];
        },
        refl,
      )

  step-IsSilent :
      (e : Event) (h : Hook)
      → IsOutside e
      → IsSilent max h
      → IsSilent max (step address max e h) × ((step address max e h).created ≡ h.created)
  unfolding step on_error on_close
  step-IsSilent (opens i) h out s =
      let no : can_open (h.ready i) ≡ false = s.unable i in rw no (s, refl)
  step-IsSilent (fails i) h out s = elim (Bool-cases (can_close (h.ready i))) [
    | inl y ↦ rw y (record { nothing = s.nothing; spent = s.spent; unable = s.unable }, refl)
    | inr n ↦ rw n (s, refl)
  ]
  step-IsSilent (closes i) h out s = elim (Bool-cases (can_close (h.ready i))) [
    | inl y ↦
        let done : ltb h.reconnect_attempts max ≡ false = ground (arith, s.spent) in
        rw (y, done)
          (
            record {
              nothing = s.nothing;
              spent = s.spent;
              unable = λ j. elim (Bool-cases (i == j)) [
                | inl same ↦ rw same refl
                | inr n ↦ rw n (s.unable j)
              ];
            },
            refl,
          )
    | inr n ↦ rw n (s, refl)
  ]
  step-IsSilent (timer t) h out s =
      let no : among t h.pending ≡ false = ap (among t) s.nothing in rw no (s, refl)
  step-IsSilent reconnect h out s = absurd out
  step-IsSilent stop h out s = absurd out

  run-created :
      (es : List Event) (h : Hook)
      → All IsOutside es
      → IsSilent max h
      → (run address max es h).created ≡ h.created
  unfolding run
  run-created [] h out s = refl
  run-created (e ∷ es) h out s =
      let (s', same) = step-IsSilent e h out.0 s in
      run-created es (step address max e h) out.1 s' ∙ same

  -- Whatever the browser does before and after `disconnect`, the hook makes no connection any more once
  -- `disconnect` was called, if nobody but the hook itself has called its `connect`.
  pub run-disconnect :
      (before after : List Event)
      → All IsOutside before
      → All IsOutside after
      → let h = run address max before (mounted address max) in
        (run address max after (step address max stop h)).created ≡ h.created
  unfolding mounted step
  run-disconnect before after out out' =
      let first = connect-IsSingle address max unmounted refl (λ i. refl) in
      let h = run address max before (connect address unmounted) in
      let (silent, same) =
        disconnect-IsSilent h
          (run-IsSingle address max before (connect address unmounted) out first) in
      run-created after (disconnect max h) out' silent ∙ same
