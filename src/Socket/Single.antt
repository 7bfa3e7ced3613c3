-- ===== src/Socket/Single.antt =====
-- What holds of the hook while nobody but itself calls `connect`: it has one socket or one timer.
use multi_rpc.Prelude.{
  ℕ, Bool, true, false, ◌==◌, Option, none, some, List, [], ◌∷◌, ◌++◌, All, ltb, ◌≡◌, ◌⊎◌, refl,
  arith, ap, ◌∙◌, Bool-cases, inl, inr,
}
use multi_rpc.Socket.{
  Hook, Ready, Event, Url, missing, url, opens, fails, closes, timer, reconnect, stop, step, run,
  connect, on_open, on_error, on_close, create, close_if_opened, without, among, opened, connecting,
  closing, closed, can_open, can_close, set_ready,
}

-- At most one socket is not closed, and it is the current one; at most one timer is pending, the last
-- one, and then no socket is left.
pub record IsSingle (h : Hook) : Type 0 where
  pub alone : (i : ℕ) → (h.ready i ≡ closed) ⊎ (h.current ≡ some i)
  pub waiting :
      (h.pending ≡ [])
      ⊎ ((t : ℕ) × (h.pending ≡ t ∷ [])
          × (h.reconnect_timeout ≡ some t)
          × ((i : ℕ) → h.ready i ≡ closed))

-- the events of the browser
abbrev pub IsOutside : Event → Type 0
IsOutside (opens i) = Unit
IsOutside (fails i) = Unit
IsOutside (closes i) = Unit
IsOutside (timer t) = Unit
IsOutside reconnect = ⊥
IsOutside stop = ⊥

live-current : (i : ℕ) (h : Hook) → can_close (h.ready i) ≡ true → IsSingle h → h.current ≡ some i
live-current i h can s = elim (s.alone i) [ inl shut ↦ ground arith | inr here ↦ here ]

live-pending : (i : ℕ) (h : Hook) → can_close (h.ready i) ≡ true → IsSingle h → h.pending ≡ []
live-pending i h can s = elim s.waiting [
  | inl none_left ↦ none_left
  | inr (t, one, last, shut) ↦ let shut_i : h.ready i ≡ closed = shut i in ground arith
]

opens-closes : (r : Ready) → can_open r ≡ true → can_close r ≡ true
opens-closes connecting h = refl
opens-closes opened h = cc h
opens-closes closing h = refl
opens-closes closed h = cc h

-- A socket that is the current one changes; the others stay closed.
set_ready-alone :
    (i : ℕ) (r : Ready) (h : Hook)
    → ((j : ℕ) → (h.ready j ≡ closed) ⊎ (h.current ≡ some j))
    → h.current ≡ some i
    → (j : ℕ) → (set_ready i r h.ready j ≡ closed) ⊎ (h.current ≡ some j)
set_ready-alone i r h alone here j = elim (Bool-cases (i == j)) [
  | inl y ↦ inr (ground arith)
  | inr n ↦ rw n (alone j)
]

without-one : (t u : ℕ) → among t (u ∷ []) ≡ true → (without t (u ∷ []) ≡ []) × (t ≡ u)
without-one t u h = (ground arith, ground arith)

module _ (address : Url) (max : ℕ) where
  on_open-IsSingle :
      (i : ℕ) (h : Hook) → can_open (h.ready i) ≡ true → IsSingle h → IsSingle (on_open i h)
  unfolding on_open
  on_open-IsSingle i h can s =
      let can' = opens-closes (h.ready i) can in
      record {
        alone = set_ready-alone i opened h s.alone (live-current i h can' s);
        waiting = inl (live-pending i h can' s);
      }

  all_closed :
      (i : ℕ) (h : Hook)
      → ((j : ℕ) → (h.ready j ≡ closed) ⊎ (h.current ≡ some j))
      → h.current ≡ some i
      → (j : ℕ) → set_ready i closed h.ready j ≡ closed
  all_closed i h alone here j = elim (alone j) [
    | inl shut ↦ ground arith
    | inr here' ↦ ground arith
  ]

  on_close-IsSingle :
      (i : ℕ) (h : Hook) → can_close (h.ready i) ≡ true → IsSingle h → IsSingle (on_close max i h)
  unfolding on_close
  on_close-IsSingle i h can s =
      let here = live-current i h can s in
      let empty = live-pending i h can s in
      elim (Bool-cases (ltb h.reconnect_attempts max)) [
        | inl y ↦ rw y (record {
          alone = λ j. inl (all_closed i h s.alone here j);
          waiting = inr (
            h.timers_set,
            ap (λ (ts : List ℕ). ts ++ h.timers_set ∷ []) empty,
            refl,
            all_closed i h s.alone here,
          );
        })
        | inr n ↦
            rw n (record { alone = λ j. inl (all_closed i h s.alone here j); waiting = inl empty })
      ]

  -- The only timer that can run out leaves nothing behind and finds every socket closed.
  timer-last :
      (t : ℕ) (h : Hook)
      → among t h.pending ≡ true
      → IsSingle h
      → (without t h.pending ≡ []) × ((i : ℕ) → h.ready i ≡ closed)
  timer-last t h there s = elim s.waiting [
    | inl empty ↦ let wrong : false ≡ true = (rw empty at there) in cc wrong
    | inr (u, one, last, shut) ↦ (ap (without t) one ∙ (without-one t u (rw one at there)).0, shut)
  ]

  pub connect-IsSingle :
      (h : Hook) → h.pending ≡ [] → ((i : ℕ) → h.ready i ≡ closed) → IsSingle (connect address h)
  unfolding connect
  connect-IsSingle h empty shut = go address
    where
      same : (o : Option ℕ) → close_if_opened o h ≡ h
      same none = refl
      same (some i) = let shut_i : h.ready i ≡ closed = shut i in rw shut_i refl

      create-IsSingle : (b : Bool) → IsSingle (create b h)
      create-IsSingle true = record {
        alone = λ j. elim (Bool-cases (h.created == j)) [
          | inl y ↦ inr (ground arith)
          | inr n ↦ inl (rw n (shut j))
        ];
        waiting = inl empty;
      }
      create-IsSingle false = record { alone = λ j. inl (shut j); waiting = inl empty }

      go : (a : Url) → IsSingle (connect a h)
      go missing = record { alone = λ j. inl (shut j); waiting = inl empty }
      go (url valid) = rw (same h.current) (create-IsSingle valid)

  step-IsSingle :
      (e : Event) (h : Hook) → IsOutside e → IsSingle h → IsSingle (step address max e h)
  unfolding step on_error
  step-IsSingle (opens i) h out s = elim (Bool-cases (can_open (h.ready i))) [
    | inl y ↦ rw y (on_open-IsSingle i h y s)
    | inr n ↦ rw n s
  ]
  step-IsSingle (fails i) h out s = elim (Bool-cases (can_close (h.ready i))) [
    | inl y ↦ rw y (record { alone = s.alone; waiting = s.waiting })
    | inr n ↦ rw n s
  ]
  step-IsSingle (closes i) h out s = elim (Bool-cases (can_close (h.ready i))) [
    | inl y ↦ rw y (on_close-IsSingle i h y s)
    | inr n ↦ rw n s
  ]
  step-IsSingle (timer t) h out s = elim (Bool-cases (among t h.pending)) [
    | inl y ↦
        let (empty, shut) = timer-last t h y s in
        rw y (connect-IsSingle (record h { pending = without t h.pending }) empty shut)
    | inr n ↦ rw n s
  ]
  step-IsSingle reconnect h out s = absurd out
  step-IsSingle stop h out s = absurd out

  pub run-IsSingle :
      (es : List Event) (h : Hook) → All IsOutside es → IsSingle h → IsSingle (run address max es h)
  unfolding run
  run-IsSingle [] h out s = s
  run-IsSingle (e ∷ es) h out s =
      run-IsSingle es (step address max e h) out.1 (step-IsSingle e h out.0 s)
