-- ===== src/Provider/Closing.antt =====
-- What keeps a connection of the provider: another socket that has not closed yet.
use multi_rpc.Prelude.{
  ℕ, ◌<◌, ◌≤◌, ◌≡◌, ◌≢◌, refl, sym, subst, ◌∙◌, inl, inr, Bool, true, false, Bool-cases, Option,
  none, some, List, [], ◌∷◌, Text, ◌==◌, ltb, arith,
}
use multi_rpc.Socket.{
  Hook, Ready, connecting, opened, closing, closed, connect, step, on_open, on_error, on_close,
  set_ready, can_open, can_close, is_opened, among,
}
use multi_rpc.Provider.{
  Provider, Message, Happening, socket_opens, socket_fails, socket_closes, timer_ends, message,
  token_answered, render, hear, act, set_address, websocket_url, same_text, happen, happens,
  mounted,
}
use multi_rpc.Provider.Dropping.{keep-hook}
use multi_rpc.Provider.Rendering.{
  IsRendered, IsDoomed, clear_nothing, IsDoomed-IsRendered, render-IsDoomed, rendered_if-IsDoomed,
  unchanged-IsDoomed,
}

module _ (rpc_url : Option Text) (valid : Bool) (max : ℕ) where
  can_open-connecting : (r : Ready) → can_open r ≡ true → r ≡ connecting
  can_open-connecting connecting e = refl
  can_open-connecting opened e = cc e
  can_open-connecting closing e = cc e
  can_open-connecting closed e = cc e

  made_of : (h : Hook) (i : ℕ) → IsDoomed max h → can_close (h.ready i) ≡ true → i < h.created
  made_of h i d can = elim (Bool-cases (ltb i h.created)) [
    | inl before ↦ ground arith
    | inr after_ ↦
        let shut : h.ready i ≡ closed = d.bound i (ground arith) in
        let wrong : false ≡ true = rw shut at can in cc wrong
  ]

  on_open-IsRendered :
      (i : ℕ) (h : Hook) → h.ready i ≡ connecting → IsDoomed max h → IsRendered (on_open i h)
  unfolding on_open
  on_open-IsRendered i h fresh d =
      let made : i < h.created = made_of h i d (rw fresh refl) in
      record {
        bound = λ j out. let apart : (i == j) ≡ false = ground arith in rw apart (d.bound j out);
        alone = λ j. elim (Bool-cases (i == j)) [
          | inl same ↦ λ q. absurd (cc (rw same at q))
          | inr apart ↦ λ q. d.alone j (rw apart at q)
        ];
        cleared = rw d.quiet (clear_nothing h.reconnect_timeout);
        replaced = λ _. inr (i, d.alone i fresh, ground arith);
      }

  on_open-IsDoomed :
      (i : ℕ) (h : Hook)
      → h.ready i ≡ connecting
      → IsDoomed max h
      → h.is_connected ≡ true
      → IsDoomed max (on_open i h)
  unfolding on_open
  on_open-IsDoomed i h fresh d on =
      let r = on_open-IsRendered i h fresh d in
      record {
        bound = r.bound;
        alone = r.alone;
        quiet = d.quiet;
        spent = inr (inl refl);
        replaced = λ _.
            let (j, made, shut) = d.replaced on in
            elim (Bool-cases (i == j)) [
              | inl same ↦
                  let same_ : i ≡ j = ground arith in
                  let shut_ : h.ready i ≡ closing =
                    subst (λ k. h.ready k ≡ closing) (sym same_) shut in
                  absurd (cc (fresh, shut_))
              | inr apart ↦ (j, made, rw apart shut)
            ];
        connected = λ _ _ _. refl;
      }

  on_error-IsDoomed : (h : Hook) → IsDoomed max h → IsDoomed max (on_error h)
  unfolding on_error
  on_error-IsDoomed h d = record {
    bound = d.bound;
    alone = d.alone;
    quiet = d.quiet;
    spent = d.spent;
    replaced = d.replaced;
    connected = d.connected;
  }

  on_close-IsRendered : (i : ℕ) (h : Hook) → IsDoomed max h → IsRendered (on_close max i h)
  unfolding on_close
  on_close-IsRendered i h d =
      let bound_ : (j : ℕ) → h.created ≤ j → set_ready i closed h.ready j ≡ closed = λ j out.
        elim (Bool-cases (i == j)) [
          | inl same ↦ rw same refl
          | inr apart ↦ rw apart (d.bound j out)
        ] in
      let alone_ : (j : ℕ) → set_ready i closed h.ready j ≡ connecting → h.current ≡ some j = λ j.
        elim (Bool-cases (i == j)) [
          | inl same ↦ λ q. absurd (cc (rw same at q))
          | inr apart ↦ λ q. d.alone j (rw apart at q)
        ] in
      elim (Bool-cases (ltb h.reconnect_attempts max)) [
        | inl more ↦ simp (more) (record {
          bound = bound_;
          alone = alone_;
          cleared = ground (arith, d.quiet);
          replaced = λ e. cc e;
        })
        | inr over ↦ simp (over) (record {
          bound = bound_;
          alone = alone_;
          cleared = rw d.quiet (clear_nothing h.reconnect_timeout);
          replaced = λ e. cc e;
        })
      ]

  -- A close that changes nothing of the connection: it came to a provider that was not connected.
  on_close-IsDoomed :
      (i : ℕ) (h : Hook)
      → can_close (h.ready i) ≡ true
      → h.is_connected ≡ false
      → IsDoomed max h
      → IsDoomed max (on_close max i h)
  unfolding on_close
  on_close-IsDoomed i h can off d =
      let r = on_close-IsRendered i h d in
      let made : i < h.created = made_of h i d can in
      let spent_ : h.reconnect_attempts ≡ max = elim d.spent [
        | inl all_ ↦ all_
        | inr (inl on) ↦ cc (on, off)
        | inr (inr nothing) ↦ absurd (omega (arith, made, nothing))
      ] in
      let over : ltb h.reconnect_attempts max ≡ false = ground (arith, spent_) in
      simp (over) (record {
        bound = λ j out. elim (Bool-cases (i == j)) [
          | inl same ↦ rw same refl
          | inr apart ↦ rw apart (d.bound j out)
        ];
        alone = λ j. elim (Bool-cases (i == j)) [
          | inl same ↦ λ q. absurd (cc (rw same at q))
          | inr apart ↦ λ q. d.alone j (rw apart at q)
        ];
        quiet = d.quiet;
        spent = inl spent_;
        replaced = λ e. cc e;
        connected = λ j here. elim (Bool-cases (i == j)) [
          | inl same ↦ λ q. absurd (cc (rw same at q))
          | inr apart ↦ λ q. absurd (cc (off, d.connected j here (rw apart at q)))
        ];
      })

  on_close-off : (i : ℕ) (h : Hook) → (on_close max i h).is_connected ≡ false
  unfolding on_close
  on_close-off i h = elim (Bool-cases (ltb h.reconnect_attempts max)) [
    | inl more ↦ simp (more) refl
    | inr over ↦ simp (over) refl
  ]

  on_open-on : (i : ℕ) (h : Hook) → (on_open i h).is_connected ≡ true
  unfolding on_open
  on_open-on i h = refl

  hear-IsDoomed :
      (m : Option Message) (now : ℕ) (p : Provider)
      → IsDoomed max p.hook
      → IsDoomed max (hear rpc_url valid max m now p).hook
  hear-IsDoomed none now p d = d
  hear-IsDoomed (some m) now p d =
      rw
        (keep-hook m
          (record p { last_update = some now; hook = render rpc_url valid max p.address p.hook }))
        (render-IsDoomed rpc_url valid max p.address p.hook (IsDoomed-IsRendered max p.hook d))

  set_address-IsDoomed :
      (a : Option Text) (p : Provider)
      → IsDoomed max p.hook
      → IsDoomed max (set_address rpc_url valid max a p).hook
  set_address-IsDoomed none p d = d
  set_address-IsDoomed (some a) p d = elim (Bool-cases (same_text p.address (some a))) [
    | inl same ↦ simp (same) d
    | inr new_ ↦
        simp (new_)
          (render-IsDoomed rpc_url valid max (some a) p.hook (IsDoomed-IsRendered max p.hook d))
  ]

  happen-IsDoomed :
      (e : Happening) (p : Provider)
      → IsDoomed max p.hook
      → IsDoomed max (happen rpc_url valid max e p).hook
  unfolding happen act step
  happen-IsDoomed (socket_opens i) p d = elim (Bool-cases (can_open (p.hook.ready i))) [
    | inl can ↦
        let fresh = can_open-connecting (p.hook.ready i) can in
        simp (can) (
          rendered_if-IsDoomed rpc_url valid max p.address p.hook (on_open i p.hook)
            (on_open-IsRendered i p.hook fresh d)
            (λ same. on_open-IsDoomed i p.hook fresh d (same ∙ on_open-on i p.hook)))
    | inr cannot ↦ simp (cannot) (unchanged-IsDoomed rpc_url valid max p.address p.hook p.hook d)
  ]
  happen-IsDoomed (socket_fails i) p d = elim (Bool-cases (can_close (p.hook.ready i))) [
    | inl can ↦ simp (can) (
        unchanged-IsDoomed rpc_url valid max p.address p.hook (on_error p.hook)
          (on_error-IsDoomed p.hook d))
    | inr cannot ↦ simp (cannot) (unchanged-IsDoomed rpc_url valid max p.address p.hook p.hook d)
  ]
  happen-IsDoomed (socket_closes i) p d = elim (Bool-cases (can_close (p.hook.ready i))) [
    | inl can ↦ simp (can) (
        rendered_if-IsDoomed rpc_url valid max p.address p.hook (on_close max i p.hook)
          (on_close-IsRendered i p.hook d)
          (λ same. on_close-IsDoomed i p.hook can (same ∙ on_close-off i p.hook) d))
    | inr cannot ↦ simp (cannot) (unchanged-IsDoomed rpc_url valid max p.address p.hook p.hook d)
  ]
  happen-IsDoomed (timer_ends t) p d =
      let idle : among t p.hook.pending ≡ false = rw d.quiet refl in
      simp (idle) (unchanged-IsDoomed rpc_url valid max p.address p.hook p.hook d)
  happen-IsDoomed (message i received now) p d = elim (Bool-cases (is_opened (p.hook.ready i))) [
    | inl live ↦ simp (live) (hear-IsDoomed received now p d)
    | inr dead ↦ simp (dead) d
  ]
  happen-IsDoomed (token_answered token) p d =
      set_address-IsDoomed (websocket_url rpc_url true token) p d

  happens-IsDoomed :
      (es : List Happening) (p : Provider)
      → IsDoomed max p.hook
      → IsDoomed max (happens rpc_url valid max es p).hook
  unfolding happens
  happens-IsDoomed [] p d = d
  happens-IsDoomed (e ∷ es) p d =
      happens-IsDoomed es (happen rpc_url valid max e p) (happen-IsDoomed e p d)

  mounted-IsDoomed : IsDoomed max (mounted rpc_url valid max).hook
  unfolding mounted connect
  mounted-IsDoomed = record {
    bound = λ i out. refl;
    alone = λ i q. cc q;
    quiet = refl;
    spent = inr (inr refl);
    replaced = λ e. cc e;
    connected = λ i here. cc here;
  }

  -- From the mount of the provider on, whatever its sockets and timers do, whatever messages come and
  -- whatever tokens it is given: at every moment when none of its sockets is still closing, it has no
  -- open connection and is not connected.
  pub happens-unconnected :
      (es : List Happening)
      → let h = (happens rpc_url valid max es (mounted rpc_url valid max)).hook in
        ((j : ℕ) → h.ready j ≢ closing)
        → (h.is_connected ≡ false) × ((i : ℕ) → h.current ≡ some i → h.ready i ≢ opened)
  happens-unconnected es none_closes =
      let h = (happens rpc_url valid max es (mounted rpc_url valid max)).hook in
      let d = happens-IsDoomed es (mounted rpc_url valid max) mounted-IsDoomed in
      let off : h.is_connected ≡ true → ⊥ =
        λ on. let (j, made, shut) = d.replaced on in none_closes j shut in
      (
        elim (Bool-cases h.is_connected) [ inl on ↦ absurd (off on) | inr is_off ↦ is_off ],
        λ i here live. off (d.connected i here live),
      )
