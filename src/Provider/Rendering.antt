-- ===== src/Provider/Rendering.antt =====
-- The hook of the provider before and after a render.
use multi_rpc.Prelude.{
  ℕ, ◌<◌, ◌≤◌, ◌≡◌, ◌≢◌, refl, sym, subst, ◌⊎◌, inl, inr, Bool, true, false, Bool-cases, Option,
  none, some, [], ◌∷◌, Text, ◌==◌, ltb, arith,
}
use multi_rpc.Socket.{
  Hook, Ready, connecting, opened, closing, closed, connect, disconnect, close_ready, clear_timeout,
  create, close_current,
}
use multi_rpc.Provider.{url_of, same_flag, is_same, render, rendered_if}

abbrev pub HasClosing : Hook → Type 0
HasClosing h = (j : ℕ) × (j < h.created) × (h.ready j ≡ closing)

abbrev pub HasOpened : Hook → Type 0
HasOpened h = (i : ℕ) × (h.current ≡ some i) × (h.ready i ≡ opened)

-- What holds of the hook before a render.
pub record IsRendered (h : Hook) : Type 0 where
  pub bound : (i : ℕ) → h.created ≤ i → h.ready i ≡ closed
  pub alone : (i : ℕ) → h.ready i ≡ connecting → h.current ≡ some i
  pub cleared : clear_timeout h.reconnect_timeout h.pending ≡ []
  pub replaced : h.is_connected ≡ true → HasClosing h ⊎ HasOpened h

-- What holds of it between the events.
pub record IsDoomed (max : ℕ) (h : Hook) : Type 0 where
  pub bound : (i : ℕ) → h.created ≤ i → h.ready i ≡ closed
  pub alone : (i : ℕ) → h.ready i ≡ connecting → h.current ≡ some i
  pub quiet : h.pending ≡ []
  pub spent : (h.reconnect_attempts ≡ max) ⊎ (h.is_connected ≡ true) ⊎ (h.created ≡ 0)
  pub replaced : h.is_connected ≡ true → HasClosing h
  pub connected : (i : ℕ) → h.current ≡ some i → h.ready i ≡ opened → h.is_connected ≡ true

pub clear_nothing : (o : Option ℕ) → clear_timeout o [] ≡ []
clear_nothing none = refl
clear_nothing (some t) = refl

pub IsDoomed-IsRendered : (max : ℕ) (h : Hook) → IsDoomed max h → IsRendered h
IsDoomed-IsRendered max h d = record {
  bound = d.bound;
  alone = d.alone;
  cleared = rw d.quiet (clear_nothing h.reconnect_timeout);
  replaced = λ e. inl (d.replaced e);
}

close_ready-stops : (r : Ready) → close_ready r ≢ connecting
close_ready-stops connecting e = cc e
close_ready-stops opened e = cc e
close_ready-stops closing e = cc e
close_ready-stops closed e = cc e

module _ (rpc_url : Option Text) (valid : Bool) (max : ℕ) where
  -- after the cleanup: no socket is connecting or current
  record IsCleaned (h : Hook) : Type 0 where
    pub bound : (i : ℕ) → h.created ≤ i → h.ready i ≡ closed
    pub none_connects : (i : ℕ) → h.ready i ≢ connecting
    pub gone : h.current ≡ none
    pub quiet : h.pending ≡ []
    pub spent : h.reconnect_attempts ≡ max
    pub replaced : h.is_connected ≡ true → HasClosing h

  made_before : (h : Hook) (i : ℕ) → IsRendered h → h.ready i ≡ opened → i < h.created
  made_before h i r live = elim (Bool-cases (ltb i h.created)) [
    | inl before ↦ ground arith
    | inr after_ ↦ absurd (cc (r.bound i (ground arith), live))
  ]

  disconnect-IsCleaned : (h : Hook) → IsRendered h → IsCleaned (disconnect max h)
  unfolding disconnect
  disconnect-IsCleaned h r = go h.current refl
    where
      h₀ : Hook
      h₀ = record h {
        pending = clear_timeout h.reconnect_timeout h.pending;
        reconnect_attempts = max;
      }

      go : (o : Option ℕ) → h.current ≡ o → IsCleaned (close_current o h₀)
      go none e = record {
        bound = r.bound;
        none_connects = λ i q. cc (r.alone i q, e);
        gone = e;
        quiet = r.cleared;
        spent = refl;
        replaced =
            λ c. elim (r.replaced c) [ inl k ↦ k | inr (i, here, live) ↦ absurd (cc (here, e)) ];
      }
      go (some i) e = record {
        bound = λ j out. elim (Bool-cases (i == j)) [
          | inl same ↦ rw (same, r.bound i (ground arith)) refl
          | inr apart ↦ rw apart (r.bound j out)
        ];
        none_connects = λ j. elim (Bool-cases (i == j)) [
          | inl same ↦ rw same (close_ready-stops (h.ready i))
          | inr apart ↦ rw apart (λ q. absurd (ground (arith, r.alone j q, e)))
        ];
        gone = refl;
        quiet = r.cleared;
        spent = refl;
        replaced = λ c. elim (r.replaced c) [
          | inl (j, made, shut) ↦ elim (Bool-cases (i == j)) [
            | inl same ↦ let same_ : i ≡ j = ground arith in (j, made, rw (same, same_, shut) refl)
            | inr apart ↦ (j, made, rw apart shut)
          ]
          | inr (j, here, live) ↦
              let same_ : j ≡ i = ground (arith, here, e) in
              let live_ : h.ready i ≡ opened = subst (λ k. h.ready k ≡ opened) same_ live in
              (i, made_before h i r live_, ground (arith, live_))
        ];
      }

  cleaned-IsDoomed : (h : Hook) → IsCleaned h → IsDoomed max h
  cleaned-IsDoomed h c = record {
    bound = c.bound;
    alone = λ i q. absurd (c.none_connects i q);
    quiet = c.quiet;
    spent = inl c.spent;
    replaced = c.replaced;
    connected = λ i here. absurd (cc (here, c.gone));
  }

  created-IsDoomed :
      (b : Bool) (h : Hook) → IsCleaned h → IsDoomed max (create b (record h { current = none }))
  created-IsDoomed true h c = record {
    bound = λ i out. ground (arith, c.bound i (omega arith));
    alone = λ i q. elim (Bool-cases (h.created == i)) [
      | inl same ↦ ground arith
      | inr apart ↦ absurd (c.none_connects i (rw apart at q))
    ];
    quiet = c.quiet;
    spent = inl c.spent;
    replaced = λ e.
        let (j, made, shut) = c.replaced e in
        let apart : (h.created == j) ≡ false = ground arith in (j, omega arith, rw apart shut);
    connected = λ i here live. absurd (ground (arith, here, live));
  }
  created-IsDoomed false h c = record {
    bound = c.bound;
    alone = λ i q. absurd (c.none_connects i q);
    quiet = c.quiet;
    spent = inl c.spent;
    replaced = c.replaced;
    connected = λ i here. cc here;
  }

  connect-IsDoomed :
      (address : Option Text) (h : Hook)
      → IsCleaned h
      → IsDoomed max (connect (url_of valid address) h)
  unfolding connect
  connect-IsDoomed none h c = cleaned-IsDoomed h c
  connect-IsDoomed (some []) h c = cleaned-IsDoomed h c
  connect-IsDoomed (some (x ∷ s)) h c = rw c.gone (created-IsDoomed valid h c)

  pub render-IsDoomed :
      (address : Option Text) (h : Hook)
      → IsRendered h
      → IsDoomed max (render rpc_url valid max address h)
  unfolding render
  render-IsDoomed address h r = connect-IsDoomed address _ (disconnect-IsCleaned h r)

  same_flag_sound : (a b : Bool) → same_flag a b ≡ true → a ≡ b
  same_flag_sound true b e = sym e
  same_flag_sound false true e = cc e
  same_flag_sound false false e = refl

  is_same-connected : (h h' : Hook) → is_same h h' ≡ true → h.is_connected ≡ h'.is_connected
  unfolding is_same
  is_same-connected h h' e = same_flag_sound h.is_connected h'.is_connected (ground (arith, e))

  -- An event with the render after it.
  pub rendered_if-IsDoomed :
      (address : Option Text) (h h' : Hook)
      → IsRendered h'
      → (h.is_connected ≡ h'.is_connected → IsDoomed max h')
      → IsDoomed max (rendered_if rpc_url valid max address (is_same h h') h')
  rendered_if-IsDoomed address h h' r d = elim (Bool-cases (is_same h h')) [
    | inl same ↦ rw same (d (is_same-connected h h' same))
    | inr new_ ↦ rw new_ (render-IsDoomed address h' r)
  ]

  -- A state that no render has to mend.
  pub unchanged-IsDoomed :
      (address : Option Text) (h h' : Hook)
      → IsDoomed max h'
      → IsDoomed max (rendered_if rpc_url valid max address (is_same h h') h')
  unchanged-IsDoomed address h h' d =
      rendered_if-IsDoomed address h h' (IsDoomed-IsRendered max h' d) (λ _. d)
