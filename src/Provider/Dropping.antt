-- ===== src/Provider/Dropping.antt =====
-- What the renders of the provider do to its connection.
use multi_rpc.Prelude.{ℕ, suc, ◌<◌, ◌≡◌, refl, true, Option, some, ◌∷◌, Text, arith}
use multi_rpc.Socket.{Hook, connecting, opened, closing, connect, disconnect}
use multi_rpc.Provider.{
  Provider, Message, stats, health, endpoints, metrics, other, keep, render, message, happen,
}

pub keep-hook : (m : Message) (p : Provider) → (keep m p).hook ≡ p.hook
keep-hook (stats v) p = refl
keep-hook (health v) p = refl
keep-hook endpoints p = refl
keep-hook metrics p = refl
keep-hook other p = refl

module _ (rpc_url : Option Text) (c : ℕ) (address : Text) (max : ℕ) where
  render-drops :
      (i : ℕ) (h : Hook)
      → h.current ≡ some i
      → h.ready i ≡ opened
      → i < h.created
      → let h' = render rpc_url true max (some (c ∷ address)) h in
        (h'.current ≡ some h.created)
        × (h'.ready h.created ≡ connecting)
        × (h'.ready i ≡ closing)
        × (h'.created ≡ suc h.created)
  unfolding render connect disconnect
  render-drops i h here live old =
      (ground (arith, here), ground (arith, here), ground (arith, here, live), ground (arith, here))

  -- Every message that the provider understands costs it the connection that the message came over: the
  -- open socket is told to close, and a new one is connecting in its place.
  pub happen-message :
      (i now : ℕ) (m : Message) (p : Provider)
      → p.address ≡ some (c ∷ address)
      → p.hook.current ≡ some i
      → p.hook.ready i ≡ opened
      → i < p.hook.created
      → let h = (happen rpc_url true max (message i (some m) now) p).hook in
        (h.current ≡ some p.hook.created)
        × (h.ready p.hook.created ≡ connecting)
        × (h.ready i ≡ closing)
        × (h.created ≡ suc p.hook.created)
  unfolding happen
  happen-message i now m p given here live old =
      rw (live, given, keep-hook m _) (render-drops i p.hook here live old)
