-- ===== src/Session/Signing.antt =====
-- The session after a sign-out.
use multi_rpc.Prelude.{ℕ, suc, ◌≡◌, refl, true, false, none, some, List, [], ◌∷◌, All}
use multi_rpc.Session.{
  SessionUser, PrivyState, Session, answered, Event, effect, fetched, sign_out, is_signed_in,
  fetch_user, step, run,
}

-- Privy has nobody signed in when the effect runs.
abbrev pub IsSignedOut : Event → Type 0
IsSignedOut (effect privy) = is_signed_in privy ≡ false
IsSignedOut (fetched outcome) = Unit
IsSignedOut sign_out = Unit

-- nobody, and no request on its way
abbrev IsEmpty : Session → Type 0
IsEmpty s = (s.user ≡ none) × (s.pending ≡ 0)

step-IsEmpty : (e : Event) (s : Session) → IsSignedOut e → IsEmpty s → IsEmpty (step true e s)
unfolding step fetch_user
step-IsEmpty (effect privy) s away (h, k) = rw away (refl, k)
step-IsEmpty (fetched outcome) s away (h, k) = rw k (h, refl)
step-IsEmpty sign_out s away (h, k) = (refl, k)

run-IsEmpty :
    (es : List Event) (s : Session) → All IsSignedOut es → IsEmpty s → IsEmpty (run true es s)
unfolding run
run-IsEmpty [] s away h = h
run-IsEmpty (e ∷ es) s away h = run-IsEmpty es (step true e s) away.1 (step-IsEmpty e s away.0 h)

-- With Privy, and no request on its way when the user signs out: until the effect finds somebody signed
-- in at Privy again the hook has no user, whatever else happens.
pub run-sign_out :
    (s : Session) (es : List Event)
    → s.pending ≡ 0
    → All IsSignedOut es
    → (run true es (step true sign_out s)).user ≡ none
unfolding step
run-sign_out s es idle away = (run-IsEmpty es (step true sign_out s) away (refl, idle)).0

-- With a request on its way at the sign-out, its answer puts the user back, though the effect has run
-- for nobody signed in at Privy in between.
pub run-answered :
    (s : Session) (privy : PrivyState) (user : SessionUser) (n : ℕ)
    → s.pending ≡ suc n
    → is_signed_in privy ≡ false
    → (run true (sign_out ∷ effect privy ∷ fetched (answered user) ∷ []) s).user ≡ some user
unfolding run step fetch_user
run-answered s privy user n waiting away = rw (away, waiting) refl
