-- ===== src/Session.antt =====
-- web-ui/src/hooks/use-auth.ts: the user of the browser's session. The hook's effect runs again whenever
-- what it reads of Privy changes; each of its requests waits for the token and for `/api/user/me`, and
-- they come back in any order. The user that Privy knows is only tested for being there.
pub mod Signing
use multi_rpc.Prelude.{
  ℕ, zero, suc, ◌+◌, Bool, true, false, not, ◌&&◌, ◌||◌, ◌==◌, Option, none, some, List, [], ◌∷◌,
  ◌++◌, Text, lit, if◌then◌else◌,
}

pub record SessionUser : Type 0 where
  pub id : Text
  pub privy_id : Text
  pub email : Option Text
  pub name : Option Text

-- what `usePrivy` gives on a render
pub record PrivyState : Type 0 where
  pub ready : Bool
  pub authenticated : Bool
  pub has_user : Bool

-- What `/api/user/me` comes to: an exception before or after the answer, a status that is not ok, or a
-- user.
pub data Fetched : Type 0 where
  threw : Fetched
  not_ok : (status : ℕ) → Fetched
  answered : SessionUser → Fetched

-- The state of the hook, how many requests are on their way, and where the router was sent.
pub record Session : Type 0 where
  pub user : Option SessionUser
  pub loading : Bool
  pub privy : PrivyState
  pub pending : ℕ
  pub visited : List Text

abbrev pub demo_user : SessionUser
demo_user = record {
  id = lit "demo-user";
  privy_id = lit "demo-user";
  email = some (lit "demo@example.com");
  name = some (lit "Demo User");
}

-- What happens next: the effect runs with what Privy gives, a request comes back, or `signOut` has
-- logged out.
pub data Event : Type 0 where
  effect : PrivyState → Event
  fetched : Fetched → Event
  sign_out : Event

abbrev pub is_signed_in : PrivyState → Bool
is_signed_in p = p.ready && p.authenticated && p.has_user

-- `configured` says that NEXT_PUBLIC_PRIVY_APP_ID is set
module _ (configured : Bool) where
  -- `fetchUser()` up to its first `await`
  unfoldable pub fetch_user : PrivyState → Session → Session
  fetch_user privy s =
      if not configured
      then record s { user = some demo_user; loading = false; privy = privy }
      else if not (is_signed_in privy)
      then record s { user = none; loading = false; privy = privy }
      else record s { privy = privy; pending = s.pending + 1 }

  abbrev pub refused : ℕ → Session → Session
  refused status s =
      if status == 401 then record s { user = none; visited = s.visited ++ lit "/auth" ∷ [] } else s

  abbrev pub arrive : Fetched → Session → Session
  arrive threw s = record s { user = none }
  arrive (not_ok status) s = refused status s
  arrive (answered user) s = record s { user = some user }

  -- the rest of a request that is on its way, with the `finally`
  abbrev pub finish : Fetched → ℕ → Session → Session
  finish outcome zero s = s
  finish outcome (suc n) s = record (arrive outcome s) { loading = false; pending = n }

  -- An answer that no request waits for leaves the state.
  unfoldable pub step : Event → Session → Session
  step (effect privy) s = fetch_user privy s
  step (fetched outcome) s = finish outcome s.pending s
  step sign_out s = record s { user = none; visited = s.visited ++ lit "/" ∷ [] }

  unfoldable pub run : List Event → Session → Session
  run [] s = s
  run (e ∷ es) s = run es (step e s)

  -- what the hook returns
  unfoldable pub is_loading : Session → Bool
  is_loading s = s.loading || not s.privy.ready

  unfoldable pub is_authenticated : Session → Bool
  is_authenticated s = s.privy.authenticated || not configured
