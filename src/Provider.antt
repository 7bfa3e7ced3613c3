-- ===== src/Provider.antt =====
-- web-ui/src/providers/websocket-provider.tsx: `WebSocketProvider`. It passes callbacks to `useWebSocket`
-- that are new on each render, so that each render with a changed state runs the cleanup and the effect
-- of the hook again: `disconnect` and `connect`. This is taken to happen before the next event. The
-- provider mounts without an address, and the one that a token gives it comes later.
pub mod Dropping
pub mod Closing
pub mod Rendering
use multi_rpc.Prelude.{
  ℕ, suc, ◌+◌, Bool, true, false, not, ◌&&◌, ◌||◌, Option, none, some, List, [], ◌∷◌, ◌++◌, drop,
  Text, lit, text_or, text_eq, starts_with, if◌then◌else◌,
}
use multi_rpc.Json.{Json}
use multi_rpc.Socket.{
  Hook, Url, missing, url, Event, opens, fails, closes, timer, unmounted, is_opened, connect,
  disconnect, step,
}

-- the `type` of a message, with its `data` where the provider keeps it
pub data Message : Type 0 where
  stats : Json → Message
  health : Json → Message
  endpoints : Message
  metrics : Message
  other : Message

pub record Provider : Type 0 where
  pub hook : Hook
  -- `websocketUrl`
  pub address : Option Text
  pub stats : Option Json
  pub health : Option Json
  pub last_update : Option ℕ

-- What happens next: a socket opens, fails or closes, a timer of the hook runs out, a socket receives a
-- message at a time, where one that does not parse is nothing, or `getAccessToken` answers a signed-in
-- user. The provider never calls the hook's `reconnect` and `disconnect`.
pub data Happening : Type 0 where
  socket_opens : (i : ℕ) → Happening
  socket_fails : (i : ℕ) → Happening
  socket_closes : (i : ℕ) → Happening
  timer_ends : (t : ℕ) → Happening
  message : (i : ℕ) (received : Option Message) (now : ℕ) → Happening
  token_answered : (token : Option Text) → Happening

-- `rpcUrl.replace(/^http/, 'ws')`
abbrev pub ws_url : Text → Text
ws_url rpc_url = if starts_with rpc_url (lit "http") then lit "ws" ++ drop 4 rpc_url else rpc_url

abbrev pub with_token : Text → Option Text → Option Text
with_token rpc_url none = none
with_token rpc_url (some []) = none
with_token rpc_url (some (c ∷ s)) = some (ws_url rpc_url ++ lit "/ws?token=" ++ c ∷ s)

-- The address that the first effect sets, from NEXT_PUBLIC_RPC_URL and the token of Privy.
unfoldable pub websocket_url : Option Text → (authenticated : Bool) → Option Text → Option Text
websocket_url none authenticated token = none
websocket_url (some []) authenticated token = none
websocket_url (some (c ∷ s)) authenticated token =
    if text_eq (c ∷ s) (lit "http://localhost:8080")
    then none
    else if authenticated
    then with_token (c ∷ s) token
    else none

abbrev pub same_flag : Bool → Bool → Bool
same_flag true b = b
same_flag false b = not b

abbrev pub same_text : Option Text → Option Text → Bool
same_text none none = true
same_text (some s) (some t) = text_eq s t
same_text none (some t) = false
same_text (some s) none = false

-- whether the hook's state is the same, so that nothing is rendered
unfoldable pub is_same : Hook → Hook → Bool
is_same h h' = same_flag h.is_connected h'.is_connected && same_text h.last_error h'.last_error

-- the `switch` of `onMessage`
abbrev pub keep : Message → Provider → Provider
keep (stats v) p = record p { stats = some v }
keep (health v) p = record p { health = some v }
keep endpoints p = p
keep metrics p = p
keep other p = p

-- `websocketUrl || ''`; `valid` says whether the browser accepts an address of the service, whatever the
-- token in it.
abbrev pub url_of : Bool → Option Text → Url
url_of valid none = missing
url_of valid (some []) = missing
url_of valid (some (c ∷ s)) = url valid

module _ (rpc_url : Option Text) (valid : Bool) (max : ℕ) where
  -- a render: the cleanup and the effect of the hook
  unfoldable pub render : Option Text → Hook → Hook
  render address h = connect (url_of valid address) (disconnect max h)

  abbrev pub rendered_if : Option Text → Bool → Hook → Hook
  rendered_if address true h = h
  rendered_if address false h = render address h

  abbrev pub hear : Option Message → ℕ → Provider → Provider
  hear none now p = p
  hear (some m) now p = keep m (record p { last_update = some now; hook = render p.address p.hook })

  -- an event of the hook, and the render that its new state asks for
  unfoldable pub act : Event → Provider → Provider
  act e p =
      let h = step (url_of valid p.address) max e p.hook in
      record p { hook = rendered_if p.address (is_same p.hook h) h }

  -- `setWebsocketUrl`
  abbrev pub set_address : Option Text → Provider → Provider
  set_address none p = p
  set_address (some a) p =
      if same_text p.address (some a)
      then p
      else record p { address = some a; hook = render (some a) p.hook }

  -- A socket that is not open receives nothing.
  unfoldable pub happen : Happening → Provider → Provider
  happen (socket_opens i) p = act (opens i) p
  happen (socket_fails i) p = act (fails i) p
  happen (socket_closes i) p = act (closes i) p
  happen (timer_ends t) p = act (timer t) p
  happen (message i received now) p = if is_opened (p.hook.ready i) then hear received now p else p
  happen (token_answered token) p = set_address (websocket_url rpc_url true token) p

  unfoldable pub happens : List Happening → Provider → Provider
  happens [] p = p
  happens (e ∷ es) p = happens es (happen e p)

  -- the provider after its first effects, which find no address
  unfoldable pub mounted : Provider
  mounted = record {
    hook = connect (url_of valid none) unmounted;
    address = none;
    stats = none;
    health = none;
    last_update = none;
  }
