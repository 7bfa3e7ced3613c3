-- ===== src/Socket.antt =====
-- web-ui/src/hooks/use-websocket.ts: `useWebSocket`. The browser's sockets are numbered in the order of
-- their creation; their events and those of the timers come in any order. The callbacks of the user of
-- the hook do not touch its state and are left out.
pub mod Attempts
pub mod Single
pub mod Silence
pub mod Cycle
use multi_rpc.Prelude.{
  ℕ, suc, ◌+◌, Bool, true, false, not, ◌==◌, Option, none, some, List, [], ◌∷◌, ◌++◌, Text, lit,
  ltb, length, if◌then◌else◌, filter,
}

-- WebSocket.readyState
pub data Ready : Type 0 where
  connecting : Ready
  opened : Ready
  closing : Ready
  closed : Ready

-- The refs and the state of the hook, the browser's sockets, and the timers that are pending.
pub record Hook : Type 0 where
  pub current : Option ℕ
  pub reconnect_attempts : ℕ
  pub reconnect_timeout : Option ℕ
  pub is_connected : Bool
  pub last_error : Option Text
  pub created : ℕ
  pub ready : ℕ → Ready
  pub timers_set : ℕ
  pub pending : List ℕ

abbrev pub unmounted : Hook
unmounted = record {
  current = none;
  reconnect_attempts = 0;
  reconnect_timeout = none;
  is_connected = false;
  last_error = none;
  created = 0;
  ready = λ i. closed;
  timers_set = 0;
  pending = [];
}

abbrev pub set_ready : ℕ → Ready → (ℕ → Ready) → ℕ → Ready
set_ready i r ready j = if i == j then r else ready j

abbrev pub is_opened : Ready → Bool
is_opened connecting = false
is_opened opened = true
is_opened closing = false
is_opened closed = false

-- `close()`: a socket that is closing or closed stays as it is
abbrev pub close_ready : Ready → Ready
close_ready connecting = closing
close_ready opened = closing
close_ready closing = closing
close_ready closed = closed

abbrev pub close : ℕ → Hook → Hook
close i h = record h { ready = set_ready i (close_ready (h.ready i)) h.ready }

-- `if (ws.current?.readyState === WebSocket.OPEN) ws.current.close()`
abbrev pub close_if_opened : Option ℕ → Hook → Hook
close_if_opened none h = h
close_if_opened (some i) h = if is_opened (h.ready i) then close i h else h

-- `new WebSocket(url)`, for an address that the browser accepts or refuses
abbrev pub create : Bool → Hook → Hook
create true h = record h {
  current = some h.created;
  created = h.created + 1;
  ready = set_ready h.created connecting h.ready;
}
create false h = record h { last_error = some (lit "Failed to connect") }

-- The address that the hook was given: none, or one that the browser accepts or refuses.
pub data Url : Type 0 where
  missing : Url
  url : (valid : Bool) → Url

-- `connect()`
unfoldable pub connect : Url → Hook → Hook
connect missing h = h
connect (url valid) h = create valid (close_if_opened h.current h)

-- `ws.current.onopen`
unfoldable pub on_open : ℕ → Hook → Hook
on_open i h = record h {
  ready = set_ready i opened h.ready;
  is_connected = true;
  last_error = none;
  reconnect_attempts = 0;
}

-- `ws.current.onerror`
unfoldable pub on_error : Hook → Hook
on_error h = record h { last_error = some (lit "Backend not available") }

-- `ws.current.onclose`
unfoldable pub on_close : ℕ → ℕ → Hook → Hook
on_close max i h =
    if ltb h.reconnect_attempts max
    then record h {
      ready = set_ready i closed h.ready;
      is_connected = false;
      reconnect_attempts = h.reconnect_attempts + 1;
      reconnect_timeout = some h.timers_set;
      timers_set = h.timers_set + 1;
      pending = h.pending ++ h.timers_set ∷ [];
    }
    else record h {
      ready = set_ready i closed h.ready;
      is_connected = false;
      last_error = some (lit "Max reconnection attempts reached");
    }

abbrev pub without : ℕ → List ℕ → List ℕ
without t = filter (λ u. not (t == u))

abbrev pub clear_timeout : Option ℕ → List ℕ → List ℕ
clear_timeout none pending = pending
clear_timeout (some t) pending = without t pending

abbrev pub close_current : Option ℕ → Hook → Hook
close_current none h = h
close_current (some i) h = record (close i h) { current = none }

-- `disconnect()`
unfoldable pub disconnect : ℕ → Hook → Hook
disconnect max h =
    close_current h.current
      (record h { pending = clear_timeout h.reconnect_timeout h.pending; reconnect_attempts = max })

abbrev pub can_open : Ready → Bool
can_open connecting = true
can_open opened = false
can_open closing = false
can_open closed = false

abbrev pub can_close : Ready → Bool
can_close connecting = true
can_close opened = true
can_close closing = true
can_close closed = false

abbrev pub among : ℕ → List ℕ → Bool
among t [] = false
among t (u ∷ us) = if t == u then true else among t us

-- What may happen next: a socket opens, fails or closes, a timer runs out, and the hook's own `connect`
-- and `disconnect` are called.
pub data Event : Type 0 where
  opens : (i : ℕ) → Event
  fails : (i : ℕ) → Event
  closes : (i : ℕ) → Event
  timer : (t : ℕ) → Event
  reconnect : Event
  stop : Event

module _ (address : Url) (max : ℕ) where
  -- An event that cannot happen in a state leaves it.
  unfoldable pub step : Event → Hook → Hook
  step (opens i) h = if can_open (h.ready i) then on_open i h else h
  step (fails i) h = if can_close (h.ready i) then on_error h else h
  step (closes i) h = if can_close (h.ready i) then on_close max i h else h
  step (timer t) h =
      if among t h.pending then connect address (record h { pending = without t h.pending }) else h
  step reconnect h = connect address h
  step stop h = disconnect max h

  unfoldable pub run : List Event → Hook → Hook
  run [] h = h
  run (e ∷ es) h = run es (step e h)

  -- the effect: `connect` on the mount
  unfoldable pub mounted : Hook
  mounted = connect address unmounted
