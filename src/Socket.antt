-- ===== src/Socket.antt =====
-- The service of webClient/frontend/src/services/websocket.ts. A socket of socket.io is kept with
-- the token that it was opened with, and what the service does to it: whether the promise of its
-- `connect` is settled, how often the runner's listeners were added to it, which ones the trace form
-- added, what was sent, and whether it was disconnected. A socket that a new `connect` replaces stays
-- in the list: nothing disconnects it, and its listeners are still there.
use waddle_perf.Common.{
  ℕ, zero, suc, List, [], ◌∷◌, ◌++◌, map, Bool, true, false, not, ◌&&◌, if◌then◌else◌, Option, none,
  some, length, at,
}
use waddle_perf.Regex.{Text}

-- The listeners that a run of the effect of components/TraceTest.tsx adds: the number of the showing
-- of the form that they belong to, and the `isRunning` that they have kept.
pub record Watcher : Type 0 where
  pub showing : ℕ
  pub is_running : Bool

pub record Sock (A : Type 0) : Type 0 where
  pub token : Option Text
  pub settled : Bool
  pub listeners : ℕ
  pub watchers : List Watcher
  pub sent : List A
  pub closed : Bool

-- `socket` is the place of the current socket in `sockets`.
pub record Service (A : Type 0) : Type 0 where
  pub sockets : List (Sock A)
  pub socket : Option ℕ
  pub is_connected : Bool

abbrev pub is_there : Option ℕ → Bool
is_there none = false
is_there (some i) = true

-- `accessToken || undefined`
abbrev pub sent_token : Option Text → Option Text
sent_token none = none
sent_token (some []) = none
sent_token (some (c ∷ s)) = some (c ∷ s)

module _ {A : Type 0} where
  abbrev pub new_sock : Option Text → Sock A
  new_sock t = record {
    token = t;
    settled = false;
    listeners = 0;
    watchers = [];
    sent = [];
    closed = false;
  }

  abbrev pub new_service : Service A
  new_service = record { sockets = []; socket = none; is_connected = false }

  -- A change of the socket in a place, where there is one.
  abbrev pub change : (Sock A → Sock A) → ℕ → List (Sock A) → List (Sock A)
  change f i [] = []
  change f zero (k ∷ ks) = f k ∷ ks
  change f (suc i) (k ∷ ks) = k ∷ change f i ks

  abbrev pub change_at : (Sock A → Sock A) → ℕ → Service A → Service A
  change_at f i v = record v { sockets = change f i v.sockets }

  -- The same for the current socket: `if (this.socket) …`.
  abbrev pub change_current : (Sock A → Sock A) → Option ℕ → Service A → Service A
  change_current f none v = v
  change_current f (some i) v = change_at f i v

  abbrev pub settle : Sock A → Sock A
  settle k = record k { settled = true }

  -- `access_token` is what the storage holds.
  unfoldable pub connect : Option Text → Service A → Service A
  connect access_token v = record v {
    sockets = v.sockets ++ new_sock (sent_token access_token) ∷ [];
    socket = some (length v.sockets);
  }

  -- The listeners that `connect` adds, for the socket in place `i`.
  unfoldable pub on_connect : ℕ → Service A → Service A
  on_connect i v = record (change_at settle i v) { is_connected = true }

  unfoldable pub on_connect_error : ℕ → Service A → Service A
  on_connect_error i v = record (change_at settle i v) { is_connected = false }

  unfoldable pub on_disconnect : Service A → Service A
  on_disconnect v = record v { is_connected = false }

  unfoldable pub disconnect : Service A → Service A
  disconnect v = elim v.socket [
    | none ↦ v
    | some i ↦ record (change_at (λ k. record k { closed = true }) i v) {
      socket = none;
      is_connected = false;
    }
  ]

  -- The component that has used the service is gone: what its listeners and the rest of its
  -- `initializeWebSocket` would still do changes nothing any more.
  unfoldable pub abandon : Sock A → Sock A
  abandon k = if k.closed then k else record k { listeners = 0; settled = true }

  unfoldable pub abandon_all : Service A → Service A
  abandon_all v = record v { sockets = map abandon v.sockets }

  -- One call each of `onTestStarted`, `onTestProgress`, `onTestComplete` and `onError`.
  unfoldable pub add_listeners : Service A → Service A
  add_listeners v = change_current (λ k. record k { listeners = suc k.listeners }) v.socket v

  -- The calls of `onTestComplete` and `onError` that the trace form makes.
  unfoldable pub add_watcher : Watcher → Service A → Service A
  add_watcher x v = change_current (λ k. record k { watchers = k.watchers ++ x ∷ [] }) v.socket v

  unfoldable pub start_test : A → Service A → Service A
  start_test d v =
      if is_there v.socket && v.is_connected
      then change_current (λ k. record k { sent = d ∷ k.sent }) v.socket v
      else v

  -- What socket.io tells of the socket in place `i`; there are no events of a closed socket.
  abbrev pub is_open : ℕ → Service A → Bool
  is_open i v = elim (at i v.sockets) [ none ↦ false | some k ↦ not k.closed ]

  abbrev pub is_settled : ℕ → Service A → Bool
  is_settled i v = elim (at i v.sockets) [ none ↦ true | some k ↦ k.settled ]

  abbrev pub listeners_of : ℕ → Service A → ℕ
  listeners_of i v = elim (at i v.sockets) [ none ↦ 0 | some k ↦ k.listeners ]

  abbrev pub watchers_of : ℕ → Service A → List Watcher
  watchers_of i v = elim (at i v.sockets) [ none ↦ [] | some k ↦ k.watchers ]
