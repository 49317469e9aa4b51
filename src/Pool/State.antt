-- ===== src/Pool/State.antt =====
-- apps/web/src/relay-pool.ts: the connections, the pool, its statistics and its cleanup timer.
use synchrono_city.Prelude.{
  ℕ, ◌/◌, Bool, true, false, not, Option, none, some, or_else, List, [], ◌∷◌, ◌++◌, ◌==◌,
  if◌then◌else◌, filter, length, get_elem?,
}
use synchrono_city.Prelude.Text.{JsString}
use synchrono_city.Prelude.Maps.{JsMap}

pub data ConnectionState : Type 0 where
  connecting open_state closing closed : ConnectionState

-- A handler is the identity of a function, a socket the position of its object on the heap.
pub record PooledConnection : Type 0 where
  pub url : JsString
  pub socket : ℕ
  pub state : ConnectionState
  pub last_activity : ℕ
  pub message_handlers : List ℕ
  pub error_handlers : List ℕ

-- The promise that `createConnection` returns.
pub data Opening : Type 0 where
  pending resolved rejected : Opening

pub record RelayConnectionPool : Type 0 where
  pub connections : JsMap ℕ
  pub objects : List PooledConnection
  pub openings : List Opening
  pub idle_check_interval : Option ℕ
  pub idle_timeout_ms : ℕ
  pub max_connections : ℕ

unfoldable pub create : Option ℕ → Option ℕ → RelayConnectionPool
create idle_timeout_ms max_connections = record {
  connections = [];
  objects = [];
  openings = [];
  idle_check_interval = none;
  idle_timeout_ms = or_else idle_timeout_ms 30000;
  max_connections = or_else max_connections 5;
}

unfoldable pub has_handler : ℕ → List ℕ → Bool
has_handler h [] = false
has_handler h (x ∷ xs) = if x == h then true else has_handler h xs

-- `set.add(handler)`, where a handler is passed
unfoldable pub add_handler : Option ℕ → List ℕ → List ℕ
unfolding has_handler
add_handler none hs = hs
add_handler (some h) hs = if has_handler h hs then hs else hs ++ h ∷ []

-- `set.delete(handler)`, where a handler is passed
unfoldable pub delete_handler : Option ℕ → List ℕ → List ℕ
delete_handler none hs = hs
delete_handler (some h) hs = filter (λ x. not (x == h)) hs

-- Whether a state is "open".
abbrev pub is_open : ConnectionState → Bool
is_open open_state = true
is_open _ = false

abbrev pub no_handlers : PooledConnection → Bool
no_handlers o = length o.message_handlers == 0

-- The interval of the timer that runs `cleanupIdleConnections`.
unfoldable pub start_cleanup : RelayConnectionPool → RelayConnectionPool
start_cleanup p = elim p.idle_check_interval [
  | some every ↦ p
  | none ↦ record p { idle_check_interval = some (p.idle_timeout_ms / 2) }
]

unfoldable pub stop_cleanup : RelayConnectionPool → RelayConnectionPool
stop_cleanup p = record p { idle_check_interval = none }

pub record ConnectionStats : Type 0 where
  pub url : JsString
  pub state : ConnectionState
  pub last_activity : ℕ

unfoldable pub stats_of : List PooledConnection → JsMap ℕ → List ConnectionStats
stats_of objects [] = []
stats_of objects ((url, i) ∷ es) = elim (get_elem? objects i) [
  | none ↦ stats_of objects es
  | some o ↦
      record { url = url; state = o.state; last_activity = o.last_activity } ∷ stats_of objects es
]

unfoldable pub get_stats : RelayConnectionPool → ℕ × List ConnectionStats
unfolding stats_of
get_stats p = (length p.connections, stats_of p.objects p.connections)
