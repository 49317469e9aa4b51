-- ===== src/Pool/Cleanup.antt =====
-- Which connections the idle check of relay-pool.ts closes.
use synchrono_city.Prelude.{ℕ, ◌+◌, ◌≤◌, ◌<◌, ◌≡◌, ◌≢◌, ◌⊎◌, some, [], All}
use synchrono_city.Prelude.Maps.{JsMap, map_get}
use synchrono_city.Pool.State.{open_state, PooledConnection, RelayConnectionPool}

-- the entries that are left are those that the map has
abbrev IsLinked : RelayConnectionPool → JsMap ℕ → Type 0
IsLinked p es = All (λ e. map_get e.0 p.connections ≡ some e.1) es

-- An open connection without message handlers whose last activity is further back than the idle time.
pub record IsIdle (idle_timeout_ms now : ℕ) (o : PooledConnection) : Type 0 where
  pub opened : o.state ≡ open_state
  pub unheard : o.message_handlers ≡ []
  pub inactive : o.last_activity + idle_timeout_ms < now

-- What makes a connection one that the idle check leaves.
abbrev pub IsBusy : ℕ → ℕ → PooledConnection → Type 0
IsBusy idle_timeout_ms now o =
    (o.state ≢ open_state) ⊎ (o.message_handlers ≢ []) ⊎ (now ≤ o.last_activity + idle_timeout_ms)
