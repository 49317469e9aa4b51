-- ===== src/Pool/Closing.antt =====
-- apps/web/src/relay-pool.ts: how connections leave the pool, one by one, by eviction, by the idle
-- check and all at once.
use synchrono_city.Prelude.{
  ℕ, ◌+◌, Bool, true, ◌&&◌, Option, none, some, List, [], ◌∷◌, ◌++◌, ltb, if◌then◌else◌, modify,
  get_elem?,
}
use synchrono_city.Prelude.Text.{JsString, truthy}
use synchrono_city.Prelude.Maps.{JsMap, map_get, map_delete}
use synchrono_city.Pool.State.{
  ConnectionState, closing, PooledConnection, RelayConnectionPool, is_open, no_handlers,
}

-- What the pool does to the world: it makes a socket, closes one, or calls a handler.
pub data Effect : Type 0 where
  open_socket : ℕ → JsString → Effect
  close_socket : ℕ → Effect

abbrev pub set_state : ConnectionState → PooledConnection → PooledConnection
set_state st o = record o { state = st }

unfoldable pub close_connection : JsString → RelayConnectionPool → RelayConnectionPool × List Effect
close_connection url p = elim (map_get url p.connections) [
  | none ↦ (p, [])
  | some i ↦ (
    record p {
      objects = modify i (set_state closing) p.objects;
      connections = map_delete url p.connections;
    },
    close_socket i ∷ [],
  )
]

-- The loop of `evictOldestIdle`: `none` for the activity is infinity.
abbrev pub earlier : ℕ → Option ℕ → Bool
earlier t none = true
earlier t (some u) = ltb t u

abbrev pub better : PooledConnection → Option ℕ → Bool
better o oldest = no_handlers o && earlier o.last_activity oldest

abbrev pub best_time : Option (JsString × ℕ) → Option ℕ
best_time none = none
best_time (some b) = some b.1

-- The candidate after one entry.
abbrev pub pick : PooledConnection → JsString → Option (JsString × ℕ) → Option (JsString × ℕ)
pick o url best = if better o (best_time best) then some (url, o.last_activity) else best

unfoldable pub oldest_idle :
    List PooledConnection → Option (JsString × ℕ) → JsMap ℕ → Option (JsString × ℕ)
oldest_idle objects best [] = best
oldest_idle objects best ((url, i) ∷ es) = elim (get_elem? objects i) [
  | none ↦ oldest_idle objects best es
  | some o ↦ oldest_idle objects (pick o url best) es
]

unfoldable pub evict_oldest_idle : RelayConnectionPool → RelayConnectionPool × List Effect
unfolding oldest_idle close_connection
evict_oldest_idle p = elim (oldest_idle p.objects none p.connections) [
  | none ↦ (p, [])
  | some (url, t) ↦ if truthy url then close_connection url p else (p, [])
]

-- The loop of `cleanupIdleConnections`, over the entries that the map had.
abbrev pub is_expired : ℕ → ℕ → PooledConnection → Bool
is_expired idle now o = is_open o.state && ltb (o.last_activity + idle) now && no_handlers o

unfoldable pub cleanup_entry :
    ℕ → JsString → ℕ → RelayConnectionPool → RelayConnectionPool × List Effect
unfolding close_connection
cleanup_entry now url i p = elim (get_elem? p.objects i) [
  | none ↦ (p, [])
  | some o ↦ if is_expired p.idle_timeout_ms now o then close_connection url p else (p, [])
]

unfoldable pub cleanup_entries :
    ℕ → JsMap ℕ → RelayConnectionPool → RelayConnectionPool × List Effect
unfolding cleanup_entry
cleanup_entries now [] p = (p, [])
cleanup_entries now ((url, i) ∷ es) p =
    let (p', fx) = cleanup_entry now url i p in
    let (p'', gx) = cleanup_entries now es p' in (p'', fx ++ gx)

unfoldable pub cleanup_idle_connections :
    ℕ → RelayConnectionPool → RelayConnectionPool × List Effect
unfolding cleanup_entries
cleanup_idle_connections now p = cleanup_entries now p.connections p

-- The loop of `closeAll`, over the keys that the map had.
unfoldable pub close_entries : JsMap ℕ → RelayConnectionPool → RelayConnectionPool × List Effect
unfolding close_connection
close_entries [] p = (p, [])
close_entries ((url, i) ∷ es) p =
    let (p', fx) = close_connection url p in let (p'', gx) = close_entries es p' in (p'', fx ++ gx)

unfoldable pub close_all : RelayConnectionPool → RelayConnectionPool × List Effect
unfolding close_entries
close_all p = close_entries p.connections p
