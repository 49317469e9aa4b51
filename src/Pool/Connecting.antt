-- ===== src/Pool/Connecting.antt =====
-- apps/web/src/relay-pool.ts: `getConnection` up to where it waits, and the cleanup it returns.
use synchrono_city.Prelude.{
  ℕ, Bool, Option, none, some, List, [], ◌∷◌, ◌++◌, leb, if◌then◌else◌, length, modify, get_elem?,
}
use synchrono_city.Prelude.Text.{JsString, trim}
use synchrono_city.Prelude.Maps.{map_get, map_set}
use synchrono_city.Prelude.Runtime.{Runtime}
use synchrono_city.Pool.State.{
  connecting, PooledConnection, pending, RelayConnectionPool, add_handler, delete_handler, is_open,
}
use synchrono_city.Pool.Closing.{Effect, open_socket, close_connection, evict_oldest_idle}

-- What the synchronous part of `createConnection` does once `new WebSocket(url)` has returned: the
-- new object stands at the end of the heap, which is its socket.
unfoldable pub create_connection :
    ℕ → JsString → Option ℕ → Option ℕ → RelayConnectionPool → RelayConnectionPool × List Effect
unfolding add_handler
create_connection now url on_message on_error p = (
  record p {
    connections = map_set url (length p.objects) p.connections;
    objects =
        p.objects
        ++ record {
          url = url;
          socket = length p.objects;
          state = connecting;
          last_activity = now;
          message_handlers = add_handler on_message [];
          error_handlers = add_handler on_error [];
        }
          ∷ [];
    openings = p.openings ++ pending ∷ [];
  },
  open_socket (length p.objects) url ∷ [],
)

abbrev pub reuse : ℕ → Option ℕ → Option ℕ → PooledConnection → PooledConnection
reuse now on_message on_error o = record o {
  last_activity = now;
  message_handlers = add_handler on_message o.message_handlers;
  error_handlers = add_handler on_error o.error_handlers;
}

-- The connection that the map holds, if it is open.
unfoldable pub open_at : JsString → RelayConnectionPool → Option ℕ
open_at url p = elim (map_get url p.connections) [
  | none ↦ none
  | some i ↦ elim (get_elem? p.objects i) [
    | none ↦ none
    | some o ↦ if is_open o.state then some i else none
  ]
]

unfoldable pub make_room : RelayConnectionPool → RelayConnectionPool × List Effect
unfolding evict_oldest_idle
make_room p = if leb p.max_connections (length p.connections) then evict_oldest_idle p else (p, [])

unfoldable pub normalize_url : Runtime → JsString → JsString
normalize_url rt url = rt.to_lower_case (trim url)

-- What `getConnection` answers: a socket that is open, the promise of one, or the exception of the
-- `WebSocket` constructor.
pub data Answer : Type 0 where
  reused promised : ℕ → Answer
  syntax_error : Answer

-- Whether `new WebSocket(url)` accepts the URL is the browser's.
module _ (rt : Runtime) (is_socket_url : JsString → Bool) where
  -- Everything that `getConnection` does before it waits.
  unfoldable pub get_connection :
      ℕ
      → JsString
      → Option ℕ
      → Option ℕ
      → RelayConnectionPool
      → RelayConnectionPool × Answer × List Effect
  get_connection now raw_url on_message on_error p =
      let url = normalize_url rt raw_url in
      elim (open_at url p) [
        | some i ↦ (
          record p { objects = modify i (reuse now on_message on_error) p.objects },
          reused i,
          [],
        )
        | none ↦
            let (p', fx) = close_connection url p in
            let (p'', gx) = make_room p' in
            if is_socket_url url
            then (let (q, hx) = create_connection now url on_message on_error p'' in
                (q, promised (length p''.objects), fx ++ gx ++ hx))
            else (p'', syntax_error, fx ++ gx)
      ]

abbrev pub forget : Option ℕ → Option ℕ → PooledConnection → PooledConnection
forget on_message on_error o = record o {
  message_handlers = delete_handler on_message o.message_handlers;
  error_handlers = delete_handler on_error o.error_handlers;
}

-- The `cleanup` of `getConnection`'s answer, for the URL that it has normalized.
unfoldable pub cleanup_handler :
    JsString → Option ℕ → Option ℕ → RelayConnectionPool → RelayConnectionPool
cleanup_handler url on_message on_error p = elim (map_get url p.connections) [
  | none ↦ p
  | some i ↦ record p { objects = modify i (forget on_message on_error) p.objects }
]
