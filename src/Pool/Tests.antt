-- ===== src/Pool/Tests.antt =====
-- Runs of the pool of relay-pool.ts, and its theorems at concrete inputs.
use synchrono_city.Prelude.{
  ℕ, ◌≤◌, ◌≡◌, ◌↔◌, if◌then◌else◌, refl, Bool, true, false, none, some, List, [], ◌∷◌, ◌++◌, arith,
  get_elem?, length,
}
use synchrono_city.Prelude.Text.{JsString, codes, truthy, ◌===◌, trim}
use synchrono_city.Prelude.Maps.{map_get, IsMap}
use synchrono_city.Prelude.Sample.{sample_runtime}
use synchrono_city.Pool.State.{
  PooledConnection, RelayConnectionPool, open_state, connecting, resolved, create, no_handlers,
}
use synchrono_city.Pool.Closing.{evict_oldest_idle}
use synchrono_city.Pool.Connecting.{get_connection, normalize_url, syntax_error, open_at}
use synchrono_city.Pool.Events.{Payload, parsed, raw, call_all, deliver}
use synchrono_city.Pool.Messages.{deliver_twice}
use synchrono_city.Pool.Invariant.{IsValid, without}
use synchrono_city.Pool.Eviction.{evict_oldest_idle_lem}
use synchrono_city.Pool.Capacity.{
  get_connection-overflow, get_connection_within, IsServed, get_connection_answer,
}
use synchrono_city.Pool.Steps.{Reach, here, next, acquires, Reach-IsValid}

abbrev any_url : JsString → Bool
any_url url = true

abbrev connection_at : JsString → ℕ → List ℕ → ℕ → PooledConnection
connection_at url time handlers i = record {
  url = url;
  socket = i;
  state = open_state;
  last_activity = time;
  message_handlers = handlers;
  error_handlers = [];
}

abbrev url_a : JsString
url_a = codes "ws://a"

abbrev url_b : JsString
url_b = codes "ws://b"

-- Two open connections; the second has a handler if one is given.
abbrev pair : List ℕ → List ℕ → ℕ → RelayConnectionPool
pair first second most = record {
  connections = (url_a, 0) ∷ (url_b, 1) ∷ [];
  objects = connection_at url_a 5 first 0 ∷ connection_at url_b 3 second 1 ∷ [];
  openings = resolved ∷ resolved ∷ [];
  idle_check_interval = none;
  idle_timeout_ms = 10;
  max_connections = most;
}

pair-IsMap : IsMap (pair [] [] 2).connections
unfolding map_get ◌===◌
pair-IsMap = (refl, (refl, tt))

reached :
    Reach sample_runtime any_url
      (create none none)
      (get_connection sample_runtime any_url 1
        (codes " WS://A ")
        (some 7)
        none
        (create none none)).0
reached = next here (acquires 1 (codes " WS://A ") (some 7) none)

Reach-IsValid_example :
    IsValid
      (get_connection sample_runtime any_url 1
        (codes " WS://A ")
        (some 7)
        none
        (create none none)).0
Reach-IsValid_example = Reach-IsValid sample_runtime any_url none none _ reached

deliver_twice_example :
    (more more' : List (ℕ × Payload)) × (deliver true (λ h m. true) (4 ∷ [])
      ≡ (4, parsed) ∷ more ++ (4, raw) ∷ more')
unfolding call_all
deliver_twice_example = deliver_twice (λ h m. true) 4 [] refl

evict_oldest_idle_lem_example :
    (url : JsString) × (i : ℕ) × (o : PooledConnection) × (map_get url (pair [] [] 2).connections
      ≡ some i)
    × (get_elem? (pair [] [] 2).objects i ≡ some o)
    × (no_handlers o ≡ true)
    × (o.last_activity ≤ 5)
    × ((evict_oldest_idle (pair [] [] 2)).0
        ≡ (if truthy url then without url i (pair [] [] 2) else pair [] [] 2))
unfolding map_get ◌===◌
evict_oldest_idle_lem_example =
    evict_oldest_idle_lem (pair [] [] 2) 0 0 url_a (connection_at url_a 5 [] 0) pair-IsMap refl refl
      refl

get_connection-overflow_example :
    length
      (get_connection sample_runtime any_url 9
        (codes "ws://c")
        (some 8)
        none
        (pair (1 ∷ []) (2 ∷ []) 2)).0.connections
    ≡ 3
unfolding map_get ◌===◌ normalize_url trim sample_runtime
get_connection-overflow_example =
    get_connection-overflow sample_runtime any_url 9 (codes "ws://c") (some 8) none
      (pair (1 ∷ []) (2 ∷ []) 2) refl refl (omega arith) (refl, (refl, tt))

get_connection_within_example :
    length
      (get_connection sample_runtime any_url 9
        (codes "ws://c")
        (some 8)
        none
        (pair [] (2 ∷ []) 2)).0.connections
    ≤ 2
unfolding map_get ◌===◌ normalize_url trim sample_runtime
get_connection_within_example =
    get_connection_within sample_runtime any_url 9 (codes "ws://c") (some 8) none
      (pair [] (2 ∷ []) 2) refl 0 0 url_a (connection_at url_a 5 [] 0) pair-IsMap refl refl refl
      refl (omega arith)

get_connection_answer_example :
    let q = get_connection sample_runtime any_url 9 (codes "ws://c") (some 8) none (pair [] [] 2) in
    let url = normalize_url sample_runtime (codes "ws://c") in
    IsServed url 8 q.0 q.1
    × ((q.1 ≡ syntax_error) ↔ ((open_at url (pair [] [] 2) ≡ none) × (any_url url ≡ false)))
get_connection_answer_example =
    get_connection_answer sample_runtime any_url 9 8 (codes "ws://c") none (pair [] [] 2)

abbrev first_pool : RelayConnectionPool
first_pool = (get_connection sample_runtime any_url 1 url_a (some 7) none (create none none)).0

abbrev first_object : PooledConnection
first_object = record {
  url = url_a;
  socket = 0;
  state = connecting;
  last_activity = 1;
  message_handlers = 7 ∷ [];
  error_handlers = [];
}
