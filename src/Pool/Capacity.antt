-- ===== src/Pool/Capacity.antt =====
-- The limit on the connections of relay-pool.ts, and what `getConnection` answers.
use mathlib.Core.Option
use synchrono_city.Prelude.{
  ℕ, suc, ◌≤◌, ◌≡◌, ◌↔◌, refl, sym, ap, ◌∙◌, Bool, true, false, not, Option, none, some, List, [],
  ◌∷◌, arith, Bool-cases, Option-cases, inl, inr, All, get_elem?, leb, length, modify,
  get_elem?-append_last, get_elem?-modify_self,
}
use synchrono_city.Prelude.Text.{JsString, truthy, ===_refl}
use synchrono_city.Prelude.Maps.{
  JsMap, IsMap, map_get, map_get-map_set, length-map_set, map_get-map_delete, length-map_delete-lt,
}
use synchrono_city.Prelude.Runtime.{Runtime}
use synchrono_city.Pool.State.{PooledConnection, RelayConnectionPool, no_handlers, has_handler}
use synchrono_city.Pool.Closing.{oldest_idle, evict_oldest_idle, Effect}
use synchrono_city.Pool.Connecting.{
  create_connection, reuse, open_at, make_room, Answer, reused, promised, syntax_error,
  normalize_url, get_connection,
}
use synchrono_city.Pool.Invariant.{close_absent}
use synchrono_city.Pool.Eviction.{evict_oldest_idle_lem}
use synchrono_city.Pool.Acquire.{
  cleared, made, get_reused, get_created, get_refused, has_handler-add,
}

-- A connection that has a message handler.
abbrev pub is_busy : List PooledConnection → ℕ → Bool
is_busy objects i = elim (get_elem? objects i) [ none ↦ true | some o ↦ not (no_handlers o) ]

busy_lem :
    (objects : List PooledConnection) (es : JsMap ℕ)
    → All (λ e. is_busy objects e.1 ≡ true) es
    → oldest_idle objects none es ≡ none
unfolding oldest_idle
busy_lem objects [] h = refl
busy_lem objects ((url, i) ∷ es) (b, h) = elim (Option-cases (get_elem? objects i)) [
  | inl e ↦ rw (e, oldest_idle) (busy_lem objects es h)
  | inr (o, e) ↦
      let taken : no_handlers o ≡ false = ground arith in
      rw (e, oldest_idle, taken) (busy_lem objects es h)
]

open_at-none :
    (url : JsString) (p : RelayConnectionPool)
    → map_get url p.connections ≡ none
    → open_at url p ≡ none
unfolding open_at
open_at-none url p e = rw (e, open_at) refl

make_room-space :
    (p : RelayConnectionPool)
    → leb p.max_connections (length p.connections) ≡ false
    → (make_room p).0 ≡ p
unfolding make_room
make_room-space p e = rw e refl

make_room-full :
    (p : RelayConnectionPool)
    → leb p.max_connections (length p.connections) ≡ true
    → make_room p ≡ evict_oldest_idle p
unfolding make_room
make_room-full p e = rw e refl

evict-none :
    (p : RelayConnectionPool)
    → oldest_idle p.objects none p.connections ≡ none
    → evict_oldest_idle p ≡ (p, [])
unfolding evict_oldest_idle
evict-none p e = rw (e, evict_oldest_idle) refl

module _ (rt : Runtime) (is_socket_url : JsString → Bool) (now : ℕ) (raw_url : JsString)
    (on_msg on_err : Option ℕ) (p : RelayConnectionPool)
    (fresh : map_get (normalize_url rt raw_url) p.connections ≡ none) where
  cleared_lem : cleared rt is_socket_url now raw_url on_msg on_err p ≡ (make_room p).0
  cleared_lem =
      ap (λ (r : RelayConnectionPool × List Effect). (make_room r.0).0)
        (close_absent (normalize_url rt raw_url) p fresh)

  -- A connection to a new URL, while all connections of a full pool have handlers, makes the pool
  -- larger than `maxConnections`.
  pub get_connection-overflow :
      is_socket_url (normalize_url rt raw_url) ≡ true
      → p.max_connections ≤ length p.connections
      → All (λ e. is_busy p.objects e.1 ≡ true) p.connections
      → length (get_connection rt is_socket_url now raw_url on_msg on_err p).0.connections
        ≡ suc (length p.connections)
  unfolding create_connection
  get_connection-overflow ok full busy =
      let same : cleared rt is_socket_url now raw_url on_msg on_err p ≡ p =
        cleared_lem
        ∙ ap (λ (r : RelayConnectionPool × List Effect). r.0)
            (make_room-full p (ground arith)
              ∙ evict-none p (busy_lem p.objects p.connections busy)) in
      rw
        (
          (get_created rt is_socket_url now raw_url on_msg on_err p (open_at-none _ p fresh) ok).0,
          same,
        )
        (length-map_set (normalize_url rt raw_url) (length p.objects) p.connections fresh)

  -- what is needed of the pool in which the connection is made
  abbrev HasRoom : RelayConnectionPool → Type 0
  HasRoom q =
      (suc (length q.connections) ≤ p.max_connections)
      × (map_get (normalize_url rt raw_url) q.connections ≡ none)

  has_name :
      (url : JsString) (i : ℕ)
      → map_get [] p.connections ≡ none
      → map_get url p.connections ≡ some i
      → truthy url ≡ true
  has_name [] i named found = cc
  has_name (ch ∷ s) i named found = refl

  room_within :
      (n j : ℕ) (u : JsString) (x : PooledConnection)
      → IsMap p.connections
      → map_get [] p.connections ≡ none
      → get_elem? p.connections n ≡ some (u, j)
      → get_elem? p.objects j ≡ some x
      → no_handlers x ≡ true
      → length p.connections ≤ p.max_connections
      → HasRoom (make_room p).0
  room_within n j u x m named at g idle fits =
      elim (Bool-cases (leb p.max_connections (length p.connections))) [
        | inr space ↦ rw (make_room-space p space) (ground arith, fresh)
        | inl full ↦
            let (url, i, o, found, here, free, le, e) =
              evict_oldest_idle_lem p n j u x m at g idle in
            rw (make_room-full p full, e, has_name url i named found)
              (
                omega (arith, length-map_delete-lt url p.connections found),
                ground (arith, map_get-map_delete url (normalize_url rt raw_url) p.connections),
              )
      ]

  made_within :
      HasRoom (make_room p).0
      → length
          (create_connection now
            (normalize_url rt raw_url)
            on_msg
            on_err
            (make_room p).0).0.connections
        ≤ p.max_connections
  unfolding create_connection
  made_within (room, absent) = omega (
    arith,
    length-map_set (normalize_url rt raw_url) (length (make_room p).0.objects)
        (make_room p).0.connections absent,
  )

  -- A connection to a URL that the map does not have keeps a pool within `maxConnections` if the pool
  -- is within it, its map has no URL twice, some connection, shown by an entry, has no message handler,
  -- and no connection has the empty string as its URL, which eviction would choose and not close.
  pub get_connection_within :
      (n j : ℕ) (u : JsString) (x : PooledConnection)
      → IsMap p.connections
      → map_get [] p.connections ≡ none
      → get_elem? p.connections n ≡ some (u, j)
      → get_elem? p.objects j ≡ some x
      → no_handlers x ≡ true
      → length p.connections ≤ p.max_connections
      → length (get_connection rt is_socket_url now raw_url on_msg on_err p).0.connections
        ≤ p.max_connections
  unfolding create_connection
  get_connection_within n j u x m named at g idle fits =
      let room = room_within n j u x m named at g idle fits in
      let gone = open_at-none _ p fresh in
      elim (Bool-cases (is_socket_url (normalize_url rt raw_url))) [
        | inl ok ↦
            rw ((get_created rt is_socket_url now raw_url on_msg on_err p gone ok).0, cleared_lem)
              (made_within room)
        | inr bad ↦
            rw ((get_refused rt is_socket_url now raw_url on_msg on_err p gone bad).0, cleared_lem)
              (omega (arith, room.0))
      ]

abbrev pub Holds : JsString → ℕ → RelayConnectionPool → ℕ → Type 0
Holds url h q i =
    (map_get url q.connections ≡ some i)
    × (o : PooledConnection) × (get_elem? q.objects i ≡ some o)
    × (has_handler h o.message_handlers ≡ true)

-- Whether an answer is a socket that the pool now holds under the normalized URL, with the handler
-- that was passed; an exception holds nothing.
abbrev pub IsServed : JsString → ℕ → RelayConnectionPool → Answer → Type 0
IsServed url h q (reused i) = Holds url h q i
IsServed url h q (promised i) = Holds url h q i
IsServed url h q syntax_error = Unit

open_at-some :
    (url : JsString) (p : RelayConnectionPool) (i : ℕ)
    → open_at url p ≡ some i
    → (map_get url p.connections ≡ some i)
      × (o : PooledConnection) × (get_elem? p.objects i ≡ some o)
unfolding open_at
open_at-some url p i h = elim (Option-cases (map_get url p.connections)) [
  | inl e ↦ let bad : ◌≡◌ {A = Option ℕ} none (some i) = rw (e, open_at) at h in cc
  | inr (j, e) ↦ elim (Option-cases (get_elem? p.objects j)) [
    | inl g ↦ let bad : ◌≡◌ {A = Option ℕ} none (some i) = rw (e, g, open_at) at h in cc
    | inr (o, g) ↦
        let same : j ≡ i = ground arith in
        (e ∙ ap some same, o, ap (get_elem? p.objects) (sym same) ∙ g)
  ]
]

reuse-Holds :
    (now i h : ℕ) (on_err : Option ℕ) (url : JsString) (p : RelayConnectionPool)
    → open_at url p ≡ some i
    → Holds url h (record p { objects = modify i (reuse now (some h) on_err) p.objects }) i
reuse-Holds now i h on_err url p e =
    let (found, o, g) = open_at-some url p i e in
    (
      found,
      reuse now (some h) on_err o,
      get_elem?-modify_self i (reuse now (some h) on_err) p.objects
          ∙ ap (Option.map (reuse now (some h) on_err)) g,
      has_handler-add h o.message_handlers,
    )

create-Holds :
    (now h : ℕ) (on_err : Option ℕ) (url : JsString) (p : RelayConnectionPool)
    → Holds url h (create_connection now url (some h) on_err p).0 (length p.objects)
unfolding create_connection
create-Holds now h on_err url p = (
  ground (arith, map_get-map_set url url (length p.objects) p.connections, ===_refl url),
  _,
  get_elem?-append_last p.objects _,
  has_handler-add h [],
)

-- A socket that `getConnection` answers with, at once or as a promise, is the one that the pool then
-- holds under the normalized URL, and the message handler that was passed is among its handlers. An
-- exception comes exactly when no open connection is at hand and the browser refuses the URL.
pub get_connection_answer :
    (rt : Runtime) (is_socket_url : JsString → Bool) (now h : ℕ) (raw_url : JsString)
    (on_err : Option ℕ) (p : RelayConnectionPool)
    → let q = get_connection rt is_socket_url now raw_url (some h) on_err p in
      let url = normalize_url rt raw_url in
      IsServed url h q.0 q.1
      × ((q.1 ≡ syntax_error) ↔ ((open_at url p ≡ none) × (is_socket_url url ≡ false)))
get_connection_answer rt is_socket_url now h raw_url on_err p =
    let url = normalize_url rt raw_url in
    elim (Option-cases (open_at url p)) [
      | inr (i, e) ↦
          rw (get_reused rt is_socket_url now raw_url (some h) on_err p i e)
            (reuse-Holds now i h on_err url p e, ((λ b. cc), (λ b. cc (e, b.0))))
      | inl e ↦ elim (Bool-cases (is_socket_url url)) [
        | inl ok ↦
            let (made, says) = get_created rt is_socket_url now raw_url (some h) on_err p e ok in
            rw (made, says)
              (
                create-Holds now h on_err url
                    (cleared rt is_socket_url now raw_url (some h) on_err p),
                ((λ b. cc), (λ b. cc (ok, b.1))),
              )
        | inr bad ↦
            let (_, says) = get_refused rt is_socket_url now raw_url (some h) on_err p e bad in
            rw says (tt, ((λ b. (e, bad)), (λ b. refl)))
      ]
    ]
