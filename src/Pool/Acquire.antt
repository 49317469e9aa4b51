-- ===== src/Pool/Acquire.antt =====
-- `getConnection` of relay-pool.ts, the cleanup that it returns, and the events of its sockets.
use synchrono_city.Prelude.{
  ℕ, ◌≡◌, refl, sym, ap, ◌∙◌, Bool, true, false, Option, none, some, List, [], ◌∷◌, ◌++◌, arith,
  Bool-cases, Option-cases, inl, inr, get_elem?, leb, ◌==◌, get_elem?-modify_ne,
  get_elem?-modify_self, get_elem?-append_left, get_elem?-append_last, length, modify, ==_iff,
}
use mathlib.Core.Option
use synchrono_city.Prelude.Text.{JsString, ===_iff, ◌===◌}
use synchrono_city.Prelude.Maps.{map_get, map_get-map_set, map_set-IsMap}
use synchrono_city.Prelude.Runtime.{Runtime}
use synchrono_city.Pool.State.{
  PooledConnection, RelayConnectionPool, create, add_handler, has_handler,
}
use synchrono_city.Pool.Closing.{Effect, close_connection}
use synchrono_city.Pool.Connecting.{
  create_connection, reuse, open_at, make_room, Answer, reused, promised, syntax_error,
  normalize_url, get_connection,
}
use synchrono_city.Pool.Invariant.{IsValid, is_closing, close-IsValid, evict-IsValid}

pub create-IsValid : (idle most : Option ℕ) → IsValid (create idle most)
unfolding create map_get
create-IsValid idle most = record { keys = tt; linked = λ url i e. cc }

-- A write to one object that keeps its URL and does not begin to close it.
pub modify-IsValid :
    (f : PooledConnection → PooledConnection)
    → ((o : PooledConnection) → (f o).url ≡ o.url)
    → ((o : PooledConnection) → is_closing o.state ≡ false → is_closing (f o).state ≡ false)
    → (j : ℕ) (p : RelayConnectionPool) → IsValid p
    → IsValid (record p { objects = modify j f p.objects })
modify-IsValid f urls states j p v = record {
  keys = v.keys;
  linked = λ url i at.
      let (o, g, u, c) = v.linked url i at in
      elim (Bool-cases (i == j)) [
        | inl hit ↦
            let e : i ≡ j = (==_iff i j).0 hit in
            (
              f o,
              ap (λ (n : ℕ). get_elem? (modify j f p.objects) n) e
                  ∙ get_elem?-modify_self j f p.objects
                  ∙ ap (Option.map f) (ap (get_elem? p.objects) (sym e) ∙ g),
              urls o ∙ u,
              states o c,
            )
        | inr miss ↦ (o, get_elem?-modify_ne i j f p.objects (ground arith) ∙ g, u, c)
      ];
}

create_connection-IsValid :
    (now : ℕ) (url : JsString) (m e : Option ℕ) (p : RelayConnectionPool)
    → IsValid p
    → IsValid (create_connection now url m e p).0
unfolding create_connection
create_connection-IsValid now url m e p v = record {
  keys = map_set-IsMap url (length p.objects) p.connections v.keys;
  linked = λ other i at. elim (Bool-cases (url === other)) [
    | inl same ↦
        let fresh : length p.objects ≡ i =
          ground (arith, map_get-map_set url other (length p.objects) p.connections) in
        (
          _,
          ap (get_elem? _) (sym fresh) ∙ get_elem?-append_last p.objects _,
          (===_iff url other).0 same,
          refl,
        )
    | inr differs ↦
        let old : map_get other p.connections ≡ some i =
          ground (arith, map_get-map_set url other (length p.objects) p.connections) in
        let (o, g, u, c) = v.linked other i old in (o, get_elem?-append_left p.objects _ i g, u, c)
  ];
}

make_room-IsValid : (p : RelayConnectionPool) → IsValid p → IsValid (make_room p).0
unfolding make_room
make_room-IsValid p v = elim (Bool-cases (leb p.max_connections (length p.connections))) [
  | inl full ↦ rw full (evict-IsValid p v)
  | inr space ↦ rw space v
]

pub has_handler-add : (h : ℕ) (hs : List ℕ) → has_handler h (add_handler (some h) hs) ≡ true
unfolding add_handler has_handler
has_handler-add h hs = elim (Bool-cases (has_handler h hs)) [
  | inl there ↦ rw (there, there) refl
  | inr new ↦ rw new (at_end hs)
]
  where
    at_end : (xs : List ℕ) → has_handler h (xs ++ h ∷ []) ≡ true
    at_end [] = ground arith
    at_end (x ∷ xs) = ground (arith, at_end xs)

module _ (rt : Runtime) (is_socket_url : JsString → Bool) (now : ℕ) (raw_url : JsString)
    (on_msg on_err : Option ℕ) (p : RelayConnectionPool) where
  abbrev pub key : JsString
  key = normalize_url rt raw_url

  abbrev pub got : RelayConnectionPool × Answer × List Effect
  got = get_connection rt is_socket_url now raw_url on_msg on_err p

  -- the pool in which the new connection is made
  abbrev pub cleared : RelayConnectionPool
  cleared = (make_room (close_connection key p).0).0

  abbrev pub made : RelayConnectionPool
  made = (create_connection now key on_msg on_err cleared).0

  pub get_reused :
      (i : ℕ)
      → open_at key p ≡ some i
      → got ≡ (record p { objects = modify i (reuse now on_msg on_err) p.objects }, reused i, [])
  unfolding get_connection
  get_reused i e = rw (e, get_connection) refl

  pub get_created :
      open_at key p ≡ none
      → is_socket_url key ≡ true
      → (got.0 ≡ made) × (got.1 ≡ promised (length cleared.objects))
  unfolding get_connection
  get_created e ok = rw (e, get_connection, ok) (refl, refl)

  pub get_refused :
      open_at key p ≡ none → is_socket_url key ≡ false → (got.0 ≡ cleared) × (got.1 ≡ syntax_error)
  unfolding get_connection
  get_refused e bad = rw (e, get_connection, bad) (refl, refl)

  -- `getConnection` keeps the invariant, whichever way it returns.
  pub get_connection-IsValid : IsValid p → IsValid got.0
  get_connection-IsValid v = elim (Option-cases (open_at key p)) [
    | inr (i, e) ↦
        rw (get_reused i e) (modify-IsValid (reuse now on_msg on_err) (λ o. refl) (λ o h. h) i p v)
    | inl e ↦
        let room = make_room-IsValid (close_connection key p).0 (close-IsValid key p v) in
        elim (Bool-cases (is_socket_url key)) [
          | inl ok ↦
              rw ((get_created e ok).0)
                (create_connection-IsValid now key on_msg on_err cleared room)
          | inr bad ↦ rw ((get_refused e bad).0) room
        ]
  ]
