-- ===== src/Pool/Steps.antt =====
-- The calls and events of relay-pool.ts in any order.
use synchrono_city.Prelude.{ℕ, ◌≡◌, refl, Bool, Option, some, Option-cases, inl, inr}
use synchrono_city.Prelude.Text.{JsString}
use synchrono_city.Prelude.Maps.{map_get}
use synchrono_city.Prelude.Runtime.{Runtime}
use synchrono_city.Pool.State.{
  RelayConnectionPool, create, start_cleanup, stop_cleanup, open_state, closed,
}
use synchrono_city.Pool.Closing.{cleanup_idle_connections, close_all, set_state}
use synchrono_city.Pool.Connecting.{get_connection, cleanup_handler, forget}
use synchrono_city.Pool.Events.{on_open, on_close, on_error, on_open_timeout, on_message}
use synchrono_city.Pool.Invariant.{IsValid, cleanup-IsValid, close_all-IsValid}
use synchrono_city.Pool.Acquire.{create-IsValid, modify-IsValid, get_connection-IsValid}

module _ (rt : Runtime) (is_socket_url : JsString → Bool) where
  -- Events may come for any socket, also for one that the pool has dropped.
  pub data Step (p : RelayConnectionPool) : RelayConnectionPool → Type 0 where
    acquires :
        (now : ℕ) (url : JsString) (m e : Option ℕ)
        → Step p (get_connection rt is_socket_url now url m e p).0
    forgets : (url : JsString) (m e : Option ℕ) → Step p (cleanup_handler url m e p)
    starts : Step p (start_cleanup p)
    stops : Step p (stop_cleanup p)
    checks :
        (now every : ℕ)
        → p.idle_check_interval ≡ some every
        → Step p (cleanup_idle_connections now p).0
    closes_all : Step p (close_all p).0
    opens : (now i : ℕ) → Step p (on_open now i p)
    receives : (now i : ℕ) → Step p (on_message now i p)
    fails : (i : ℕ) → Step p (on_error i p)
    times_out : (i : ℕ) → Step p (on_open_timeout i p)
    closes : (i : ℕ) → Step p (on_close i p)

  pub data Reach (p : RelayConnectionPool) : RelayConnectionPool → Type 0 where
    here : Reach p p
    next : {q r : RelayConnectionPool} → Reach p q → Step q r → Reach p r

  forget-IsValid :
      (url : JsString) (m e : Option ℕ) (p : RelayConnectionPool)
      → IsValid p
      → IsValid (cleanup_handler url m e p)
  unfolding cleanup_handler
  forget-IsValid url m e p v = elim (Option-cases (map_get url p.connections)) [
    | inl absent ↦ rw (absent, cleanup_handler) v
    | inr (i, at) ↦
        rw (at, cleanup_handler) (modify-IsValid (forget m e) (λ o. refl) (λ o h. h) i p v)
  ]

  start-IsValid : (p : RelayConnectionPool) → IsValid p → IsValid (start_cleanup p)
  unfolding start_cleanup
  start-IsValid p v = elim (Option-cases p.idle_check_interval) [
    | inl off ↦ simp (off, start_cleanup) (record { keys = v.keys; linked = v.linked })
    | inr (n, on) ↦ simp (on, start_cleanup) v
  ]

  Step-IsValid : {p q : RelayConnectionPool} → Step p q → IsValid p → IsValid q
  unfolding stop_cleanup on_open on_message on_error on_open_timeout on_close
  Step-IsValid {p} (acquires now url m e) v =
      get_connection-IsValid rt is_socket_url now url m e p v
  Step-IsValid {p} (forgets url m e) v = forget-IsValid url m e p v
  Step-IsValid {p} starts v = start-IsValid p v
  Step-IsValid {p} stops v = record { keys = v.keys; linked = v.linked }
  Step-IsValid {p} (checks now every on) v = cleanup-IsValid now p v
  Step-IsValid {p} closes_all v = close_all-IsValid p v
  Step-IsValid {p} (opens now i) v =
      let w =
        modify-IsValid (λ o. record o { state = open_state; last_activity = now }) (λ o. refl)
          (λ o h. refl) i p v in
      record { keys = w.keys; linked = w.linked }
  Step-IsValid {p} (receives now i) v =
      modify-IsValid (λ o. record o { last_activity = now }) (λ o. refl) (λ o h. h) i p v
  Step-IsValid {p} (fails i) v = record { keys = v.keys; linked = v.linked }
  Step-IsValid {p} (times_out i) v = record { keys = v.keys; linked = v.linked }
  Step-IsValid {p} (closes i) v = modify-IsValid (set_state closed) (λ o. refl) (λ o h. refl) i p v

  -- After any calls and events, late events of dropped sockets included, the map has no URL twice,
  -- and what it holds under a URL is an object with that URL that the pool has not begun to close.
  pub Reach-IsValid :
      (idle most : Option ℕ) (p : RelayConnectionPool) → Reach (create idle most) p → IsValid p
  Reach-IsValid idle most p here = create-IsValid idle most
  Reach-IsValid idle most p (next {q} r s) = Step-IsValid s (Reach-IsValid idle most q r)
