-- ===== src/Pool/Events.antt =====
-- apps/web/src/relay-pool.ts: the listeners of a socket, and the timer of its promise.
use synchrono_city.Prelude.{ℕ, Bool, true, false, List, [], ◌∷◌, ◌++◌, map, if◌then◌else◌, modify}
use synchrono_city.Pool.State.{
  open_state, closed, Opening, pending, resolved, rejected, RelayConnectionPool,
}
use synchrono_city.Pool.Closing.{set_state}

-- A promise is settled once.
abbrev pub settle : Opening → Opening → Opening
settle outcome pending = outcome
settle outcome resolved = resolved
settle outcome rejected = rejected

-- The listeners of the socket at a position of the heap.
unfoldable pub on_open : ℕ → ℕ → RelayConnectionPool → RelayConnectionPool
on_open now i p = record p {
  objects = modify i (λ o. record o { state = open_state; last_activity = now }) p.objects;
  openings = modify i (settle resolved) p.openings;
}

unfoldable pub on_close : ℕ → RelayConnectionPool → RelayConnectionPool
on_close i p = record p { objects = modify i (set_state closed) p.objects }

unfoldable pub on_error : ℕ → RelayConnectionPool → RelayConnectionPool
on_error i p = record p { openings = modify i (settle rejected) p.openings }

-- The timer of ten seconds.
unfoldable pub on_open_timeout : ℕ → RelayConnectionPool → RelayConnectionPool
on_open_timeout i p = record p { openings = modify i (settle rejected) p.openings }

unfoldable pub on_message : ℕ → ℕ → RelayConnectionPool → RelayConnectionPool
on_message now i p = record p {
  objects = modify i (λ o. record o { last_activity = now }) p.objects;
}

-- What a message handler is called with: the parsed message, or the text itself.
pub data Payload : Type 0 where
  parsed raw : Payload

-- A loop over handlers ends at the first that throws. The result says whether one did.
unfoldable pub call_all : (ℕ → Bool) → List ℕ → List ℕ × Bool
call_all throws [] = ([], false)
call_all throws (h ∷ hs) =
    let rest = call_all throws hs in if throws h then (h ∷ [], true) else (h ∷ rest.0, rest.1)

abbrev pub with_payload : Payload → List ℕ → List (ℕ × Payload)
with_payload m hs = map (λ h. (h, m)) hs

-- The body of the "message" listener. `parses` says whether `JSON.parse` accepts the text; the
-- `catch` also takes what a handler throws.
unfoldable pub deliver : Bool → (ℕ → Payload → Bool) → List ℕ → List (ℕ × Payload)
unfolding call_all
deliver parses throws hs =
    let text = with_payload raw (call_all (λ h. throws h raw) hs).0 in
    let (called, threw) = call_all (λ h. throws h parsed) hs in
    if parses
    then (if threw then with_payload parsed called ++ text else with_payload parsed called)
    else text
