-- ===== src/Pool/Dropping.antt =====
-- What `closeConnection` and `closeAll` of relay-pool.ts take out of the map.
use synchrono_city.Prelude.{
  ℕ, ◌≡◌, none, some, [], ◌∷◌, arith, Bool-cases, Option-cases, inl, inr, if◌then◌else◌,
}
use synchrono_city.Prelude.Text.{JsString, ===_iff, ◌===◌}
use synchrono_city.Prelude.Maps.{JsMap, map_get, map_get-map_delete}
use synchrono_city.Pool.State.{RelayConnectionPool}
use synchrono_city.Pool.Closing.{close_connection, close_entries, close_all}
use synchrono_city.Pool.Invariant.{close_absent, close_present}

pub close_drops :
    (u : JsString) (p : RelayConnectionPool) (url : JsString)
    → map_get url (close_connection u p).0.connections
      ≡ (if u === url then none else map_get url p.connections)
close_drops u p url = elim (Option-cases (map_get u p.connections)) [
  | inl e ↦ rw (close_absent u p e) (ground (arith, ===_iff u url))
  | inr (i, e) ↦ rw (close_present u i p e) (map_get-map_delete u url p.connections)
]

close_entries-none :
    (es : JsMap ℕ) (p : RelayConnectionPool) (url : JsString)
    → map_get url p.connections ≡ none
    → map_get url (close_entries es p).0.connections ≡ none
unfolding close_entries
close_entries-none [] p url h = h
close_entries-none ((u, j) ∷ es) p url h =
    close_entries-none es (close_connection u p).0 url (ground (arith, close_drops u p url))

close_entries-gone :
    (es : JsMap ℕ) (p : RelayConnectionPool) (url : JsString) (i : ℕ)
    → map_get url es ≡ some i
    → map_get url (close_entries es p).0.connections ≡ none
unfolding close_entries map_get
close_entries-gone [] p url i h = cc
close_entries-gone ((u, j) ∷ es) p url i h = elim (Bool-cases (u === url)) [
  | inl same ↦
      close_entries-none es (close_connection u p).0 url
        (unfold map_get in ground (arith, close_drops u p url))
  | inr other ↦ close_entries-gone es (close_connection u p).0 url i (simp other at h)
]

-- After `closeAll` no URL has a connection.
pub close_all_lem :
    (p : RelayConnectionPool) (url : JsString) → map_get url (close_all p).0.connections ≡ none
unfolding close_all
close_all_lem p url = elim (Option-cases (map_get url p.connections)) [
  | inl e ↦ close_entries-none p.connections p url e
  | inr (i, e) ↦ close_entries-gone p.connections p url i e
]
