-- ===== src/Pool/Invariant.antt =====
-- The invariant of the pool of relay-pool.ts, kept by every operation and every event.
use synchrono_city.Prelude.{
  ℕ, ◌≡◌, ◌≢◌, refl, sym, ap, ◌∙◌, Bool, true, false, none, some, [], ◌∷◌, arith, Bool-cases,
  Option-cases, inl, inr, get_elem?, get_elem?-modify_ne, modify,
}
use synchrono_city.Prelude.Text.{JsString, truthy, ===_iff}
use synchrono_city.Prelude.Maps.{
  JsMap, map_get, map_delete, map_get-map_delete, IsMap, map_delete-IsMap,
}
use synchrono_city.Pool.State.{ConnectionState, closing, PooledConnection, RelayConnectionPool}
use synchrono_city.Pool.Closing.{
  close_socket, set_state, close_connection, oldest_idle, evict_oldest_idle, cleanup_entry,
  cleanup_entries, cleanup_idle_connections, close_entries, close_all, is_expired,
}

abbrev pub is_closing : ConnectionState → Bool
is_closing closing = true
is_closing _ = false

-- The map has no key twice, and what it holds under a URL is an object of the heap with that URL
-- that the pool has not begun to close. So no two URLs share an object.
pub record IsValid (p : RelayConnectionPool) : Type 0 where
  pub keys : IsMap p.connections
  pub linked :
      (url : JsString) (i : ℕ)
      → map_get url p.connections ≡ some i
      → (o : PooledConnection) × (get_elem? p.objects i ≡ some o)
        × (o.url ≡ url)
        × (is_closing o.state ≡ false)

pub close_absent :
    (url : JsString) (p : RelayConnectionPool)
    → map_get url p.connections ≡ none
    → close_connection url p ≡ (p, [])
unfolding close_connection
close_absent url p e = rw (e, close_connection) refl

abbrev pub without : JsString → ℕ → RelayConnectionPool → RelayConnectionPool
without url i p = record p {
  objects = modify i (set_state closing) p.objects;
  connections = map_delete url p.connections;
}

pub close_present :
    (url : JsString) (i : ℕ) (p : RelayConnectionPool)
    → map_get url p.connections ≡ some i
    → close_connection url p ≡ (without url i p, close_socket i ∷ [])
unfolding close_connection
close_present url i p e = rw (e, close_connection) refl

-- Closing one connection leaves the objects of the others alone.
pub close_other :
    (url other : JsString) (i j : ℕ) (p : RelayConnectionPool)
    → IsValid p
    → map_get url p.connections ≡ some i
    → map_get other (map_delete url p.connections) ≡ some j
    → (map_get other p.connections ≡ some j)
      × (get_elem? (modify i (set_state closing) p.objects) j ≡ get_elem? p.objects j)
close_other url other i j p v at there =
    let kept : (url ≢ other) × (map_get other p.connections ≡ some j) =
      ground (arith, map_get-map_delete url other p.connections, ===_iff url other) in
    let (o, g, u, _) = v.linked url i at in
    let (o', g', u', _) = v.linked other j kept.1 in
    let apart : j ≢ i =
      λ e. kept.0 (sym u ∙ same o o' (sym g ∙ ap (get_elem? p.objects) (sym e) ∙ g') ∙ u') in
    (kept.1, get_elem?-modify_ne j i (set_state closing) p.objects apart)
  where
    same : (a b : PooledConnection) → some a ≡ some b → a.url ≡ b.url
    same a b e = ground arith

pub without-IsValid :
    (url : JsString) (i : ℕ) (p : RelayConnectionPool)
    → IsValid p
    → map_get url p.connections ≡ some i
    → IsValid (without url i p)
without-IsValid url i p v at = record {
  keys = map_delete-IsMap url p.connections v.keys;
  linked = λ other j there.
      let (kept, same) = close_other url other i j p v at there in
      let (o, g, u, c) = v.linked other j kept in (o, same ∙ g, u, c);
}

pub close-IsValid :
    (url : JsString) (p : RelayConnectionPool) → IsValid p → IsValid (close_connection url p).0
close-IsValid url p v = elim (Option-cases (map_get url p.connections)) [
  | inl e ↦ rw (close_absent url p e) v
  | inr (i, e) ↦ rw (close_present url i p e) (without-IsValid url i p v e)
]

pub evict-IsValid : (p : RelayConnectionPool) → IsValid p → IsValid (evict_oldest_idle p).0
unfolding evict_oldest_idle
evict-IsValid p v = elim (Option-cases (oldest_idle p.objects none p.connections)) [
  | inl e ↦ rw (e, evict_oldest_idle) v
  | inr ((url, t), e) ↦
      rw (e, evict_oldest_idle)
        (elim (Bool-cases (truthy url)) [
          | inl named ↦ rw named (close-IsValid url p v)
          | inr empty ↦ rw empty v
        ])
]

cleanup_entry-IsValid :
    (now : ℕ) (url : JsString) (i : ℕ) (p : RelayConnectionPool)
    → IsValid p
    → IsValid (cleanup_entry now url i p).0
unfolding cleanup_entry
cleanup_entry-IsValid now url i p v = elim (Option-cases (get_elem? p.objects i)) [
  | inl e ↦ rw (e, cleanup_entry) v
  | inr (o, e) ↦
      rw (e, cleanup_entry)
        (elim (Bool-cases (is_expired p.idle_timeout_ms now o)) [
          | inl stale ↦ rw stale (close-IsValid url p v)
          | inr fresh ↦ rw fresh v
        ])
]

cleanup_entries-IsValid :
    (now : ℕ) (es : JsMap ℕ) (p : RelayConnectionPool)
    → IsValid p
    → IsValid (cleanup_entries now es p).0
unfolding cleanup_entries
cleanup_entries-IsValid now [] p v = v
cleanup_entries-IsValid now ((url, i) ∷ es) p v =
    cleanup_entries-IsValid now es (cleanup_entry now url i p).0
      (cleanup_entry-IsValid now url i p v)

pub cleanup-IsValid :
    (now : ℕ) (p : RelayConnectionPool) → IsValid p → IsValid (cleanup_idle_connections now p).0
unfolding cleanup_idle_connections
cleanup-IsValid now p v = cleanup_entries-IsValid now p.connections p v

close_entries-IsValid :
    (es : JsMap ℕ) (p : RelayConnectionPool) → IsValid p → IsValid (close_entries es p).0
unfolding close_entries
close_entries-IsValid [] p v = v
close_entries-IsValid ((url, i) ∷ es) p v =
    close_entries-IsValid es (close_connection url p).0 (close-IsValid url p v)

pub close_all-IsValid : (p : RelayConnectionPool) → IsValid p → IsValid (close_all p).0
unfolding close_all
close_all-IsValid p v = close_entries-IsValid p.connections p v
