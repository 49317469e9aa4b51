-- ===== src/Pool/Eviction.antt =====
-- Which connection `evictOldestIdle` of relay-pool.ts closes.
use synchrono_city.Prelude.{
  ℕ, zero, suc, ◌≤◌, ◌≡◌, ◌⊎◌, refl, true, Option, none, some, List, [], ◌∷◌, arith, Bool-cases,
  if◌then◌else◌, Option-cases, inl, inr, get_elem?,
}
use synchrono_city.Prelude.Text.{JsString, truthy}
use synchrono_city.Prelude.Maps.{JsMap, IsMap, map_get, map_get_of_entry}
use synchrono_city.Pool.State.{PooledConnection, RelayConnectionPool, no_handlers}
use synchrono_city.Pool.Closing.{oldest_idle, better, pick, best_time, evict_oldest_idle}
use synchrono_city.Pool.Invariant.{close_present, without}

-- A candidate no later than an activity.
abbrev IsBy : Option (JsString × ℕ) → ℕ → Type 0
IsBy none t = ⊥
IsBy (some b) t = b.1 ≤ t

module _ (objects : List PooledConnection) where
  pick-IsBy_self :
      (o : PooledConnection) (url : JsString) (best : Option (JsString × ℕ))
      → no_handlers o ≡ true
      → IsBy (pick o url best) o.last_activity
  pick-IsBy_self o url none h = ground arith
  pick-IsBy_self o url (some b) h = ground arith

  pick-IsBy :
      (o : PooledConnection) (url : JsString) (best : Option (JsString × ℕ)) (t : ℕ)
      → IsBy best t
      → IsBy (pick o url best) t
  pick-IsBy o url none t h = absurd h
  pick-IsBy o url (some b) t h = ground arith

  oldest_idle-IsBy :
      (es : JsMap ℕ) (best : Option (JsString × ℕ)) (t : ℕ)
      → IsBy best t
      → IsBy (oldest_idle objects best es) t
  unfolding oldest_idle
  oldest_idle-IsBy [] best t h = h
  oldest_idle-IsBy ((url, i) ∷ es) best t h = elim (Option-cases (get_elem? objects i)) [
    | inl e ↦ rw (e, oldest_idle) (oldest_idle-IsBy es best t h)
    | inr (o, e) ↦
        rw (e, oldest_idle) (oldest_idle-IsBy es (pick o url best) t (pick-IsBy o url best t h))
  ]

  -- The candidate is not later than any idle connection.
  oldest_idle-least :
      (es : JsMap ℕ) (best : Option (JsString × ℕ)) (n i : ℕ) (url : JsString)
      (o : PooledConnection)
      → get_elem? es n ≡ some (url, i)
      → get_elem? objects i ≡ some o
      → no_handlers o ≡ true
      → IsBy (oldest_idle objects best es) o.last_activity
  unfolding oldest_idle
  oldest_idle-least [] best n i url o at g free = cc
  oldest_idle-least ((u, j) ∷ es) best zero i url o at g free =
      let here : get_elem? objects j ≡ some o = ground arith in
      rw (here, oldest_idle)
        (oldest_idle-IsBy es (pick o u best) o.last_activity (pick-IsBy_self o u best free))
  oldest_idle-least ((u, j) ∷ es) best (suc n) i url o at g free =
      elim (Option-cases (get_elem? objects j)) [
        | inl e ↦ rw (e, oldest_idle) (oldest_idle-least es best n i url o at g free)
        | inr (x, e) ↦
            rw (e, oldest_idle) (oldest_idle-least es (pick x u best) n i url o at g free)
      ]

  -- an idle entry with the candidate's URL and activity
  abbrev IsFrom : JsMap ℕ → JsString × ℕ → Type 0
  IsFrom es b =
      (n : ℕ) × (i : ℕ) × (o : PooledConnection) × (get_elem? es n ≡ some (b.0, i))
      × (get_elem? objects i ≡ some o)
      × (no_handlers o ≡ true)
      × (o.last_activity ≡ b.1)

  IsFrom-cons :
      (e : JsString × ℕ) (es : JsMap ℕ) (b : JsString × ℕ) → IsFrom es b → IsFrom (e ∷ es) b
  IsFrom-cons e es b (n, i, o, at, g, free, t) = (suc n, i, o, at, g, free, t)

  pick-IsFrom :
      (o : PooledConnection) (url : JsString) (i : ℕ) (es : JsMap ℕ) (best : Option (JsString × ℕ))
      (b : JsString × ℕ)
      → get_elem? objects i ≡ some o
      → pick o url best ≡ some b
      → (best ≡ some b) ⊎ IsFrom ((url, i) ∷ es) b
  pick-IsFrom o url i es best b g e = elim (Bool-cases (better o (best_time best))) [
    | inr kept ↦ inl (simp kept at e)
    | inl taken ↦
        let same : (url, o.last_activity) ≡ b = ground arith in
        inr (zero, i, o, ground arith, g, ground arith, ground arith)
  ]

  oldest_idle-IsFrom :
      (es : JsMap ℕ) (best : Option (JsString × ℕ)) (b : JsString × ℕ)
      → oldest_idle objects best es ≡ some b
      → (best ≡ some b) ⊎ IsFrom es b
  unfolding oldest_idle
  oldest_idle-IsFrom [] best b h = inl h
  oldest_idle-IsFrom ((url, i) ∷ es) best b h = elim (Option-cases (get_elem? objects i)) [
    | inl e ↦ keep (oldest_idle-IsFrom es best b (rw (e, oldest_idle) at h))
    | inr (o, e) ↦ take e (oldest_idle-IsFrom es (pick o url best) b (rw (e, oldest_idle) at h))
  ]
    where
      keep : (best ≡ some b) ⊎ IsFrom es b → (best ≡ some b) ⊎ IsFrom ((url, i) ∷ es) b
      keep (inl e) = inl e
      keep (inr f) = inr (IsFrom-cons (url, i) es b f)

      take :
          {o : PooledConnection}
          → get_elem? objects i ≡ some o
          → (pick o url best ≡ some b) ⊎ IsFrom es b
          → (best ≡ some b) ⊎ IsFrom ((url, i) ∷ es) b
      take {o} g (inl e) = pick-IsFrom o url i es best b g e
      take g (inr f) = inr (IsFrom-cons (url, i) es b f)

evict_at :
    (p : RelayConnectionPool) (url : JsString) (t i : ℕ)
    → oldest_idle p.objects none p.connections ≡ some (url, t)
    → map_get url p.connections ≡ some i
    → (evict_oldest_idle p).0 ≡ (if truthy url then without url i p else p)
unfolding evict_oldest_idle
evict_at p url t i e found = elim (Bool-cases (truthy url)) [
  | inl named ↦ rw (e, evict_oldest_idle, named, close_present url i p found) refl
  | inr empty ↦ rw (e, evict_oldest_idle, empty) refl
]

-- In a map that has no URL twice, where some connection, shown by an entry, has no message handler,
-- there is a connection without handlers that has been inactive for at least as long as that one, and
-- eviction closes it and no other; or closes nothing at all, exactly if its URL is the empty string.
pub evict_oldest_idle_lem :
    (p : RelayConnectionPool) (n j : ℕ) (u : JsString) (x : PooledConnection)
    → IsMap p.connections
    → get_elem? p.connections n ≡ some (u, j)
    → get_elem? p.objects j ≡ some x
    → no_handlers x ≡ true
    → (url : JsString) × (i : ℕ) × (o : PooledConnection) × (map_get url p.connections ≡ some i)
      × (get_elem? p.objects i ≡ some o)
      × (no_handlers o ≡ true)
      × (o.last_activity ≤ x.last_activity)
      × ((evict_oldest_idle p).0 ≡ (if truthy url then without url i p else p))
evict_oldest_idle_lem p n j u x m at g free =
    elim (Option-cases (oldest_idle p.objects none p.connections)) [
      | inl e ↦ absurd (rw e at least)
      | inr ((url, t), e) ↦
          chosen url t e (oldest_idle-IsFrom p.objects p.connections none (url, t) e)
    ]
  where
    least : IsBy (oldest_idle p.objects none p.connections) x.last_activity
    least = oldest_idle-least p.objects p.connections none n j u x at g free

    chosen :
        (url : JsString) (t : ℕ)
        → oldest_idle p.objects none p.connections ≡ some (url, t)
        → ◌≡◌ {A = Option (JsString × ℕ)} none (some (url, t))
          ⊎ IsFrom p.objects p.connections (url, t)
        → (url : JsString) × (i : ℕ) × (o : PooledConnection) × (map_get url p.connections ≡ some i)
          × (get_elem? p.objects i ≡ some o)
          × (no_handlers o ≡ true)
          × (o.last_activity ≤ x.last_activity)
          × ((evict_oldest_idle p).0 ≡ (if truthy url then without url i p else p))
    chosen url t e (inl f) = cc
    chosen url t e (inr (k, i, o, entry, here, idle, same)) =
        let found = map_get_of_entry p.connections k url i m entry in
        let le : t ≤ x.last_activity = rw e at least in
        (url, i, o, found, here, idle, omega arith, evict_at p url t i e found)
