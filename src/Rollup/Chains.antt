-- ===== src/Rollup/Chains.antt =====
-- Promise chains and flags of pulse-relay-rollup.ts: a relay is queried by at most one chain.
use synchrono_city.Prelude.{
  ℕ, zero, suc, ◌+◌, ◌-◌, ◌≤◌, ◌≡◌, ◌∙◌, ap, append-nil, refl, sym, Bool, false, Option, none, some,
  List, [], ◌∷◌, ◌++◌, arith, Bool-cases, inl, inr, if◌then◌else◌, ◌==◌, map, All, All-map,
  All-guard, All-take, All-zip_with, ==_iff, filter, filter_keeps-All, filter-All, ltb, count,
  count-append, count-filter-le, count-take-le, count-zero, count-modify, count-remove_at,
  get_elem?, get_elem?-modify_ne, get_elem?-modify_self, modify, remove_at,
}
use synchrono_city.Prelude.Sort.{sort}
use synchrono_city.Prelude.Sort.Laws.{sort-All, count-sort}
use synchrono_city.Data.Types.{RelayListEntry}
use synchrono_city.Rollup.{
  PulseRelayRollupOptions, Config, RelayRollState, Rollup, configure, start_query,
  run_relay_queries, is_due, compare_relay_states, available_slots, due_relay_states, schedule_pump,
  query_of, pump, on_timeout, succeed, fail, on_then, on_catch, land, on_finally, stop, start,
  index_from, order_pulse_relays, clear_scheduled_pump,
}
use synchrono_city.Rollup.Run.{
  World, Chain, Phase, Step, wait, fire, fulfil, reject, catch, finally, halt, chains_of, enter,
  settled, failing, Reach, Reach_induction, started,
}
use synchrono_city.Rollup.Slots.{relay_states-schedule_next, pumped, pump_stopped, pump_running}

-- `relayStates[i].index` is `i`.
abbrev pub IsIndexed : ℕ → List RelayRollState → Type 0
IsIndexed k [] = Unit
IsIndexed k (s ∷ ss) = (s.index ≡ k) × IsIndexed (suc k) ss

module _ (f : RelayRollState → RelayRollState)
    (same : (s : RelayRollState) → (f s).index ≡ s.index) where
  modify-IsIndexed :
      (k i : ℕ) (ss : List RelayRollState) → IsIndexed k ss → IsIndexed k (modify i f ss)
  modify-IsIndexed k i [] h = tt
  modify-IsIndexed k zero (s ∷ ss) (e, h) = (rw (same s) e, h)
  modify-IsIndexed k (suc i) (s ∷ ss) (e, h) = (e, modify-IsIndexed (suc k) i ss h)

run-IsIndexed :
    (ds ss : List RelayRollState) → IsIndexed 0 ss → IsIndexed 0 (run_relay_queries ds ss)
unfolding run_relay_queries
run-IsIndexed [] ss h = h
run-IsIndexed (d ∷ ds) ss h =
    run-IsIndexed ds (modify d.index start_query ss)
      (modify-IsIndexed start_query (λ s. refl) 0 d.index ss h)

abbrev has_index : ℕ → RelayRollState → Bool
has_index i s = s.index == i

index_from_on :
    (k : ℕ) (ss : List RelayRollState)
    → IsIndexed k ss
    → (i : ℕ) → count (has_index i) ss ≤ (if ltb i k then 0 else 1)
index_from_on k [] h i = ground arith
index_from_on k (s ∷ ss) (e, h) i = ground (arith, index_from_on (suc k) ss h i)

get_elem?-index :
    (k : ℕ) (ss : List RelayRollState)
    → IsIndexed k ss
    → All (λ s. (k ≤ s.index) × (get_elem? ss (s.index - k) ≡ some s)) ss
get_elem?-index k [] h = tt
get_elem?-index k (s ∷ ss) (e, h) = (
  (omega arith, first s k (s.index - k) (omega arith)),
  All-map (λ t p. (omega arith, later t (p.0) p.1)) ss (get_elem?-index (suc k) ss h),
)
  where
    first : (t : RelayRollState) (j n : ℕ) → n ≡ 0 → get_elem? (s ∷ ss) n ≡ some s
    first t j zero z = refl
    first t j (suc n) z = absurd (omega arith)

    step :
        (t : RelayRollState) (n m : ℕ)
        → n ≡ suc m
        → get_elem? ss m ≡ some t
        → get_elem? (s ∷ ss) n ≡ some t
    step t zero m z g = absurd (omega arith)
    step t (suc n) m z g = let q : m ≡ n = omega arith in rw q at g

    later :
        (t : RelayRollState)
        → suc k ≤ t.index
        → get_elem? ss (t.index - suc k) ≡ some t
        → get_elem? (s ∷ ss) (t.index - k) ≡ some t
    later t le g = step t (t.index - k) (t.index - suc k) (omega arith) g

-- Whether the relay at a position is in flight, as a number.
abbrev pub flag_of : Option RelayRollState → ℕ
flag_of none = 0
flag_of (some s) = if s.in_flight then 1 else 0

abbrev pub flag : ℕ → List RelayRollState → ℕ
flag i ss = flag_of (get_elem? ss i)

-- a listed object that is idle
abbrev IsIdleAt : List RelayRollState → RelayRollState → Type 0
IsIdleAt ss d = (get_elem? ss d.index ≡ some d) × (d.in_flight ≡ false)

flag-start :
    (d : RelayRollState) (ss : List RelayRollState) (i : ℕ)
    → IsIdleAt ss d
    → flag i (modify d.index start_query ss) ≡ flag i ss + count (has_index i) (d ∷ [])
flag-start d ss i (g, idle) = elim (Bool-cases (d.index == i)) [
  | inl hit ↦
      let e : d.index ≡ i = (==_iff d.index i).0 hit in
      ground (
        arith,
        get_elem?-modify_self d.index start_query ss,
        ap (λ (n : ℕ). flag n ss) e,
        ap (λ (n : ℕ). flag n (modify d.index start_query ss)) e,
      )
  | inr miss ↦ ground (arith, get_elem?-modify_ne i d.index start_query ss)
]

IsIdleAt-start :
    (d : RelayRollState) (ss ds : List RelayRollState)
    → count (has_index d.index) ds ≡ 0
    → All (IsIdleAt ss) ds
    → All (IsIdleAt (modify d.index start_query ss)) ds
IsIdleAt-start d ss ds none_there at =
    All-zip_with
      (λ e ne p. (get_elem?-modify_ne e.index d.index start_query ss (ground arith) ∙ p.0, p.1)) ds
      (count-zero (has_index d.index) ds none_there) at

-- Starting idle relays at different positions raises exactly their flags.
flag-run :
    (ds ss : List RelayRollState)
    → ((i : ℕ) → count (has_index i) ds ≤ 1)
    → All (IsIdleAt ss) ds
    → (i : ℕ) → flag i (run_relay_queries ds ss) ≡ flag i ss + count (has_index i) ds
unfolding run_relay_queries
flag-run [] ss apart at i = omega arith
flag-run (d ∷ ds) ss apart (p, at) i = omega (
  arith,
  flag-start d ss i p,
  flag-run ds (modify d.index start_query ss) (λ j. omega (arith, apart j))
      (IsIdleAt-start d ss ds (ground (arith, apart d.index)) at) i,
)

module _ (c : Config) (now : ℕ) (r : Rollup) (ix : IsIndexed 0 r.relay_states) where
  due-apart : (i : ℕ) → count (has_index i) (due_relay_states c now r) ≤ 1
  unfolding due_relay_states
  due-apart i =
      let cmp = compare_relay_states c.current_relay_url in
      let es = filter (is_due now) r.relay_states in
      ground (
        arith,
        count-take-le (has_index i) (available_slots c r) (sort cmp es),
        count-sort cmp (has_index i) es,
        count-filter-le (has_index i) (is_due now) r.relay_states,
        index_from_on 0 r.relay_states ix i,
      )

  due-IsIdleAt : All (IsIdleAt r.relay_states) (due_relay_states c now r)
  unfolding due_relay_states
  due-IsIdleAt =
      let at : All (λ s. get_elem? r.relay_states s.index ≡ some s) r.relay_states =
        All-map (λ s p. rw (zero_off s.index) at p.1) r.relay_states
          (get_elem?-index 0 r.relay_states ix) in
      All-guard (IsIdleAt r.relay_states) (ltb 0 (available_slots c r)) _ (
        All-take (IsIdleAt r.relay_states) (available_slots c r) _ (
          sort-All (IsIdleAt r.relay_states) (compare_relay_states c.current_relay_url) _ (
            All-zip_with (λ s a b. (a, ground arith)) (filter (is_due now) r.relay_states)
              (filter_keeps-All (is_due now) _ r.relay_states at)
              (filter-All (is_due now) r.relay_states))))
    where
      zero_off : (n : ℕ) → n - 0 ≡ n
      zero_off n = omega arith

-- The chains of a list of queries, counted at an index.
abbrev pub chain_count : ℕ → List Chain → ℕ
chain_count i chs = count (λ ch. ch.index == i) chs

chain_count-query :
    (c : Config) (i : ℕ) (ds : List RelayRollState)
    → chain_count i (chains_of (map (query_of c) ds)) ≡ count (has_index i) ds
chain_count-query c i [] = refl
chain_count-query c i (d ∷ ds) = omega (arith, chain_count-query c i ds)

-- Positions are indices, and each relay has one chain if it is in flight, and none otherwise.
pub record IsPaired (ss : List RelayRollState) (chs : List Chain) : Type 0 where
  pub indexed : IsIndexed 0 ss
  pub paired : (i : ℕ) → chain_count i chs ≡ flag i ss

module _ (c : Config) where
  pub pump-IsPaired :
      (now later : ℕ) (r : Rollup) (chs : List Chain)
      → IsPaired r.relay_states chs
      → IsPaired (pump c now later r).0.relay_states (chs ++ chains_of (pump c now later r).1)
  pump-IsPaired now later r chs h = elim (Bool-cases r.stopped) [
    | inl halted ↦ rw (pump_stopped c now later r halted, append-nil) h
    | inr running ↦ rw (pump_running c now later r running) (record {
      indexed =
          rw (relay_states-schedule_next c later _)
            (run-IsIndexed (due_relay_states c now r) r.relay_states h.indexed);
      paired = λ i. omega (
        arith,
        ap (λ (ss : List RelayRollState). flag i ss)
            (relay_states-schedule_next c later (pumped c now r)),
        count-append (λ (ch : Chain). ch.index == i) chs
            (chains_of (map (query_of c) (due_relay_states c now r))),
        chain_count-query c i (due_relay_states c now r),
        h.paired i,
        flag-run (due_relay_states c now r) r.relay_states (due-apart c now r h.indexed)
            (due-IsIdleAt c now r h.indexed) i,
      );
    })
  ]

  flag-modify :
      (f : RelayRollState → RelayRollState)
      → ((s : RelayRollState) → (f s).in_flight ≡ s.in_flight)
      → (i j : ℕ) (ss : List RelayRollState) → flag i (modify j f ss) ≡ flag i ss
  flag-modify f same i j [] = refl
  flag-modify f same zero zero (s ∷ ss) = rw (same s)
  flag-modify f same (suc i) zero (s ∷ ss) = refl
  flag-modify f same zero (suc j) (s ∷ ss) = refl
  flag-modify f same (suc i) (suc j) (s ∷ ss) = flag-modify f same i j ss

  flag-land :
      (i j : ℕ) (ss : List RelayRollState)
      → 1 ≤ flag j ss
      → flag i (modify j land ss) + (if j == i then 1 else 0) ≡ flag i ss
  flag-land i j [] h = absurd (omega arith)
  flag-land zero zero (s ∷ ss) h = ground arith
  flag-land (suc i) zero (s ∷ ss) h = ground arith
  flag-land zero (suc j) (s ∷ ss) h = ground arith
  flag-land (suc i) (suc j) (s ∷ ss) h = ground (arith, flag-land i j ss h)

  count-ge-of_get_elem? :
      (i k : ℕ) (chs : List Chain) {ch : Chain}
      → get_elem? chs k ≡ some ch
      → 1 ≤ chain_count ch.index chs
  count-ge-of_get_elem? i k chs {ch} e =
      ground (arith, count-remove_at (λ (x : Chain). x.index == ch.index) k chs e)

  -- A handler that writes no flag, for a chain that only changes its phase.
  settle-IsPaired :
      (f : RelayRollState → RelayRollState)
      → ((s : RelayRollState) → (f s).in_flight ≡ s.in_flight)
      → ((s : RelayRollState) → (f s).index ≡ s.index)
      → (j k : ℕ) (p : Phase) (r : Rollup) (chs : List Chain) → IsPaired r.relay_states chs
      → IsPaired (modify j f r.relay_states) (modify k (enter p) chs)
  settle-IsPaired f flags indices j k p r chs h = record {
    indexed = modify-IsIndexed f indices 0 j r.relay_states h.indexed;
    paired = λ i. omega (
      arith,
      count-modify (λ (ch : Chain). ch.index == i) (enter p) (λ ch. refl) k chs,
      flag-modify f flags i j r.relay_states,
      h.paired i,
    );
  }

  phase-IsPaired :
      (k : ℕ) (p : Phase) (r : Rollup) (chs : List Chain)
      → IsPaired r.relay_states chs
      → IsPaired r.relay_states (modify k (enter p) chs)
  phase-IsPaired k p r chs h = record {
    indexed = h.indexed;
    paired = λ i. omega (
      arith,
      count-modify (λ (ch : Chain). ch.index == i) (enter p) (λ ch. refl) k chs,
      h.paired i,
    );
  }

  land-IsPaired :
      (k : ℕ) (ch : Chain) (r : Rollup) (chs : List Chain)
      → get_elem? chs k ≡ some ch
      → IsPaired r.relay_states chs
      → IsPaired (modify ch.index land r.relay_states) (remove_at k chs)
  land-IsPaired k ch r chs e h = record {
    indexed = modify-IsIndexed land (λ s. refl) 0 ch.index r.relay_states h.indexed;
    paired = λ i. ground (
      arith,
      count-remove_at (λ (x : Chain). x.index == i) k chs e,
      flag-land i ch.index r.relay_states
          (omega (arith, h.paired ch.index, count-ge-of_get_elem? i k chs e)),
      h.paired i,
    );
  }

  Paired : World → Type 0
  Paired w = IsPaired w.rollup.relay_states w.chains

  then-IsPaired :
      (now k : ℕ) (ch : Chain) (p : Phase) (r : Rollup) (chs : List Chain)
      → IsPaired r.relay_states chs
      → IsPaired
          (on_then c now ch.index ch.relay r).0.relay_states
          (modify k (enter p) chs ++ chains_of (on_then c now ch.index ch.relay r).1)
  unfolding on_then
  then-IsPaired now k ch p r chs h = elim (Bool-cases r.stopped) [
    | inl halted ↦ simp (halted, append-nil) (phase-IsPaired k p r chs h)
    | inr running ↦
        simp (running, append-nil)
          (settle-IsPaired (succeed c now) (λ s. refl) (λ s. refl) ch.index k p r chs h)
  ]

  catch-IsPaired :
      (now k : ℕ) (ch : Chain) (p : Phase) (r : Rollup) (chs : List Chain)
      → IsPaired r.relay_states chs
      → IsPaired
          (on_catch c now ch.index ch.relay r).0.relay_states
          (modify k (enter p) chs ++ chains_of (on_catch c now ch.index ch.relay r).1)
  unfolding on_catch
  catch-IsPaired now k ch p r chs h = elim (Bool-cases r.stopped) [
    | inl halted ↦ simp (halted, append-nil) (phase-IsPaired k p r chs h)
    | inr running ↦
        simp (running, append-nil)
          (settle-IsPaired (fail c now) (λ s. refl) (λ s. refl) ch.index k p r chs h)
  ]

  Step-Paired : (u v : World) → Step c u v → Paired u → Paired v
  unfolding Paired on_timeout on_finally stop clear_scheduled_pump
  Step-Paired _ _ (wait w n) h = h
  Step-Paired _ _ (fire w t n e le) h =
      pump-IsPaired w.clock (w.clock + n) (record w.rollup { timeout = none }) w.chains h
  Step-Paired _ _ (fulfil w k ch throws e p) h = then-IsPaired w.clock k ch _ w.rollup w.chains h
  Step-Paired _ _ (reject w k ch e p) h = phase-IsPaired k failing w.rollup w.chains h
  Step-Paired _ _ (catch w k ch e p) h = catch-IsPaired w.clock k ch settled w.rollup w.chains h
  Step-Paired _ _ (finally w k ch n e p) h =
      pump-IsPaired w.clock (w.clock + n) _ (remove_at k w.chains)
        (land-IsPaired k ch w.rollup w.chains e h)
  Step-Paired _ _ (halt w) h = h

index_from-IsIndexed : (i : ℕ) (rs : List RelayListEntry) → IsIndexed i (index_from i rs)
unfolding index_from
index_from-IsIndexed i [] = tt
index_from-IsIndexed i (r ∷ rs) = (refl, index_from-IsIndexed (suc i) rs)

flag-index_from : (j i : ℕ) (rs : List RelayListEntry) → flag j (index_from i rs) ≡ 0
unfolding index_from
flag-index_from j i [] = refl
flag-index_from zero i (r ∷ rs) = refl
flag-index_from (suc j) i (r ∷ rs) = flag-index_from j (suc i) rs

started-Paired : (o : PulseRelayRollupOptions) (now : ℕ) → IsPaired (start now o).relay_states []
unfolding start schedule_pump clear_scheduled_pump
started-Paired o now = record {
  indexed = index_from-IsIndexed 0 (order_pulse_relays o.relays o.current_relay_url);
  paired = λ i. sym (flag-index_from i 0 (order_pulse_relays o.relays o.current_relay_url));
}

-- However the timers, the queries and their handlers interleave, `relayStates` stays in the order of
-- its indices, and a relay that is in flight has exactly one promise chain pending, any other none:
-- no relay is ever queried twice at once.
pub Reach-IsPaired :
    (o : PulseRelayRollupOptions) (now : ℕ) (w : World)
    → Reach (configure o) (started now o) w
    → IsPaired w.rollup.relay_states w.chains
unfolding Paired
Reach-IsPaired o now w r =
    Reach_induction (configure o) (Paired (configure o)) (Step-Paired (configure o)) (started now o)
      w (started-Paired o now) r
