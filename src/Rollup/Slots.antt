-- ===== src/Rollup/Slots.antt =====
-- The limit on concurrent queries of pulse-relay-rollup.ts.
use synchrono_city.Prelude.{
  ℕ, zero, suc, ◌+◌, ◌≤◌, ◌≡◌, refl, true, false, List, [], ◌∷◌, arith, none, map, count,
  count-modify, filter, length, length-filter, length-take-le, modify,
}
use synchrono_city.Prelude.Sort.{sort}
use synchrono_city.Data.Types.{RelayListEntry}
use synchrono_city.Rollup.{
  PulseRelayRollupOptions, Config, RelayRollState, Rollup, configure, start_query,
  run_relay_queries, is_due, compare_relay_states, available_slots, due_relay_states, schedule_pump,
  schedule_next, pump, query_of, on_timeout, succeed, fail, on_then, on_catch, land, on_finally,
  stop, start, index_from, order_pulse_relays, clear_scheduled_pump,
}
use synchrono_city.Rollup.Run.{
  World, Step, wait, fire, fulfil, reject, catch, finally, halt, Reach, Reach_induction, started,
}

-- the queries in flight
abbrev pub in_flight_count : List RelayRollState → ℕ
in_flight_count ss = count (λ s. s.in_flight) ss

count-start :
    (i : ℕ) (ss : List RelayRollState)
    → in_flight_count (modify i start_query ss) ≤ suc (in_flight_count ss)
count-start i [] = omega arith
count-start zero (s ∷ ss) = ground arith
count-start (suc i) (s ∷ ss) = omega (arith, count-start i ss)

count-land :
    (i : ℕ) (ss : List RelayRollState) → in_flight_count (modify i land ss) ≤ in_flight_count ss
count-land i [] = omega arith
count-land zero (s ∷ ss) = omega arith
count-land (suc i) (s ∷ ss) = omega (arith, count-land i ss)

count-run :
    (ds ss : List RelayRollState)
    → in_flight_count (run_relay_queries ds ss) ≤ length ds + in_flight_count ss
unfolding run_relay_queries
count-run [] ss = omega arith
count-run (d ∷ ds) ss =
    omega (arith, count-run ds (modify d.index start_query ss), count-start d.index ss)

module _ (c : Config) where
  abbrev pub IsBounded : Rollup → Type 0
  IsBounded r = in_flight_count r.relay_states ≤ c.max_concurrent_queries

  length-due : (now : ℕ) (r : Rollup) → length (due_relay_states c now r) ≤ available_slots c r
  unfolding due_relay_states
  length-due now r = ground (
    arith,
    length-take-le (available_slots c r)
        (sort (compare_relay_states c.current_relay_url) (filter (is_due now) r.relay_states)),
  )

  pub relay_states-schedule_next :
      (later : ℕ) (r : Rollup) → (schedule_next c later r).relay_states ≡ r.relay_states
  unfolding schedule_next schedule_pump
  relay_states-schedule_next later r = ground arith

  -- The state that a pump hands to the timer.
  abbrev pub pumped : ℕ → Rollup → Rollup
  pumped now r = record {
    relay_states = run_relay_queries (due_relay_states c now r) r.relay_states;
    stopped = r.stopped;
    timeout = none;
  }

  pub pump_stopped : (now later : ℕ) (r : Rollup) → r.stopped ≡ true → pump c now later r ≡ (r, [])
  unfolding pump
  pump_stopped now later r h = simp h

  pub pump_running :
      (now later : ℕ) (r : Rollup)
      → r.stopped ≡ false
      → pump c now later r
        ≡ (schedule_next c later (pumped now r), map (query_of c) (due_relay_states c now r))
  unfolding pump clear_scheduled_pump
  pump_running now later r h = simp h

  -- What a pump leaves in flight: what was, and one for each slot that was free.
  pub pump-IsBounded : (now later : ℕ) (r : Rollup) → IsBounded r → IsBounded (pump c now later r).0
  unfolding pump available_slots clear_scheduled_pump
  pump-IsBounded now later r h = ground (
    arith,
    relay_states-schedule_next later (pumped now r),
    count-run (due_relay_states c now r) r.relay_states,
    length-due now r,
    length-filter (λ (s : RelayRollState). s.in_flight) r.relay_states,
  )

  Step-IsBounded : (u v : World) → Step c u v → IsBounded u.rollup → IsBounded v.rollup
  unfolding on_timeout on_then on_catch on_finally stop clear_scheduled_pump
  Step-IsBounded _ _ (wait w n) h = h
  Step-IsBounded _ _ (fire w t n e le) h = pump-IsBounded w.clock (w.clock + n) _ h
  Step-IsBounded _ _ (fulfil w k ch throws e p) h = ground (
    arith,
    count-modify (λ (s : RelayRollState). s.in_flight) (succeed c w.clock) (λ s. refl) ch.index
        w.rollup.relay_states,
  )
  Step-IsBounded _ _ (reject w k ch e p) h = h
  Step-IsBounded _ _ (catch w k ch e p) h = ground (
    arith,
    count-modify (λ (s : RelayRollState). s.in_flight) (fail c w.clock) (λ s. refl) ch.index
        w.rollup.relay_states,
  )
  Step-IsBounded _ _ (finally w k ch n e p) h =
      pump-IsBounded w.clock (w.clock + n) _
        (omega (arith, count-land ch.index w.rollup.relay_states))
  Step-IsBounded _ _ (halt w) h = h

index_from-idle : (i : ℕ) (rs : List RelayListEntry) → in_flight_count (index_from i rs) ≡ 0
unfolding index_from
index_from-idle i [] = refl
index_from-idle i (r ∷ rs) = omega (arith, index_from-idle (suc i) rs)

start-IsBounded : (o : PulseRelayRollupOptions) (now : ℕ) → IsBounded (configure o) (start now o)
unfolding start schedule_pump clear_scheduled_pump
start-IsBounded o now =
    omega (arith, index_from-idle 0 (order_pulse_relays o.relays o.current_relay_url))

-- However the timers, the queries and their handlers interleave, the scheduler never has more
-- queries in flight than `maxConcurrentQueries`, normalized, allows.
pub Reach-IsBounded :
    (o : PulseRelayRollupOptions) (now : ℕ) (w : World)
    → Reach (configure o) (started now o) w
    → in_flight_count w.rollup.relay_states ≤ (configure o).max_concurrent_queries
Reach-IsBounded o now w r =
    Reach_induction (configure o) (λ u. IsBounded (configure o) u.rollup)
      (Step-IsBounded (configure o)) (started now o) w (start-IsBounded o now) r
