-- ===== src/Rollup/Liveness.antt =====
-- The timer of pulse-relay-rollup.ts: the scheduler does not stall, keeps to the due times, polls
-- while it has no free slot, and is quiet once it is stopped.
use synchrono_city.Prelude.{
  ℕ, zero, suc, ◌+◌, ◌-◌, ◌≤◌, ◌≡◌, ◌≢◌, ◌⊎◌, inl, inr, refl, ap, ◌∙◌, max, min, true, false, not,
  none, some, List, [], ◌∷◌, arith, Bool-cases, Option-cases, All, filter, length, get_elem?,
  modify,
}
use synchrono_city.Rollup.{
  PulseRelayRollupOptions, Config, RelayRollState, Rollup, configure, run_relay_queries,
  available_slots, due_relay_states, schedule_pump, schedule_next, soonest, pump, on_timeout,
  succeed, fail, on_then, on_catch, on_finally, stop, start, clear_scheduled_pump,
}
use synchrono_city.Rollup.Run.{
  World, Chain, Step, wait, fire, fulfil, reject, catch, finally, halt, Reach, Reach_induction,
  started,
}
use synchrono_city.Rollup.Chains.{IsPaired, Reach-IsPaired}
use synchrono_city.Rollup.Slots.{pumped, pump_stopped, pump_running, relay_states-schedule_next}

abbrev idle_states : List RelayRollState → List RelayRollState
idle_states ss = filter (λ s. not s.in_flight) ss

abbrev AllInFlight : List RelayRollState → Type 0
AllInFlight ss = All (λ s. s.in_flight ≡ true) ss

soonest-none : (ss : List RelayRollState) → soonest ss ≡ none → ss ≡ []
unfolding soonest
soonest-none [] h = refl
soonest-none (s ∷ ss) h = ground arith

idle-nil : (ss : List RelayRollState) → idle_states ss ≡ [] → AllInFlight ss
idle-nil [] h = tt
idle-nil (s ∷ ss) h = ground (arith, idle-nil ss)

-- The soonest idle relay is not after any idle relay.
soonest-le :
    (ss : List RelayRollState) (i : ℕ) (s : RelayRollState)
    → get_elem? ss i ≡ some s
    → s.in_flight ≡ false
    → (t : ℕ) × (soonest (idle_states ss) ≡ some t) × (t ≤ s.next_run_at)
unfolding soonest
soonest-le [] i s g idle = cc
soonest-le (x ∷ ss) zero s g idle = elim (Option-cases (soonest (idle_states ss))) [
  | inl e ↦ (x.next_run_at, ground arith, ground arith)
  | inr (t, e) ↦ (min x.next_run_at t, ground arith, ground arith)
]
soonest-le (x ∷ ss) (suc i) s g idle =
    let (t, e, le) = soonest-le ss i s g idle in
    elim (Bool-cases x.in_flight) [
      | inl busy ↦ (t, ground arith, le)
      | inr free ↦ (min x.next_run_at t, ground arith, ground arith)
    ]

module _ (c : Config) where
  -- Unless the scheduler is stopped, the timer is set or every relay is in flight.
  abbrev IsLive : Rollup → Type 0
  IsLive r = r.stopped ≡ false → ((t : ℕ) × (r.timeout ≡ some t)) ⊎ AllInFlight r.relay_states

  schedule_next-none :
      (later : ℕ) (r : Rollup)
      → soonest (idle_states r.relay_states) ≡ none
      → schedule_next c later r ≡ r
  unfolding schedule_next
  schedule_next-none later r e = rw (e, schedule_next) refl

  timeout-schedule_next :
      (later t : ℕ) (r : Rollup)
      → r.stopped ≡ false
      → soonest (idle_states r.relay_states) ≡ some t
      → (schedule_next c later r).timeout ≡ some (later + (t - later))
  unfolding schedule_next schedule_pump
  timeout-schedule_next later t r running e = ground arith

  schedule_next-IsLive :
      (later : ℕ) (r : Rollup) → r.stopped ≡ false → IsLive (schedule_next c later r)
  schedule_next-IsLive later r running _ =
      elim (Option-cases (soonest (idle_states r.relay_states))) [
        | inl e ↦
            rw (schedule_next-none later r e) (inr (idle-nil r.relay_states (soonest-none _ e)))
        | inr (t, e) ↦ inl (later + (t - later), timeout-schedule_next later t r running e)
      ]

  schedule_next_timely :
      (later : ℕ) (r : Rollup) (i : ℕ) (s : RelayRollState)
      → r.stopped ≡ false
      → get_elem? r.relay_states i ≡ some s
      → s.in_flight ≡ false
      → (t : ℕ) × ((schedule_next c later r).timeout ≡ some t) × (t ≤ max later s.next_run_at)
  schedule_next_timely later r i s running g idle =
      let (t, e, le) = soonest-le r.relay_states i s g idle in
      (later + (t - later), timeout-schedule_next later t r running e, omega arith)

  pump-IsLive : (now later : ℕ) (r : Rollup) → IsLive (pump c now later r).0
  pump-IsLive now later r = elim (Bool-cases r.stopped) [
    | inl halted ↦ rw (pump_stopped c now later r halted) (λ e. cc)
    | inr running ↦
        rw (pump_running c now later r running)
          (schedule_next-IsLive later (pumped c now r) running)
  ]

  -- A pump that is not stopped leaves the timer set so that no idle relay waits beyond the time at
  -- which it is due, or beyond the pump itself if it is due already.
  pub pump_timely :
      (now later : ℕ) (r : Rollup) (i : ℕ) (s : RelayRollState)
      → r.stopped ≡ false
      → get_elem? (pump c now later r).0.relay_states i ≡ some s
      → s.in_flight ≡ false
      → (t : ℕ) × ((pump c now later r).0.timeout ≡ some t) × (t ≤ max later s.next_run_at)
  pump_timely now later r i s running g idle =
      let e = pump_running c now later r running in
      rw e (
        schedule_next_timely later (pumped c now r) i s running
          (rw (e, relay_states-schedule_next c later (pumped c now r)) at g) idle)

  no_slot :
      (now : ℕ) (r : Rollup)
      → c.max_concurrent_queries ≤ length (filter (λ t. t.in_flight) r.relay_states)
      → due_relay_states c now r ≡ []
  unfolding due_relay_states available_slots
  no_slot now r full = ground arith

  -- While every slot is taken and an idle relay is due, a pump starts nothing and sets its timer to
  -- fire at once: until a query ends, the scheduler does nothing but call itself.
  pub pump_polls :
      (now later : ℕ) (r : Rollup) (i : ℕ) (s : RelayRollState)
      → r.stopped ≡ false
      → c.max_concurrent_queries ≤ length (filter (λ t. t.in_flight) r.relay_states)
      → get_elem? r.relay_states i ≡ some s
      → s.in_flight ≡ false
      → s.next_run_at ≤ now
      → now ≤ later
      → ((pump c now later r).1 ≡ [])
        × ((pump c now later r).0.relay_states ≡ r.relay_states)
        × ((pump c now later r).0.timeout ≡ some later)
  unfolding run_relay_queries
  pump_polls now later r i s running full g idle due le =
      let e = pump_running c now later r running in
      let nothing = no_slot now r full in
      rw (e, relay_states-schedule_next c later (pumped c now r), nothing) (refl, refl, at_once)
    where
      at_once : (schedule_next c later (record r { timeout = none })).timeout ≡ some later
      at_once =
          let (t, st, t-le) = soonest-le r.relay_states i s g idle in
          timeout-schedule_next later t (record r { timeout = none }) running st
          ∙ ap some (omega arith)

  modify-AllInFlight :
      (f : RelayRollState → RelayRollState)
      → ((s : RelayRollState) → (f s).in_flight ≡ s.in_flight)
      → (i : ℕ) (ss : List RelayRollState) → AllInFlight ss
      → AllInFlight (modify i f ss)
  modify-AllInFlight f same i [] h = tt
  modify-AllInFlight f same zero (s ∷ ss) (e, h) = (rw (same s) e, h)
  modify-AllInFlight f same (suc i) (s ∷ ss) (e, h) = (e, modify-AllInFlight f same i ss h)

  Step-IsLive : (u v : World) → Step c u v → IsLive u.rollup → IsLive v.rollup
  unfolding on_timeout on_then on_catch on_finally stop clear_scheduled_pump
  Step-IsLive _ _ (wait w n) h = h
  Step-IsLive _ _ (fire w t n e le) h = pump-IsLive w.clock (w.clock + n) _
  Step-IsLive _ _ (fulfil w k ch throws e p) h = λ running.
      ground
        (arith, modify-AllInFlight (succeed c w.clock) (λ s. refl) ch.index w.rollup.relay_states)
  Step-IsLive _ _ (reject w k ch e p) h = h
  Step-IsLive _ _ (catch w k ch e p) h = λ running.
      ground (arith, modify-AllInFlight (fail c w.clock) (λ s. refl) ch.index w.rollup.relay_states)
  Step-IsLive _ _ (finally w k ch n e p) h = pump-IsLive w.clock (w.clock + n) _
  Step-IsLive _ _ (halt w) h = λ e. cc

start-IsLive : (o : PulseRelayRollupOptions) (now : ℕ) → IsLive (configure o) (start now o)
unfolding start schedule_pump clear_scheduled_pump
start-IsLive o now running = inl (now + (configure o).initial_delay_ms, refl)

busy_has_chain :
    (ss : List RelayRollState) (chs : List Chain)
    → ss ≢ []
    → AllInFlight ss
    → IsPaired ss chs
    → chs ≢ []
busy_has_chain [] chs some_relay busy h = absurd (some_relay refl)
busy_has_chain (s ∷ ss) [] some_relay (e, busy) h = absurd (ground (arith, h.paired 0))
busy_has_chain (s ∷ ss) (ch ∷ chs) some_relay busy h = λ e. cc

-- The scheduler never stalls: however its timers, queries and handlers interleave, as long as it is
-- not stopped and has a relay, its timer is set or a query's chain is pending, which ends in a pump.
pub Reach-IsLive :
    (o : PulseRelayRollupOptions) (now : ℕ) (w : World)
    → Reach (configure o) (started now o) w
    → w.rollup.stopped ≡ false
    → w.rollup.relay_states ≢ []
    → ((t : ℕ) × (w.rollup.timeout ≡ some t)) ⊎ (w.chains ≢ [])
Reach-IsLive o now w r running some_relay = decide (
    Reach_induction (configure o) (λ u. IsLive (configure o) u.rollup) (Step-IsLive (configure o))
      (started now o) w (start-IsLive o now) r running)
  where
    decide :
        ((t : ℕ) × (w.rollup.timeout ≡ some t)) ⊎ AllInFlight w.rollup.relay_states
        → ((t : ℕ) × (w.rollup.timeout ≡ some t)) ⊎ (w.chains ≢ [])
    decide (inl t) = inl t
    decide (inr busy) =
        inr
          (busy_has_chain w.rollup.relay_states w.chains some_relay busy (Reach-IsPaired o now w r))
