-- ===== src/Rollup/Tests.antt =====
-- Runs of the scheduler of pulse-relay-rollup.ts, and its theorems at concrete inputs.
use mathlib.Core.List.{Perm}
use synchrono_city.Prelude.{
  ℕ, ◌+◌, ◌*◌, ◌≤◌, ◌≡◌, ◌≢◌, ◌⊎◌, refl, max, min, Bool, true, false, none, some, List, [], ◌∷◌,
  ◌++◌, map, arith, All, length,
}
use synchrono_city.Prelude.Int.{pos, negsuc}
use synchrono_city.Prelude.Text.{JsString, codes, ◌===◌}
use synchrono_city.Prelude.Sort.{sort, IsSorted}
use synchrono_city.Data.Types.{RelayListEntry}
use synchrono_city.Rollup.{
  nan, finite, PulseRelayRollupOptions, RelayRollState, Rollup, configure, order_pulse_relays,
  compare_relay_states, available_slots, query_of, query, pump, on_timeout, start, stop,
}
use synchrono_city.Rollup.Backoff.{IsRead, delay_after, delay_after_lem}
use synchrono_city.Rollup.Run.{World, handled, Reach, here, next, wait, fire, started}
use synchrono_city.Rollup.Slots.{in_flight_count, Reach-IsBounded}
use synchrono_city.Rollup.Selection.{eligible, pump-queries}
use synchrono_city.Rollup.Chains.{IsPaired, Reach-IsPaired}
use synchrono_city.Rollup.Liveness.{pump_timely, pump_polls, Reach-IsLive}
use synchrono_city.Rollup.Stopping.{IsLeft, Reach-IsQuiet}

abbrev relay_at : JsString → RelayListEntry
relay_at url = record { url = url; name = url; inbox = true; outbox = false }

abbrev here_url : JsString
here_url = codes "wss://here"

abbrev far_url : JsString
far_url = codes "wss://far"

-- One slot, and the current relay listed last; the third relay is no inbox.
abbrev options : PulseRelayRollupOptions
options = record {
  relays =
      relay_at far_url
      ∷ record (relay_at (codes "wss://out")) { inbox = false }
      ∷ relay_at here_url
      ∷ [];
  current_relay_url = here_url;
  initial_delay_ms = none;
  max_concurrent_queries = some (finite (pos 3) 1);
  query_limit = some nan;
  success_cooldown_ms = none;
  failure_backoff_base_ms = some (finite (negsuc 4) 0);
  failure_backoff_max_ms = none;
}

configure-options :
    ((configure options).max_concurrent_queries ≡ 1)
    × ((configure options).query_limit ≡ 50)
    × ((configure options).failure_backoff_base_ms ≡ 1)
unfolding configure
configure-options = (refl, refl, refl)

first_pump :
    (pump (configure options) 250 250 (start 0 options)).1 ≡ query 0 (relay_at here_url) 50 ∷ []
unfolding pump start configure order_pulse_relays ◌===◌ sort compare_relay_states
first_pump = refl

delay_after_example :
    (b : ℕ) × (m : ℕ) × IsRead options.failure_backoff_base_ms 15000 b
    × IsRead options.failure_backoff_max_ms 300000 m
    × (delay_after options 1 ≡ max 1 b)
    × (max 1 b ≤ delay_after options 3)
    × (delay_after options 3 ≤ max (max 1 b) m)
    × (delay_after options 5 ≡ min (max (max 1 b) m) (2 * delay_after options 4))
delay_after_example = delay_after_lem options 3

abbrev waited : World
waited = record (started 0 options) { clock = 0 + 250 }

-- the world after the first pump, which has started one query
abbrev fired : World
fired = handled (on_timeout (configure options) 250 (250 + 0) (start 0 options)) [] (250 + 0)

Reach-fired : Reach (configure options) (started 0 options) fired
unfolding start configure
Reach-fired = next (next here (wait (started 0 options) 250)) (fire waited 250 0 refl (omega arith))

Reach-IsBounded_example :
    in_flight_count fired.rollup.relay_states ≤ (configure options).max_concurrent_queries
Reach-IsBounded_example = Reach-IsBounded options 0 fired Reach-fired

Reach-IsPaired_example : IsPaired fired.rollup.relay_states fired.chains
Reach-IsPaired_example = Reach-IsPaired options 0 fired Reach-fired

fired_running : (fired.rollup.stopped ≡ false) × (fired.rollup.relay_states ≢ [])
unfolding on_timeout pump start configure order_pulse_relays ◌===◌ sort compare_relay_states
fired_running = (refl, λ e. cc)

Reach-IsLive_example : ((t : ℕ) × (fired.rollup.timeout ≡ some t)) ⊎ (fired.chains ≢ [])
Reach-IsLive_example = Reach-IsLive options 0 fired Reach-fired fired_running.0 fired_running.1

Reach-IsQuiet_example :
    ((record fired { rollup = stop fired.rollup }).rollup.stopped ≡ true)
    × ((record fired { rollup = stop fired.rollup }).rollup.timeout ≡ none)
    × IsLeft (record fired { rollup = stop fired.rollup }).chains fired.chains
Reach-IsQuiet_example =
    Reach-IsQuiet (configure options) fired (record fired { rollup = stop fired.rollup }) here

abbrev relay_state : JsString → Bool → ℕ → RelayRollState
relay_state url busy i = record {
  relay = relay_at url;
  next_run_at = 0;
  failure_count = 0;
  in_flight = busy;
  index = i;
}

-- The current relay is in flight; the other one is due.
abbrev contended : Rollup
contended = record {
  relay_states = relay_state here_url true 0 ∷ relay_state far_url false 1 ∷ [];
  stopped = false;
  timeout = none;
}

pump_polls_example :
    ((pump (configure options) 300 301 contended).1 ≡ [])
    × ((pump (configure options) 300 301 contended).0.relay_states ≡ contended.relay_states)
    × ((pump (configure options) 300 301 contended).0.timeout ≡ some 301)
unfolding configure
pump_polls_example =
    pump_polls (configure options) 300 301 contended 1 (relay_state far_url false 1) refl
      (omega arith) refl refl (omega arith) (omega arith)

pump_timely_example :
    (t : ℕ) × ((pump (configure options) 300 301 contended).0.timeout ≡ some t) × (t ≤ max 301 0)
unfolding pump configure ◌===◌ sort compare_relay_states
pump_timely_example =
    pump_timely (configure options) 300 301 contended 1 (relay_state far_url false 1) refl refl refl

pump-queries_example :
    (launched : List RelayRollState) × (left : List RelayRollState) × ((pump
        (configure options)
        250
        250
        (start 0 options)).1
      ≡ map (query_of (configure options)) launched)
    × All (λ s. (s.in_flight ≡ false) × (s.next_run_at ≤ 250)) launched
    × (length launched
        ≡ min
            (available_slots (configure options) (start 0 options))
            (length (eligible (configure options) 250 (start 0 options))))
    × Perm (launched ++ left) (eligible (configure options) 250 (start 0 options))
    × IsSorted (compare_relay_states here_url) (launched ++ left)
unfolding start configure
pump-queries_example = pump-queries (configure options) 250 250 (start 0 options) refl
