-- ===== src/Rollup.antt =====
-- apps/web/src/pulse-relay-rollup.ts: the scheduler that queries the inbox relays for recent notes.
-- The handlers take the clock as arguments: a handler that reads it twice takes two times.
pub mod Backoff
pub mod Ordering
pub mod Run
pub mod Slots
pub mod Selection
pub mod Chains
pub mod Liveness
pub mod Stopping
mod Tests
use synchrono_city.Prelude.{
  ℕ, zero, suc, ◌+◌, ◌-◌, ◌*◌, ◌/◌, ◌^◌, min, max, Bool, true, false, not, ◌&&◌, Option, none, some,
  List, [], ◌∷◌, ◌++◌, map, ltb, leb, ◌==◌, if◌then◌else◌, filter, take, length, modify,
}
use synchrono_city.Prelude.Int.{ℤ, pos, negsuc, sub_ℕ, is_nonzero}
use synchrono_city.Prelude.Text.{JsString, ◌===◌}
use synchrono_city.Prelude.Sort.{sort, then_by}
use synchrono_city.Data.Types.{RelayListEntry}

-- `finite n d` is the number n / (d + 1).
pub data JsNumber : Type 0 where
  nan infinite : JsNumber
  finite : ℤ → ℕ → JsNumber

unfoldable pub normalize_non_negative_integer : Option JsNumber → ℕ → ℕ
normalize_non_negative_integer none fallback = fallback
normalize_non_negative_integer (some nan) fallback = fallback
normalize_non_negative_integer (some infinite) fallback = fallback
normalize_non_negative_integer (some (finite (pos n) d)) fallback = n / suc d
normalize_non_negative_integer (some (finite (negsuc n) d)) fallback = 0

pub record PulseRelayRollupOptions : Type 0 where
  pub relays : List RelayListEntry
  pub current_relay_url : JsString
  pub initial_delay_ms : Option JsNumber
  pub max_concurrent_queries : Option JsNumber
  pub query_limit : Option JsNumber
  pub success_cooldown_ms : Option JsNumber
  pub failure_backoff_base_ms : Option JsNumber
  pub failure_backoff_max_ms : Option JsNumber

-- The options as `startPulseRelayRollup` normalizes them.
pub record Config : Type 0 where
  pub current_relay_url : JsString
  pub initial_delay_ms : ℕ
  pub max_concurrent_queries : ℕ
  pub query_limit : ℕ
  pub success_cooldown_ms : ℕ
  pub failure_backoff_base_ms : ℕ
  pub failure_backoff_max_ms : ℕ

unfoldable pub configure : PulseRelayRollupOptions → Config
unfolding normalize_non_negative_integer
configure o = record {
  current_relay_url = o.current_relay_url;
  initial_delay_ms = normalize_non_negative_integer o.initial_delay_ms 250;
  max_concurrent_queries = max 1 (normalize_non_negative_integer o.max_concurrent_queries 4);
  query_limit = max 1 (normalize_non_negative_integer o.query_limit 50);
  success_cooldown_ms = normalize_non_negative_integer o.success_cooldown_ms 60000;
  failure_backoff_base_ms = base;
  failure_backoff_max_ms =
      max base (normalize_non_negative_integer o.failure_backoff_max_ms (5 * 60000));
}
  where
    base : ℕ
    base = max 1 (normalize_non_negative_integer o.failure_backoff_base_ms 15000)

-- The doubles that the product passes through are exact, or beyond any delay that is configured.
unfoldable pub compute_pulse_relay_backoff_ms : ℕ → ℕ → ℕ → ℕ
compute_pulse_relay_backoff_ms failure_count base_ms max_ms =
    min max_ms (base_ms * 2 ^ (max 1 failure_count - 1))

pub record RelayRollState : Type 0 where
  pub relay : RelayListEntry
  pub next_run_at : ℕ
  pub failure_count : ℕ
  pub in_flight : Bool
  pub index : ℕ

unfoldable pub order_pulse_relays : List RelayListEntry → JsString → List RelayListEntry
order_pulse_relays relays current_relay_url =
    filter (λ r. r.inbox && r.url === current_relay_url) relays
    ++ filter (λ r. r.inbox && not (r.url === current_relay_url)) relays

abbrev pub priority : JsString → RelayRollState → ℕ
priority current_relay_url s = if s.relay.url === current_relay_url then 0 else 1

-- Each `if` of the source returns the first difference that is not zero.
unfoldable pub compare_relay_states : JsString → RelayRollState → RelayRollState → ℤ
compare_relay_states current_relay_url =
    then_by (λ l r. sub_ℕ (priority current_relay_url l) (priority current_relay_url r))
      (then_by (λ l r. sub_ℕ l.next_run_at r.next_run_at) (λ l r. sub_ℕ l.index r.index))

-- `timeout` is the time at which the scheduled pump is due.
pub record Rollup : Type 0 where
  pub relay_states : List RelayRollState
  pub stopped : Bool
  pub timeout : Option ℕ

-- What the scheduler does to the world: a query of a relay with its index, and its two callbacks.
pub data Effect : Type 0 where
  query : ℕ → RelayListEntry → ℕ → Effect
  on_relay_notes on_relay_error : RelayListEntry → Effect

clear_scheduled_pump : Rollup → Rollup
clear_scheduled_pump r = record r { timeout = none }

unfoldable pub schedule_pump : ℕ → ℕ → Rollup → Rollup
unfolding clear_scheduled_pump
schedule_pump now delay r =
    if r.stopped then r else record (clear_scheduled_pump r) { timeout = some (now + delay) }

-- The objects of `relayStates` are shared with the sorted list: a write goes to the position that
-- the object has, which is its `index`.
abbrev pub start_query : RelayRollState → RelayRollState
start_query s = record s { in_flight = true }

pub run_relay_queries : List RelayRollState → List RelayRollState → List RelayRollState
run_relay_queries [] states = states
run_relay_queries (d ∷ ds) states = run_relay_queries ds (modify d.index start_query states)

abbrev pub is_due : ℕ → RelayRollState → Bool
is_due now s = not s.in_flight && leb s.next_run_at now

-- the least `nextRunAt`, `none` for infinity
pub soonest : List RelayRollState → Option ℕ
soonest [] = none
soonest (s ∷ ss) = elim (soonest ss) [
  | none ↦ some s.next_run_at
  | some t ↦ some (min s.next_run_at t)
]

abbrev pub land : RelayRollState → RelayRollState
land s = record s { in_flight = false }

module _ (c : Config) where
  pub available_slots : Rollup → ℕ
  available_slots r = c.max_concurrent_queries - length (filter (λ s. s.in_flight) r.relay_states)

  pub due_relay_states : ℕ → Rollup → List RelayRollState
  unfolding available_slots compare_relay_states
  due_relay_states now r =
      if ltb 0 (available_slots r)
      then take (available_slots r)
          (sort (compare_relay_states c.current_relay_url) (filter (is_due now) r.relay_states))
      else []

  pub schedule_next : ℕ → Rollup → Rollup
  unfolding schedule_pump soonest
  schedule_next later r = elim (soonest (filter (λ s. not s.in_flight) r.relay_states)) [
    | none ↦ r
    | some next ↦ schedule_pump later (next - later) r
  ]

  abbrev pub query_of : RelayRollState → Effect
  query_of s = query s.index s.relay c.query_limit

  -- `now` and `later` are the two readings of the clock.
  pub pump : ℕ → ℕ → Rollup → Rollup × List Effect
  unfolding due_relay_states run_relay_queries schedule_next clear_scheduled_pump
  pump now later r =
      let due = due_relay_states now r in
      if r.stopped then (r, []) else (
        schedule_next later (record (clear_scheduled_pump r) {
          relay_states = run_relay_queries due r.relay_states;
        }),
        map query_of due,
      )

  -- the callback of the timer
  pub on_timeout : ℕ → ℕ → Rollup → Rollup × List Effect
  unfolding clear_scheduled_pump
  on_timeout now later r = pump now later (clear_scheduled_pump r)

  abbrev pub succeed : ℕ → RelayRollState → RelayRollState
  succeed now s = record s { failure_count = 0; next_run_at = now + c.success_cooldown_ms }

  abbrev pub fail : ℕ → RelayRollState → RelayRollState
  fail now s = record s {
    failure_count = s.failure_count + 1;
    next_run_at =
        now
        + compute_pulse_relay_backoff_ms (s.failure_count + 1) c.failure_backoff_base_ms
            c.failure_backoff_max_ms;
  }

  -- `.then`, for the relay that the query was sent to
  unfoldable pub on_then : ℕ → ℕ → RelayListEntry → Rollup → Rollup × List Effect
  on_then now index relay r = if r.stopped then (r, []) else (
    record r { relay_states = modify index (succeed now) r.relay_states },
    on_relay_notes relay ∷ [],
  )

  -- `.catch`
  unfoldable pub on_catch : ℕ → ℕ → RelayListEntry → Rollup → Rollup × List Effect
  on_catch now index relay r = if r.stopped then (r, []) else (
    record r { relay_states = modify index (fail now) r.relay_states },
    on_relay_error relay ∷ [],
  )

  -- `.finally`
  pub on_finally : ℕ → ℕ → ℕ → Rollup → Rollup × List Effect
  on_finally now later index r =
      pump now later (record r { relay_states = modify index land r.relay_states })

unfoldable pub stop : Rollup → Rollup
unfolding clear_scheduled_pump
stop r = clear_scheduled_pump (record r { stopped = true })

unfoldable pub index_from : ℕ → List RelayListEntry → List RelayRollState
index_from i [] = []
index_from i (r ∷ rs) =
    record { relay = r; next_run_at = 0; failure_count = 0; in_flight = false; index = i }
    ∷ index_from (suc i) rs

-- `startPulseRelayRollup`: the state that it leaves when it returns
pub start : ℕ → PulseRelayRollupOptions → Rollup
unfolding configure order_pulse_relays index_from schedule_pump
start now o = schedule_pump now (configure o).initial_delay_ms (record {
  relay_states = index_from 0 (order_pulse_relays o.relays o.current_relay_url);
  stopped = false;
  timeout = none;
})
