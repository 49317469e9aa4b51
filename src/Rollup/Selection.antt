-- ===== src/Rollup/Selection.antt =====
-- Which relays a pump of pulse-relay-rollup.ts queries.
use mathlib.Core.List.{Perm}
use synchrono_city.Prelude.{
  ℕ, ◌≤◌, ◌≡◌, min, false, List, ◌++◌, arith, if◌then◌else◌, map, All, All-map, All-take, All-guard,
  length-take, filter, filter-All, length, ltb, drop, take-append-drop,
}
use synchrono_city.Prelude.Sort.{sort, IsSorted}
use synchrono_city.Prelude.Sort.Laws.{sort-perm, length-sort, sort-All, sort-IsSorted}
use synchrono_city.Rollup.{
  Config, RelayRollState, Rollup, is_due, compare_relay_states, available_slots, due_relay_states,
  query_of, pump,
}
use synchrono_city.Rollup.Ordering.{compare_relay_states-IsComparator}

module _ (c : Config) (now : ℕ) (r : Rollup) where
  -- the relays that could be queried now
  abbrev pub eligible : List RelayRollState
  eligible = filter (is_due now) r.relay_states

  ranked : List RelayRollState
  ranked = sort (compare_relay_states c.current_relay_url) eligible

  -- the eligible relays that are not queried
  left_over : List RelayRollState
  unfolding ranked
  left_over = if ltb 0 (available_slots c r) then drop (available_slots c r) ranked else ranked

  due-append-left_over : due_relay_states c now r ++ left_over ≡ ranked
  unfolding due_relay_states left_over ranked
  due-append-left_over = ground (arith, take-append-drop (available_slots c r) ranked)

  abbrev IsReady : RelayRollState → Type 0
  IsReady s = (s.in_flight ≡ false) × (s.next_run_at ≤ now)

  due-All : All IsReady (due_relay_states c now r)
  unfolding due_relay_states
  due-All = All-guard IsReady (ltb 0 (available_slots c r)) _ (
      All-take IsReady (available_slots c r) _ (
        sort-All IsReady (compare_relay_states c.current_relay_url) eligible
          (All-map (λ s h. ground arith) eligible (filter-All (is_due now) r.relay_states))))

  length-due : length (due_relay_states c now r) ≡ min (available_slots c r) (length eligible)
  unfolding due_relay_states
  length-due = ground (
    arith,
    length-take (available_slots c r) (sort (compare_relay_states c.current_relay_url) eligible),
    length-sort (compare_relay_states c.current_relay_url) eligible,
  )

-- A pump that is not stopped queries as many of the idle relays that are due as there are free
-- slots, or all of them; each with the configured limit; and those that it leaves stand behind those
-- that it queries in the order of the comparator.
pub pump-queries :
    (c : Config) (now later : ℕ) (r : Rollup)
    → r.stopped ≡ false
    → (launched : List RelayRollState) × (left : List RelayRollState) × ((pump c now later r).1
        ≡ map (query_of c) launched)
      × All (λ s. (s.in_flight ≡ false) × (s.next_run_at ≤ now)) launched
      × (length launched ≡ min (available_slots c r) (length (eligible c now r)))
      × Perm (launched ++ left) (eligible c now r)
      × IsSorted (compare_relay_states c.current_relay_url) (launched ++ left)
unfolding pump ranked
pump-queries c now later r running =
    let cmp = compare_relay_states c.current_relay_url in
    let split = due-append-left_over c now r in
    (
      due_relay_states c now r,
      left_over c now r,
      rw running,
      due-All c now r,
      length-due c now r,
      rw split (sort-perm cmp (eligible c now r)),
      rw split (
          sort-IsSorted cmp (compare_relay_states-IsComparator c.current_relay_url)
            (eligible c now r)),
    )
