-- ===== src/Rollup/Stopping.antt =====
-- What a stopped scheduler does to the query chains of pulse-relay-rollup.ts.
use synchrono_city.Prelude.{
  ℕ, zero, suc, ◌+◌, ◌≤◌, ◌≡◌, refl, ap, ◌∙◌, some-injective, true, none, some, List, [], ◌∷◌,
  append-nil, arith, get_elem?, modify, remove_at,
}
use synchrono_city.Rollup.{
  Config, Rollup, pump, on_timeout, on_then, on_catch, land, on_finally, stop, clear_scheduled_pump,
}
use synchrono_city.Rollup.Run.{
  World, Phase, Chain, querying, failing, settled, handled, enter, after_then, Step, wait, fire,
  fulfil, reject, catch, finally, halt, Reach, Reach_induction,
}
use synchrono_city.Rollup.Slots.{pump_stopped}

-- The place of a phase in the order in which a chain goes through them.
abbrev pub rank : Phase → ℕ
rank querying = 0
rank failing = 1
rank settled = 2

-- The chains of the first list, in their order, are what is left of those of the second: some have
-- ended, and each other one has its relay and its phase, or a later phase. A chain that a query has
-- just started is in the first phase, so it is not one of those that have a later one.
pub data IsLeft : List Chain → List Chain → Type 0 where
  none_left : IsLeft [] []
  ended : (ch : Chain) {new old : List Chain} → IsLeft new old → IsLeft new (ch ∷ old)
  kept :
      (x ch : Chain) {new old : List Chain}
      → x.index ≡ ch.index
      → x.relay ≡ ch.relay
      → rank ch.phase ≤ rank x.phase
      → IsLeft new old
      → IsLeft (x ∷ new) (ch ∷ old)

IsLeft-refl : (chs : List Chain) → IsLeft chs chs
IsLeft-refl [] = none_left
IsLeft-refl (ch ∷ chs) = kept ch ch refl refl (omega arith) (IsLeft-refl chs)

IsLeft-trans : {xs ys zs : List Chain} → IsLeft xs ys → IsLeft ys zs → IsLeft xs zs
IsLeft-trans a none_left = a
IsLeft-trans a (ended ch b) = ended ch (IsLeft-trans a b)
IsLeft-trans (ended _ a) (kept y z i r le b) = ended z (IsLeft-trans a b)
IsLeft-trans (kept x _ i' r' le' a) (kept y z i r le b) =
    kept x z (i' ∙ i) (r' ∙ r) (omega (arith, le, le')) (IsLeft-trans a b)

remove_at-IsLeft : (k : ℕ) (chs : List Chain) → IsLeft (remove_at k chs) chs
remove_at-IsLeft k [] = none_left
remove_at-IsLeft zero (ch ∷ chs) = ended ch (IsLeft-refl chs)
remove_at-IsLeft (suc k) (ch ∷ chs) = kept ch ch refl refl (omega arith) (remove_at-IsLeft k chs)

-- A chain enters a phase that is not before its own.
enter-IsLeft :
    (p : Phase) (k : ℕ) (chs : List Chain) (ch : Chain)
    → get_elem? chs k ≡ some ch
    → rank ch.phase ≤ rank p
    → IsLeft (modify k (enter p) chs) chs
enter-IsLeft p k [] ch at le = none_left
enter-IsLeft p zero (x ∷ chs) ch at le =
    let same : x ≡ ch = some-injective at in
    kept (enter p x) x refl refl (omega (arith, ap (λ (y : Chain). rank y.phase) same, le))
      (IsLeft-refl chs)
enter-IsLeft p (suc k) (x ∷ chs) ch at le =
    kept x x refl refl (omega arith) (enter-IsLeft p k chs ch at le)

module _ (c : Config) where
  -- stopped, with no timer
  abbrev pub IsQuiet : World → Type 0
  IsQuiet w = (w.rollup.stopped ≡ true) × (w.rollup.timeout ≡ none)

  abbrev Quieter : World → World → Type 0
  Quieter u v = IsQuiet v × IsLeft v.chains u.chains

  -- a handler that starts nothing
  same_chains :
      (r : Rollup) (chs old : List Chain) (clock : ℕ)
      → IsLeft chs old
      → IsLeft (handled (r, []) chs clock).chains old
  same_chains r chs old clock h = rw (append-nil chs) h

  pump-Quieter :
      (now later clock : ℕ) (r : Rollup) (chs old : List Chain)
      → (r.stopped ≡ true) × (r.timeout ≡ none)
      → IsLeft chs old
      → IsQuiet (handled (pump c now later r) chs clock)
        × IsLeft (handled (pump c now later r) chs clock).chains old
  pump-Quieter now later clock r chs old (halted, unset) h =
      rw (pump_stopped c now later r halted) ((halted, unset), same_chains r chs old clock h)

  on_then_stopped :
      (now : ℕ) (ch : Chain) (r : Rollup)
      → r.stopped ≡ true
      → on_then c now ch.index ch.relay r ≡ (r, [])
  unfolding on_then
  on_then_stopped now ch r halted = rw halted refl

  on_catch_stopped :
      (now : ℕ) (ch : Chain) (r : Rollup)
      → r.stopped ≡ true
      → on_catch c now ch.index ch.relay r ≡ (r, [])
  unfolding on_catch
  on_catch_stopped now ch r halted = rw halted refl

  Step-Quieter : (u v : World) → Step c u v → IsQuiet u → Quieter u v
  unfolding on_timeout on_finally stop clear_scheduled_pump
  Step-Quieter _ _ (wait w n) h = (h, IsLeft-refl w.chains)
  Step-Quieter _ _ (fire w t n e le) h = cc (h.1)
  Step-Quieter _ _ (fulfil w k ch throws e p) h =
      let p' = after_then w.rollup.stopped throws in
      rw (on_then_stopped w.clock ch w.rollup h.0) (
        h,
        same_chains w.rollup (modify k (enter p') w.chains) w.chains w.clock
            (enter-IsLeft p' k w.chains ch e (rw p (omega arith))),
      )
  Step-Quieter _ _ (reject w k ch e p) h =
      (h, enter-IsLeft failing k w.chains ch e (rw p (omega arith)))
  Step-Quieter _ _ (catch w k ch e p) h = rw (on_catch_stopped w.clock ch w.rollup h.0) (
    h,
    same_chains w.rollup (modify k (enter settled) w.chains) w.chains w.clock
        (enter-IsLeft settled k w.chains ch e (rw p (omega arith))),
  )
  Step-Quieter _ _ (finally w k ch n e p) h =
      pump-Quieter w.clock (w.clock + n) (w.clock + n)
        (record w.rollup { relay_states = modify ch.index land w.rollup.relay_states })
        (remove_at k w.chains) w.chains h (remove_at-IsLeft k w.chains)
  Step-Quieter _ _ (halt w) h = ((refl, refl), IsLeft-refl w.chains)

  -- Once it is stopped, in whatever world, the scheduler stays stopped, sets no timer and starts no
  -- query: the chains are what is left of those that were pending when it was stopped, in their
  -- order, each with the relay that it had and in the phase that it was in or a later one.
  pub Reach-IsQuiet :
      (w v : World)
      → Reach c (record w { rollup = stop w.rollup }) v
      → (v.rollup.stopped ≡ true) × (v.rollup.timeout ≡ none) × IsLeft v.chains w.chains
  unfolding stop clear_scheduled_pump
  Reach-IsQuiet w v r =
      let (q, left) =
        Reach_induction c (λ u. Quieter w u)
          (λ a b s h. let (q, left) = Step-Quieter a b s h.0 in (q, IsLeft-trans left h.1))
          (record w { rollup = record w.rollup { stopped = true; timeout = none } }) v
          ((refl, refl), IsLeft-refl w.chains) r in
      (q.0, q.1, left)
