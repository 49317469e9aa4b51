-- ===== src/Rollup/Run.antt =====
-- How the handlers of pulse-relay-rollup.ts are called. Each query is a promise with `.then`,
-- `.catch` and `.finally` behind it, three microtasks between which anything else may run: the
-- timer, the chains of other relays, and `stop`.
use synchrono_city.Prelude.{
  ℕ, ◌+◌, ◌≤◌, ◌≡◌, Bool, not, ◌&&◌, some, List, [], ◌∷◌, ◌++◌, if◌then◌else◌, modify, get_elem?,
  remove_at,
}
use synchrono_city.Data.Types.{RelayListEntry}
use synchrono_city.Rollup.{
  PulseRelayRollupOptions, Config, Rollup, Effect, query, on_relay_notes, on_relay_error,
  on_timeout, on_then, on_catch, on_finally, stop, start,
}

-- `querying`: the promise of the query is pending. `failing`: a rejection, of the query or by an
-- exception of the `.then` handler, goes to `.catch`. `settled`: only `.finally` is left.
pub data Phase : Type 0 where
  querying failing settled : Phase

pub record Chain : Type 0 where
  pub index : ℕ
  pub relay : RelayListEntry
  pub phase : Phase

pub record World : Type 0 where
  pub rollup : Rollup
  pub chains : List Chain
  pub clock : ℕ

-- A query starts a chain.
abbrev pub chains_of : List Effect → List Chain
chains_of [] = []
chains_of (query i relay limit ∷ es) =
    record { index = i; relay = relay; phase = querying } ∷ chains_of es
chains_of (on_relay_notes relay ∷ es) = chains_of es
chains_of (on_relay_error relay ∷ es) = chains_of es

-- A handler has run: its state, the chains of the queries that it started, and the clock.
abbrev pub handled : Rollup × List Effect → List Chain → ℕ → World
handled (r, es) chains now = record { rollup = r; chains = chains ++ chains_of es; clock = now }

abbrev pub enter : Phase → Chain → Chain
enter p ch = record ch { phase = p }

-- The callback may throw, which it can only do when it is called.
abbrev pub after_then : Bool → Bool → Phase
after_then stopped throws = if throws && not stopped then failing else settled

module _ (c : Config) where
  pub data Step : World → World → Type 0 where
    wait : (w : World) (n : ℕ) → Step w (record w { clock = w.clock + n })
    fire :
        (w : World) (t n : ℕ)
        → w.rollup.timeout ≡ some t
        → t ≤ w.clock
        → Step w (handled (on_timeout c w.clock (w.clock + n) w.rollup) w.chains (w.clock + n))
    fulfil :
        (w : World) (k : ℕ) (ch : Chain) (throws : Bool)
        → get_elem? w.chains k ≡ some ch
        → ch.phase ≡ querying
        → Step w (
            handled
              (on_then c w.clock ch.index ch.relay w.rollup)
              (modify k (enter (after_then w.rollup.stopped throws)) w.chains)
              w.clock)
    reject :
        (w : World) (k : ℕ) (ch : Chain)
        → get_elem? w.chains k ≡ some ch
        → ch.phase ≡ querying
        → Step w (record w { chains = modify k (enter failing) w.chains })
    catch :
        (w : World) (k : ℕ) (ch : Chain)
        → get_elem? w.chains k ≡ some ch
        → ch.phase ≡ failing
        → Step w (
            handled
              (on_catch c w.clock ch.index ch.relay w.rollup)
              (modify k (enter settled) w.chains)
              w.clock)
    finally :
        (w : World) (k : ℕ) (ch : Chain) (n : ℕ)
        → get_elem? w.chains k ≡ some ch
        → ch.phase ≡ settled
        → Step w (
            handled
              (on_finally c w.clock (w.clock + n) ch.index w.rollup)
              (remove_at k w.chains)
              (w.clock + n))
    halt : (w : World) → Step w (record w { rollup = stop w.rollup })

  pub data Reach (w : World) : World → Type 0 where
    here : Reach w w
    next : {u v : World} → Reach w u → Step u v → Reach w v

  pub Reach_induction :
      (P : World → Type 0)
      → ((u v : World) → Step u v → P u → P v)
      → (w v : World) → P w
      → Reach w v
      → P v
  Reach_induction P step w v p here = p
  Reach_induction P step w v p (next {u} r s) = step u v s (Reach_induction P step w u p r)

-- The world when `startPulseRelayRollup` returns.
abbrev pub started : ℕ → PulseRelayRollupOptions → World
started now o = record { rollup = start now o; chains = []; clock = now }
