-- ===== src/Rollup/Ordering.antt =====
-- The order of the relays in pulse-relay-rollup.ts: the initial list and the comparator of the pump.
use mathlib.Core.List.{Perm}
use synchrono_city.Prelude.{
  ℕ, ◌≡◌, refl, ◌++◌, not, ◌&&◌, List, arith, All, All-map, filter, filter-All, filter-split, ◌≢◌,
}
use synchrono_city.Prelude.Int.{sub_ℕ}
use synchrono_city.Prelude.Text.{JsString, ◌===◌, ===_iff}
use synchrono_city.Prelude.Sort.{IsComparator}
use synchrono_city.Prelude.Sort.Laws.{then_by-IsComparator}
use synchrono_city.Data.Types.{RelayListEntry}
use synchrono_city.Rollup.{order_pulse_relays, priority, compare_relay_states}

sub_ℕ-IsComparator : {A : Type 0} (f : A → ℕ) → IsComparator {A = A} (λ x y. sub_ℕ (f x) (f y))
sub_ℕ-IsComparator f = record {
  swap_le = λ x y h. ground arith;
  swap_ge = λ x y h. ground arith;
  trans = λ x y z h k. ground arith;
}

-- The comparator of the pump is a consistent comparator, so the sort is defined.
pub compare_relay_states-IsComparator : (url : JsString) → IsComparator (compare_relay_states url)
unfolding compare_relay_states
compare_relay_states-IsComparator url =
    then_by-IsComparator _ _ (sub_ℕ-IsComparator (priority url)) (
      then_by-IsComparator _ _ (sub_ℕ-IsComparator (λ s. s.next_run_at))
        (sub_ℕ-IsComparator (λ s. s.index)))

-- The relays that are rolled are the inbox relays, each as often as it is listed: first those at the
-- current relay's URL, then the others.
pub order_pulse_relays_lem :
    (rs : List RelayListEntry) (url : JsString)
    → (first : List RelayListEntry) × (rest : List RelayListEntry) × (order_pulse_relays rs url
        ≡ first ++ rest)
      × All (λ r. r.url ≡ url) first
      × All (λ r. r.url ≢ url) rest
      × Perm (order_pulse_relays rs url) (filter (λ r. r.inbox) rs)
unfolding order_pulse_relays
order_pulse_relays_lem rs url = (
  filter (λ r. r.inbox && r.url === url) rs,
  filter (λ r. r.inbox && not (r.url === url)) rs,
  refl,
  All-map (λ r h. ground (arith, ===_iff r.url url)) _ (filter-All _ rs),
  All-map (λ r h. ground (arith, ===_iff r.url url)) _ (filter-All _ rs),
  filter-split (λ r. r.inbox) (λ r. r.url === url) rs,
)
