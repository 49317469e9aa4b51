-- ===== src/AppState/Places/Laws.antt =====
-- The places of apps/web/src/app-state.tsx.
use mathlib.Core.Option
use synchrono_city.Prelude.{
  some-injective, none-ne_some, ◌≡◌, refl, sym, ap, ◌∙◌, Bool, true, not, Option, none, some, List,
  [], ◌∷◌, filter, find?, head?, arith, count, Bool-cases, inl, inr,
}
use synchrono_city.Prelude.Text.{JsString, ◌===◌, ===_iff, or_string}
use synchrono_city.Data.Types.{Place}
use synchrono_city.AppState.Places.{merge_place, upsert_place}

or_string-same : (s t u : JsString) → s ≡ u → t ≡ u → or_string s t ≡ u
or_string-same [] t u h k = k
or_string-same (c ∷ s) t u h k = h

abbrev pub is_at : JsString → Place → Bool
is_at geohash place = place.geohash === geohash

find?-is_at :
    (geohash : JsString) (places : List Place) (found : Option Place)
    → find? (is_at geohash) places ≡ found
    → (next : Place) → next.geohash ≡ geohash
    → (merge_place found next).geohash ≡ geohash
unfolding merge_place
find?-is_at geohash places none e next same = same
find?-is_at geohash [] (some place) e next same = absurd (none-ne_some e)
find?-is_at geohash (p ∷ places) (some place) e next same =
    elim (Bool-cases (p.geohash === geohash)) [
      | inl here ↦
          let first : p ≡ place = some-injective (rw here at e) in
          or_string-same next.geohash place.geohash geohash same
            (ap (λ (q : Place). q.geohash) (sym first) ∙ (===_iff p.geohash geohash).0 here)
      | inr later ↦ find?-is_at geohash places (some place) (rw later at e) next same
    ]

filter-filter :
    (geohash : JsString) (places : List Place)
    → (filter (λ p. not (is_at geohash p)) (filter (λ p. not (is_at geohash p)) places)
        ≡ filter (λ p. not (is_at geohash p)) places)
      × (count (is_at geohash) (filter (λ p. not (is_at geohash p)) places) ≡ 0)
filter-filter geohash [] = (refl, refl)
filter-filter geohash (p ∷ places) = elim (Bool-cases (p.geohash === geohash)) [
  | inl here ↦ rw here (filter-filter geohash places)
  | inr other ↦
      let (same, zero) = filter-filter geohash places in
      rw (other, other) (ap (◌∷◌ p) same, omega (arith, zero))
]

-- After the update of a place the first of the list is a place with its geohash, there is no other
-- place with that geohash, and the places with other geohashes are as they were and in their order.
pub upsert_place_lem :
    (places : List Place) (next : Place)
    → (Option.map (λ p. p.geohash) (head? (upsert_place places next)) ≡ some next.geohash)
      × (count (is_at next.geohash) (upsert_place places next) ≡ 1)
      × (filter (λ p. not (is_at next.geohash p)) (upsert_place places next)
          ≡ filter (λ p. not (is_at next.geohash p)) places)
unfolding upsert_place
upsert_place_lem places next =
    let found = find? (is_at next.geohash) places in
    let head : (merge_place found next).geohash ≡ next.geohash =
      find?-is_at next.geohash places found refl next refl in
    let there : ((merge_place found next).geohash === next.geohash) ≡ true =
      (===_iff (merge_place found next).geohash next.geohash).1 head in
    let (same, zero) = filter-filter next.geohash places in
    (ap some head, rw there (omega (arith, zero)), rw there same)
