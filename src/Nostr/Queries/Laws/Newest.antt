-- ===== src/Nostr/Queries/Laws/Newest.antt =====
-- Which beacon `queryBeaconDefinitions` of apps/web/src/nostr.ts keeps for a geohash.
use mathlib.Core.Option
use synchrono_city.Prelude.{
  ◌≡◌, refl, sym, ap, ◌∙◌, Bool, true, false, Option, none, some, or_else, List, [], ◌∷◌, arith,
  if◌then◌else◌, Bool-cases, inl, inr,
}
use mathlib.Core.Path.{subst}
use synchrono_city.Prelude.Int.{ℤ, leb_ℤ}
use synchrono_city.Prelude.Text.{JsString, ◌===◌, ===_iff}
use synchrono_city.Prelude.Maps.{map_get, map_set, map_get-map_set}
use synchrono_city.Social.Values.{JsValue, infinite, number}
use synchrono_city.Data.Types.{Place}
use synchrono_city.Nostr.Queries.{at_least}
use synchrono_city.Nostr.Queries.Beacons.{BeaconsFound, keep_beacon}

-- A beacon with the `created_at` of its event.
abbrev pub Dated : Type 0
Dated = ℤ × Place

-- The query's collecting, and the reference: of two beacons the later one, and the second if they are
-- as old; the newest beacon of a geohash.
abbrev pub keep_beacons : List Dated → BeaconsFound → BeaconsFound
keep_beacons [] found = found
keep_beacons ((t, beacon) ∷ ds) found = keep_beacons ds (keep_beacon (number t) beacon found)

abbrev pub newer : Option Dated → Option Dated → Option Dated
newer none d = d
newer (some a) none = some a
newer (some a) (some b) = if leb_ℤ a.0 b.0 then some b else some a

abbrev pub newest : JsString → List Dated → Option Dated
newest geohash [] = none
newest geohash (d ∷ ds) =
    let rest = newest geohash ds in if d.1.geohash === geohash then newer (some d) rest else rest

-- The best dated beacon of the geohash so far is the one that is kept.
abbrev pub Keeps : JsString → Option Dated → BeaconsFound → Type 0
Keeps geohash best found =
    (map_get geohash found.beacons_by_geohash ≡ Option.map (λ d. d.1) best)
    × (map_get geohash found.created_at_by_geohash ≡ Option.map (λ d. number d.0) best)

newer_assoc : (a b c : Option Dated) → newer (newer a b) c ≡ newer a (newer b c)
newer_assoc none b c = refl
newer_assoc (some a) none c = refl
newer_assoc (some a) (some b) none = ground arith
newer_assoc (some a) (some b) (some c) = ground arith

-- The collecting of one beacon: it is stored, or nothing changes.
abbrev stored : ℤ → Place → BeaconsFound → BeaconsFound
stored t beacon found = record {
  beacons_by_geohash = map_set beacon.geohash beacon found.beacons_by_geohash;
  created_at_by_geohash = map_set beacon.geohash (number t) found.created_at_by_geohash;
}

if-Keeps :
    (geohash : JsString) (best : Option Dated) (b : Bool) (f g : BeaconsFound)
    → (b ≡ true → Keeps geohash best f)
    → (b ≡ false → Keeps geohash best g)
    → Keeps geohash best (if b then f else g)
if-Keeps geohash best true f g h k = h refl
if-Keeps geohash best false f g h k = k refl

keep_other :
    (geohash : JsString) (best : Option Dated) (t : ℤ) (beacon : Place) (found : BeaconsFound)
    → (beacon.geohash === geohash) ≡ false
    → Keeps geohash best found
    → Keeps geohash best (keep_beacon (number t) beacon found)
unfolding keep_beacon
keep_other geohash best t beacon found other (h, k) =
    if-Keeps geohash best _ (stored t beacon found) found
      (λ _. (
        rw (map_get-map_set beacon.geohash geohash beacon found.beacons_by_geohash, other) h,
        rw (map_get-map_set beacon.geohash geohash (number t) found.created_at_by_geohash, other) k,
      ))
      (λ _. (h, k))

by_best :
    (geohash : JsString) (best : Option Dated) (t : ℤ) (beacon : Place) (found : BeaconsFound)
    → (beacon.geohash === geohash) ≡ true
    → Keeps geohash best found
    → Keeps geohash (newer best (some (t, beacon))) (
        if at_least (number t) (or_else (Option.map (λ d. number d.0) best) (infinite false))
        then stored t beacon found
        else found)
by_best geohash none t beacon found same h = (
  rw (map_get-map_set beacon.geohash geohash beacon found.beacons_by_geohash, same) refl,
  rw (map_get-map_set beacon.geohash geohash (number t) found.created_at_by_geohash, same) refl,
)
by_best geohash (some (u, old)) t beacon found same h = elim (Bool-cases (leb_ℤ u t)) [
  | inl later ↦ rw later (
    rw (map_get-map_set beacon.geohash geohash beacon found.beacons_by_geohash, same) refl,
    rw (map_get-map_set beacon.geohash geohash (number t) found.created_at_by_geohash, same) refl,
  )
  | inr earlier ↦ rw earlier h
]

keep_same :
    (geohash : JsString) (best : Option Dated) (t : ℤ) (beacon : Place) (found : BeaconsFound)
    → (beacon.geohash === geohash) ≡ true
    → Keeps geohash best found
    → Keeps geohash (newer best (some (t, beacon))) (keep_beacon (number t) beacon found)
unfolding keep_beacon
keep_same geohash best t beacon found same (h, k) =
    subst
      (λ (at : Option JsValue). Keeps geohash (newer best (some (t, beacon))) (
        if at_least (number t) (or_else at (infinite false)) then stored t beacon found else found))
      (sym k
        ∙ ap (λ (g : JsString). map_get g found.created_at_by_geohash)
            (sym ((===_iff beacon.geohash geohash).0 same)))
      (by_best geohash best t beacon found same (h, k))

newer-none : (d : Option Dated) → newer d none ≡ d
newer-none none = refl
newer-none (some d) = refl

keep_beacons-Keeps :
    (geohash : JsString) (best : Option Dated) (ds : List Dated) (found : BeaconsFound)
    → Keeps geohash best found
    → Keeps geohash (newer best (newest geohash ds)) (keep_beacons ds found)
keep_beacons-Keeps geohash best [] found h =
    subst (λ (d : Option Dated). Keeps geohash d found) (sym (newer-none best)) h
keep_beacons-Keeps geohash best ((t, beacon) ∷ ds) found h =
    elim (Bool-cases (beacon.geohash === geohash)) [
      | inl same ↦ rw same (
          subst
            (λ (d : Option Dated).
              Keeps geohash d (keep_beacons ds (keep_beacon (number t) beacon found)))
            (newer_assoc best (some (t, beacon)) (newest geohash ds))
            (keep_beacons-Keeps geohash (newer best (some (t, beacon))) ds
              (keep_beacon (number t) beacon found) (keep_same geohash best t beacon found same h)))
      | inr other ↦ rw other (
          keep_beacons-Keeps geohash best ds (keep_beacon (number t) beacon found)
            (keep_other geohash best t beacon found other h))
    ]

abbrev pub no_beacons : BeaconsFound
no_beacons = record { beacons_by_geohash = []; created_at_by_geohash = [] }

-- Of the beacons that a relay sends, whatever their order, the query keeps for every geohash the one
-- with the greatest `created_at`, and of several such the one that came last.
pub keep_beacons-newest :
    (geohash : JsString) (ds : List Dated)
    → map_get geohash (keep_beacons ds no_beacons).beacons_by_geohash
      ≡ Option.map (λ d. d.1) (newest geohash ds)
unfolding map_get
keep_beacons-newest geohash ds = (keep_beacons-Keeps geohash none ds no_beacons (refl, refl)).0
