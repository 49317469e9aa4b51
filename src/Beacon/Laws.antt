-- ===== src/Beacon/Laws.antt =====
-- Pictures and members of a beacon in apps/web/src/beacon-projection.ts.
use synchrono_city.Prelude.{
  ◌≡◌, refl, ap, ◌∙◌, Bool, true, false, ◌&&◌, ◌||◌, Option, none, some, List, [], ◌∷◌, map, filter,
  any, Bool-cases, inl, inr, arith,
}
use synchrono_city.Prelude.Text.{JsString, ◌===◌, ===_iff, truthy, includes, dedupe}
use synchrono_city.Prelude.Sets.{includes-dedupe, IsDistinct, add_all-IsDistinct}
use synchrono_city.Prelude.Maps.{JsMap, map_get}
use synchrono_city.Data.Types.{Place, GeoNote, ParticipantProfile}
use synchrono_city.Beacon.{
  trimmed, dedupe_pubkeys, picture_in, picture_from, candidate_pubkeys, resolve_beacon_avatar_url,
}

includes-filter :
    (xs : List JsString) (k : JsString)
    → includes (filter truthy xs) k ≡ (truthy k && includes xs k)
unfolding includes
includes-filter [] k = ground arith
includes-filter (x ∷ xs) k = elim (Bool-cases (x === k)) [
  | inl same ↦
      let e : truthy x ≡ truthy k = ap truthy ((===_iff x k).0 same) in
      ground (arith, includes-filter xs k)
  | inr other ↦ ground (arith, includes-filter xs k)
]

includes-map :
    (keys : List (Option JsString)) (k : JsString)
    → includes (map trimmed keys) k ≡ any (λ o. trimmed o === k) keys
unfolding includes
includes-map [] k = refl
includes-map (o ∷ keys) k = ground (arith, includes-map keys k)

-- The members are listed once each; they are the given keys, trimmed, without those that are blank or
-- missing.
pub dedupe_pubkeys_lem :
    (keys : List (Option JsString)) (k : JsString)
    → IsDistinct (dedupe_pubkeys keys)
      × (includes (dedupe_pubkeys keys) k ≡ (truthy k && any (λ o. trimmed o === k) keys))
unfolding dedupe_pubkeys dedupe
dedupe_pubkeys_lem keys k = (
  add_all-IsDistinct [] (filter truthy (map trimmed keys)) tt,
  includes-dedupe (filter truthy (map trimmed keys)) k
      ∙ includes-filter (map trimmed keys) k
      ∙ ap (λ (b : Bool). truthy k && b) (includes-map keys k),
)

abbrev pub has_picture : JsMap ParticipantProfile → JsString → Bool
has_picture profiles k = truthy (trimmed (picture_in (map_get k profiles)))

abbrev pub is_some : Option JsString → Bool
is_some none = false
is_some (some s) = true

-- A picture that is there is not blank.
abbrev pub IsShown : Option JsString → Type 0
IsShown none = Unit
IsShown (some s) = truthy s ≡ true

picture_from_lem :
    (profiles : JsMap ParticipantProfile) (keys : List JsString)
    → IsShown (picture_from profiles keys)
      × (is_some (picture_from profiles keys) ≡ any (has_picture profiles) keys)
unfolding picture_from
picture_from_lem profiles [] = (tt, refl)
picture_from_lem profiles (k ∷ keys) = elim (Bool-cases (has_picture profiles k)) [
  | inl shown ↦ rw shown (shown, refl)
  | inr blank ↦ rw blank (picture_from_lem profiles keys)
]

-- A beacon has a picture exactly if its place's is not blank or the profile of a participant, of a
-- note's author or of an occupant has one that is not; and the beacon's is not blank.
pub resolve_beacon_avatar_url_lem :
    (place : Place) (participants : List JsString) (notes : List GeoNote)
    (profiles : JsMap ParticipantProfile)
    → IsShown (resolve_beacon_avatar_url place participants notes profiles)
      × (is_some (resolve_beacon_avatar_url place participants notes profiles) ≡ (
          truthy (trimmed place.picture)
          || any (has_picture profiles) (candidate_pubkeys place participants notes)))
unfolding resolve_beacon_avatar_url
resolve_beacon_avatar_url_lem place participants notes profiles =
    let candidates = candidate_pubkeys place participants notes in
    elim (Bool-cases (truthy (trimmed place.picture))) [
      | inl shown ↦ rw shown (shown, refl)
      | inr blank ↦ rw blank (picture_from_lem profiles candidates)
    ]
