-- ===== src/Beacon.antt =====
-- apps/web/src/beacon-projection.ts and beacon-metadata.ts: the texts, pictures, members and tags of
-- a beacon.
pub mod Laws
use synchrono_city.Prelude.{
  Bool, true, false, Option, none, some, or_else, List, [], ◌∷◌, ◌++◌, map, filter, length, drop,
  ◌==◌, ◌&&◌, if◌then◌else◌,
}
use synchrono_city.Prelude.Text.{JsString, codes, trim, truthy, includes, dedupe}
use synchrono_city.Prelude.Maps.{JsMap, map_get}
use synchrono_city.Prelude.Runtime.{Runtime}
use synchrono_city.Data.Types.{Place, GeoNote, ParticipantProfile}
use synchrono_city.NostrUtils.{starts_with}

-- `value?.trim() ?? ""`
abbrev pub trimmed : Option JsString → JsString
trimmed none = []
trimmed (some s) = trim s

-- The first of the values, trimmed, that is not blank; `none` for `undefined`.
unfoldable pub first_non_empty : List (Option JsString) → Option JsString
first_non_empty [] = none
first_non_empty (v ∷ vs) =
    let later = first_non_empty vs in if truthy (trimmed v) then some (trimmed v) else later

unfoldable pub dedupe_pubkeys : List (Option JsString) → List JsString
dedupe_pubkeys pubkeys = dedupe (filter truthy (map trimmed pubkeys))

-- The loop over the candidates of `resolveBeaconAbout`.
unfoldable pub about_from : List JsString → JsString → JsString
about_from [] fallback = fallback
about_from (candidate ∷ candidates) fallback =
    let later = about_from candidates fallback in
    if truthy (trim candidate) then trim candidate else later

unfoldable pub resolve_beacon_about : Place → JsString
resolve_beacon_about place =
    about_from (place.description ∷ place.activity_summary ∷ place.neighborhood ∷ [])
      (codes "Chosen-place beacon for " ++ place.geohash ++ codes ".")

-- `profilesByPubkey.get(pubkey)?.picture`
abbrev pub picture_in : Option ParticipantProfile → Option JsString
picture_in none = none
picture_in (some profile) = profile.picture

-- The loop over the candidates of `resolveBeaconAvatarUrl`.
unfoldable pub picture_from : JsMap ParticipantProfile → List JsString → Option JsString
picture_from profiles [] = none
picture_from profiles (pubkey ∷ pubkeys) =
    let picture = trimmed (picture_in (map_get pubkey profiles)) in
    let later = picture_from profiles pubkeys in if truthy picture then some picture else later

abbrev pub candidate_pubkeys : Place → List JsString → List GeoNote → List JsString
candidate_pubkeys place participants sorted_notes =
    participants ++ map (λ n. n.author_pubkey) sorted_notes ++ place.occupant_pubkeys

unfoldable pub resolve_beacon_avatar_url :
    Place → List JsString → List GeoNote → JsMap ParticipantProfile → Option JsString
resolve_beacon_avatar_url place participants sorted_notes profiles =
    if truthy (trimmed place.picture)
    then some (trimmed place.picture)
    else picture_from profiles (candidate_pubkeys place participants sorted_notes)

unfoldable pub tag_value_of : JsString → List JsString → Option JsString
tag_value_of prefix [] = none
tag_value_of prefix (tag ∷ tags) =
    let later = tag_value_of prefix tags in
    if starts_with tag prefix then some (trim (drop (length prefix) tag)) else later

module _ (rt : Runtime) where
  unfoldable pub normalize_tags : List JsString → List JsString
  normalize_tags tags = filter truthy (map (λ t. rt.to_lower_case (trim t)) tags)

  unfoldable pub has_tag : List JsString → JsString → Bool
  has_tag tags wanted = includes (normalize_tags tags) wanted

  unfoldable pub is_cohort_place : Option Place → Bool
  is_cohort_place none = false
  is_cohort_place (some place) = has_tag place.tags (codes "cohort")

  unfoldable pub tag_value : List JsString → JsString → Option JsString
  tag_value tags prefix = tag_value_of (rt.to_lower_case prefix ++ codes ":") tags
