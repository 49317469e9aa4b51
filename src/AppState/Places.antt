-- ===== src/AppState/Places.antt =====
-- apps/web/src/app-state.tsx: places and the beacons that relays send.
pub mod Laws
use synchrono_city.Prelude.{
  Bool, true, false, not, ◌&&◌, ◌||◌, Option, none, some, or_else, List, [], ◌∷◌, ◌++◌, map, filter,
  find?, if◌then◌else◌,
}
use synchrono_city.Prelude.Int.{ℤ, is_positive}
use synchrono_city.Prelude.Text.{
  JsString, codes, ◌===◌, trim, truthy, truthy?, or_string, add_all, dedupe,
}
use synchrono_city.Prelude.Maps.{JsMap, map_get, map_delete, map_of}
use synchrono_city.Prelude.Runtime.{Runtime}
use synchrono_city.Social.Values.{nonempty_or_undefined}
use synchrono_city.Data.Types.{Place}

-- `a || b` on optional strings, and `a?.trim() || b`
abbrev pub or_truthy : Option JsString → Option JsString → Option JsString
or_truthy a b = if truthy? a then a else b

abbrev pub or_trimmed : Option JsString → Option JsString → Option JsString
or_trimmed none b = b
or_trimmed (some s) b = if truthy (trim s) then some (trim s) else b

abbrev pub or_list : List JsString → List JsString → List JsString
or_list [] ys = ys
or_list (x ∷ xs) ys = x ∷ xs

abbrev pub one_of : Option JsString → List JsString
one_of none = []
one_of (some s) = s ∷ []

unfoldable pub merge_place_tags : List JsString → List JsString → List JsString
merge_place_tags current next = dedupe (filter truthy (map trim (current ++ next)))

-- The call of `mergePubkeys` in `mergePlace`: two collections, and then two single keys.
unfoldable pub merge_pubkeys :
    Option (List JsString)
    → Option (List JsString)
    → Option JsString
    → Option JsString
    → Option (List JsString)
merge_pubkeys current next current_owner next_owner = nonempty_or_undefined (
    dedupe (
      filter truthy (
        map trim
          (or_else current [] ++ or_else next [] ++ one_of current_owner ++ one_of next_owner))))

unfoldable pub merge_place : Option Place → Place → Place
unfolding merge_place_tags merge_pubkeys
merge_place none next = next
merge_place (some current) next = record {
  geohash = or_string next.geohash current.geohash;
  title = or_string (trim next.title) current.title;
  neighborhood = or_string (trim next.neighborhood) current.neighborhood;
  description = or_string (trim next.description) current.description;
  activity_summary = or_string (trim next.activity_summary) current.activity_summary;
  created_at = or_truthy next.created_at current.created_at;
  picture = or_trimmed next.picture current.picture;
  owner_pubkey = or_trimmed next.owner_pubkey current.owner_pubkey;
  member_pubkeys =
      merge_pubkeys current.member_pubkeys next.member_pubkeys current.owner_pubkey
        next.owner_pubkey;
  tags = merge_place_tags current.tags next.tags;
  capacity = if is_positive next.capacity then next.capacity else current.capacity;
  occupant_pubkeys = or_list next.occupant_pubkeys current.occupant_pubkeys;
  unread = next.unread || current.unread;
  pinned_note_id = or_truthy next.pinned_note_id current.pinned_note_id;
}

unfoldable pub upsert_place : List Place → Place → List Place
unfolding merge_place
upsert_place current next =
    merge_place (find? (λ place. place.geohash === next.geohash) current) next
    ∷ filter (λ place. not (place.geohash === next.geohash)) current

-- The loop over the current places: the merged places, and the beacons that are left.
unfoldable pub merge_pending : List Place → JsMap Place → List Place × JsMap Place
unfolding merge_place
merge_pending [] pending = ([], pending)
merge_pending (place ∷ places) pending = elim (map_get place.geohash pending) [
  | none ↦ let (merged, left) = merge_pending places pending in (place ∷ merged, left)
  | some beacon ↦
      let (merged, left) = merge_pending places (map_delete place.geohash pending) in
      (merge_place (some place) beacon ∷ merged, left)
]

abbrev pub pending_first : List Place × JsMap Place → List Place
pending_first (merged, left) = map (λ e. e.1) left ++ merged

unfoldable pub merge_relay_beacon_places : List Place → List Place → List Place
unfolding merge_pending
merge_relay_beacon_places current [] = current
merge_relay_beacon_places current (beacon ∷ beacons) =
    pending_first
      (merge_pending current (map_of (map (λ place. (place.geohash, place)) (beacon ∷ beacons))))

module _ (rt : Runtime) where
  unfoldable pub normalize_beacon_tags : List JsString → List JsString
  normalize_beacon_tags tags = dedupe (
      filter (λ tag. truthy tag && not (tag === codes "beacon") && not (tag === codes "geohash8"))
        (map (λ tag. rt.to_lower_case (trim tag)) tags))
