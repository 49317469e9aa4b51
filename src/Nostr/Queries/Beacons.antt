-- ===== src/Nostr/Queries/Beacons.antt =====
-- apps/web/src/nostr.ts: `queryBeaconDefinitions`.
use mathlib.Core.Option
use synchrono_city.Prelude.{false, Option, none, some, or_else, List, [], ◌∷◌, map, if◌then◌else◌}
use synchrono_city.Prelude.Sort.{sort}
use synchrono_city.Prelude.Text.{JsString, codes, truthy}
use synchrono_city.Prelude.Maps.{JsMap, map_get, map_set}
use synchrono_city.Social.Values.{JsValue, infinite, string, object, end, element, bare}
use synchrono_city.Data.Types.{Place}
use synchrono_city.Nostr.Platform.{Platform}
use synchrono_city.Nostr.Events.{
  UnsignedRelayEvent, is_signed_beacon_definition_event, normalize_relay_beacon_definition_event,
}
use synchrono_city.Nostr.Session.{Action, ignore, collect, Protocol}
use synchrono_city.Nostr.Queries.{
  Query, refused, asked, Checked, throws, returns, normalize_relay_url, normalize_geohash,
  addressed, third, frame, close_frame, field, one, whole, on_eose, at_least,
}

pub record BeaconsFound : Type 0 where
  pub beacons_by_geohash : JsMap Place
  pub created_at_by_geohash : JsMap JsValue

-- A beacon replaces the one of its geohash unless it is older.
unfoldable pub keep_beacon : JsValue → Place → BeaconsFound → BeaconsFound
keep_beacon created_at beacon found =
    let existing = or_else (map_get beacon.geohash found.created_at_by_geohash) (infinite false) in
    if at_least created_at existing
    then record {
      beacons_by_geohash = map_set beacon.geohash beacon found.beacons_by_geohash;
      created_at_by_geohash = map_set beacon.geohash created_at found.created_at_by_geohash;
    }
    else found

abbrev pub kept_beacon : UnsignedRelayEvent → BeaconsFound → Option Place → Action BeaconsFound
kept_beacon event found none = ignore
kept_beacon event found (some beacon) = collect (keep_beacon event.created_at beacon found)

abbrev pub beacons_filter : JsString → JsValue
beacons_filter geohash = object (
    field "kinds" (one (whole 39001))
      (if truthy geohash then field "#d" (one (string geohash)) bare else bare))

module _ (p : Platform) where
  abbrev pub on_beacon : Option UnsignedRelayEvent → BeaconsFound → Option (Action BeaconsFound)
  on_beacon none found = some ignore
  on_beacon (some event) found =
      Option.map (kept_beacon event found) (normalize_relay_beacon_definition_event p event)

  unfoldable pub beacons_result : BeaconsFound → List Place
  beacons_result found =
      sort (λ left right. p.runtime.locale_compare left.geohash right.geohash)
        (map (λ e. e.1) found.beacons_by_geohash)

  unfoldable pub beacon_definitions_protocol :
      JsString → JsString → Protocol BeaconsFound (List Place)
  unfolding keep_beacon
  beacon_definitions_protocol geohash id = record {
    initial = record { beacons_by_geohash = []; created_at_by_geohash = [] };
    request = frame "REQ" id (element (beacons_filter geohash) end);
    on_payload = λ payload found.
        if addressed (codes "EVENT") id payload
        then on_beacon (is_signed_beacon_definition_event (third payload)) found
        else some (on_eose id (close_frame id ∷ []) payload);
    result = beacons_result;
    timeout_text = codes "Relay beacon query timed out.";
    closed_text = codes "Relay closed before returning beacon definitions.";
  }

  -- `geohash ? normalizeGeohash(geohash, …) : ""`
  abbrev pub optional_geohash : Option JsString → Checked JsString
  optional_geohash none = returns []
  optional_geohash (some geohash) =
      if truthy geohash
      then normalize_geohash p geohash (codes "Beacon geohash is required.")
      else returns []

  abbrev pub ask_beacons : JsString → JsString → Checked JsString → Query BeaconsFound (List Place)
  ask_beacons url id (throws failure) = refused failure
  ask_beacons url id (returns geohash) = asked url (beacon_definitions_protocol geohash id)

  unfoldable pub query_beacon_definitions :
      JsString → Option JsString → JsString → Query BeaconsFound (List Place)
  query_beacon_definitions relay_url geohash id = elim (normalize_relay_url p relay_url) [
    | throws failure ↦ refused failure
    | returns url ↦ ask_beacons url id (optional_geohash geohash)
  ]
