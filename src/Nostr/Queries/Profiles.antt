-- ===== src/Nostr/Queries/Profiles.antt =====
-- apps/web/src/nostr.ts: `queryProfileMetadata`.
use synchrono_city.Prelude.{Option, none, some, or_else, List, [], ◌∷◌, map, flatten, if◌then◌else◌}
use synchrono_city.Prelude.Text.{JsString, codes, trim, truthy, add}
use synchrono_city.Prelude.Maps.{JsMap, map_get, map_set, map_of}
use synchrono_city.Social.Values.{JsValue, array, object, end, element, bare}
use synchrono_city.NostrUtils.{normalize_public_key_hex}
use synchrono_city.Nostr.Tags.{strings}
use synchrono_city.Nostr.Platform.{Platform}
use synchrono_city.Nostr.Events.{
  UnsignedRelayEvent, is_signed_kind_zero_event, parse_profile_metadata_content,
}
use synchrono_city.Nostr.Session.{Action, ignore, collect, Protocol}
use synchrono_city.Nostr.Queries.{
  Query, refused, answered, asked, throws, returns, normalize_relay_url, addressed, third, frame,
  close_frame, field, one, whole, on_eose, exceeds,
}

abbrev pub request_author :
    JsMap (List JsString) → JsString → Option JsString → JsMap (List JsString)
request_author requested author none = requested
request_author requested author (some hex) =
    if truthy hex
    then map_set hex (add (or_else (map_get hex requested) []) author) requested
    else requested

-- An event replaces the one that is kept for its key if it is later.
abbrev pub keep_latest :
    UnsignedRelayEvent
    → JsMap UnsignedRelayEvent
    → Option UnsignedRelayEvent
    → JsMap UnsignedRelayEvent
keep_latest event latest none = map_set event.pubkey event latest
keep_latest event latest (some existing) =
    if exceeds event.created_at existing.created_at
    then map_set event.pubkey event latest
    else latest

abbrev pub kept_latest :
    Option UnsignedRelayEvent → JsMap UnsignedRelayEvent → Action (JsMap UnsignedRelayEvent)
kept_latest none latest = ignore
kept_latest (some event) latest = collect (keep_latest event latest (map_get event.pubkey latest))

abbrev pub entries_for : Option JsValue → Option (List JsString) → List (JsString × JsValue)
entries_for (some metadata) (some authors) = map (λ author. (author, metadata)) authors
entries_for _ _ = []

abbrev pub filter_of : JsMap (List JsString) → JsValue
filter_of requested = object (
    field "kinds" (one (whole 0))
      (field "authors" (array (strings (map (λ e. e.0) requested))) bare))

module _ (p : Platform) where
  -- The loop over the authors.
  unfoldable pub requested_authors : List JsString → JsMap (List JsString) → JsMap (List JsString)
  requested_authors [] requested = requested
  requested_authors (author ∷ authors) requested = requested_authors authors (
      if truthy (trim author)
      then request_author requested (trim author)
          (normalize_public_key_hex p.runtime p.bech32 (trim author))
      else requested)

  unfoldable pub profile_metadata_result :
      JsMap (List JsString) → JsMap UnsignedRelayEvent → JsMap JsValue
  profile_metadata_result requested latest = map_of (
      flatten (
        map
          (λ e. entries_for (parse_profile_metadata_content p e.1.content) (map_get e.0 requested))
          latest))

  unfoldable pub profile_metadata_protocol :
      JsMap (List JsString) → JsString → Protocol (JsMap UnsignedRelayEvent) (JsMap JsValue)
  profile_metadata_protocol requested id = record {
    initial = [];
    request = frame "REQ" id (element (filter_of requested) end);
    on_payload = λ payload latest. some (
        if addressed (codes "EVENT") id payload
        then kept_latest (is_signed_kind_zero_event (third payload)) latest
        else on_eose id (close_frame id ∷ []) payload);
    result = profile_metadata_result requested;
    timeout_text = codes "Relay metadata query timed out.";
    closed_text = codes "Relay closed before returning metadata.";
  }

  abbrev pub ask_profiles :
      JsString → JsMap (List JsString) → JsString → Query (JsMap UnsignedRelayEvent) (JsMap JsValue)
  ask_profiles url [] id = answered []
  ask_profiles url (entry ∷ entries) id = asked url (profile_metadata_protocol (entry ∷ entries) id)

  -- `id` is the subscription's, made of the time and of a random number.
  unfoldable pub query_profile_metadata :
      JsString → List JsString → JsString → Query (JsMap UnsignedRelayEvent) (JsMap JsValue)
  query_profile_metadata relay_url authors id = elim (normalize_relay_url p relay_url) [
    | throws failure ↦ refused failure
    | returns url ↦ ask_profiles url (requested_authors authors []) id
  ]
