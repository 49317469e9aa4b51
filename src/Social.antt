-- ===== src/Social.antt =====
-- apps/web/src/social-payload.ts: values that come from outside, normalized into the data model.
pub mod Values
pub mod Laws
pub mod Notes
pub mod Objects
pub mod Payload
mod Tests
use synchrono_city.Prelude.{
  Bool, true, false, not, ◌&&◌, ◌||◌, Option, none, some, or_else, List, [], ◌∷◌, ◌++◌, filter,
  if◌then◌else◌,
}
use Prim.Native.String.{String}
use synchrono_city.Prelude.Int.{ℤ, pos, is_positive, is_nonzero}
use synchrono_city.Prelude.Text.{JsString, codes, ◌===◌, trim, truthy, or_string}
use synchrono_city.Data.Types.{
  ParticipantProfile, Place, GeoNote, GeoNoteReaction, RelayListEntry, CrossRelayFeedItem,
}
use synchrono_city.Social.Values.{
  JsValue, undefined, null, nan, infinite, boolean, number, string, array, object, Elements, end,
  element, Properties, bare, property, is_truthy, as_string, as_string_array, as_boolean, as_number,
  as_optional_number, pick, pick_either, optional_string, or_undefined, nonempty_or_undefined,
  as_reaction_array, pick_value,
}

unfoldable pub normalize_place_payload : JsValue → Place
normalize_place_payload v = record {
  geohash = as_string (pick v "geohash");
  title = as_string (pick v "title");
  neighborhood = as_string (pick v "neighborhood");
  description = as_string (pick v "description");
  activity_summary = as_string (pick_either v "activitySummary" "activity_summary");
  created_at = optional_string (pick_either v "createdAt" "created_at");
  picture = optional_string (pick_either v "picture" "pic");
  owner_pubkey = or_undefined (as_string (pick_either v "ownerPubkey" "owner_pubkey"));
  member_pubkeys =
      nonempty_or_undefined (as_string_array (pick_either v "memberPubkeys" "member_pubkeys"));
  tags = as_string_array (pick v "tags");
  capacity = as_number (pick v "capacity");
  occupant_pubkeys = as_string_array (pick_either v "occupantPubkeys" "occupant_pubkeys");
  unread = as_boolean (pick v "unread");
  pinned_note_id = optional_string (pick_either v "pinnedNoteId" "pinned_note_id");
}

unfoldable pub normalize_profile : JsValue → ParticipantProfile
normalize_profile v =
    let display_name = as_string (pick_either v "displayName" "display_name") in
    let name = as_string (pick v "name") in
    record {
      pubkey = as_string (pick v "pubkey");
      display_name = or_string display_name name;
      name = or_undefined name;
      picture = or_undefined (as_string (pick v "picture"));
      role = as_string (pick v "role");
      status = as_string (pick v "status");
      bio = as_string (pick v "bio");
      home_geohash = optional_string (pick_either v "homeGeohash" "home_geohash");
      mic = as_boolean (pick v "mic");
      cam = as_boolean (pick v "cam");
      screenshare = as_boolean (pick v "screenshare");
      deafen = as_boolean (pick v "deafen");
    }

unfoldable pub normalize_geo_note_payload : JsValue → GeoNote
normalize_geo_note_payload v = record {
  id = as_string (pick v "id");
  geohash = as_string (pick v "geohash");
  author_pubkey = as_string (pick_either v "authorPubkey" "author_pubkey");
  content = as_string (pick v "content");
  created_at = as_string (pick_either v "createdAt" "created_at");
  replies = as_number (pick v "replies");
  reply_target_id = optional_string (pick_either v "replyTargetId" "reply_target_id");
  root_note_id = optional_string (pick_either v "rootNoteId" "root_note_id");
  tagged_pubkeys =
      nonempty_or_undefined (as_string_array (pick_either v "taggedPubkeys" "tagged_pubkeys"));
  reactions = as_reaction_array (pick v "reactions");
}

unfoldable pub is_valid_geo_note : GeoNote → Bool
is_valid_geo_note note = truthy note.id && truthy note.geohash && truthy note.author_pubkey

unfoldable pub normalize_cross_relay_item : JsValue → CrossRelayFeedItem
normalize_cross_relay_item v = record {
  id = as_string (pick v "id");
  relay_name = as_string (pick_either v "relayName" "relay_name");
  relay_url = as_string (pick_either v "relayUrl" "relay_url");
  author_pubkey = as_string (pick_either v "authorPubkey" "author_pubkey");
  author_name = as_string (pick_either v "authorName" "author_name");
  geohash = as_string (pick v "geohash");
  place_title = as_string (pick_either v "placeTitle" "place_title");
  content = as_string (pick v "content");
  published_at = as_string (pick_either v "publishedAt" "published_at");
  source_label = as_string (pick_either v "sourceLabel" "source_label");
  why_visible = as_string (pick_either v "whyVisible" "why_visible");
  zap_count = as_optional_number (pick_either v "zapCount" "zap_count");
  engagement_score = as_optional_number (pick_either v "engagementScore" "engagement_score");
  follow_graph_score = as_optional_number (pick_either v "followGraphScore" "follow_graph_score");
  follower_count = as_optional_number (pick_either v "followerCount" "follower_count");
}

unfoldable pub normalize_relay_list_entry : JsValue → RelayListEntry
normalize_relay_list_entry v = record {
  url = as_string (pick_either v "url" "relay_url");
  name = as_string (pick v "name");
  inbox = as_boolean (pick v "inbox");
  outbox = as_boolean (pick v "outbox");
}

-- `Array.isArray(value) ? value.map(f) : []`
abbrev pub map_elements {ℓ} : {A : Type ℓ} → (JsValue → A) → Elements → List A
map_elements f end = []
map_elements f (element v es) = f v ∷ map_elements f es

abbrev pub map_array {ℓ} : {A : Type ℓ} → (JsValue → A) → JsValue → List A
map_array f (array es) = map_elements f es
map_array f _ = []

pub record BootstrapPayload : Type 0 where
  pub relay_name : JsValue
  pub relay_operator_pubkey : JsValue
  pub current_user_pubkey : JsValue
  pub relay_url : JsValue
  pub relay_list : JsValue
  pub cross_relay_items : JsValue
  pub places : JsValue
  pub profiles : JsValue
  pub notes : JsValue

-- What `normalizeBootstrapPayload` returns.
pub record Bootstrap : Type 0 where
  pub relay_name : JsValue
  pub relay_operator_pubkey : JsValue
  pub current_user_pubkey : JsString
  pub relay_url : JsValue
  pub relay_list : List RelayListEntry
  pub cross_relay_items : List CrossRelayFeedItem
  pub places : List Place
  pub profiles : List ParticipantProfile
  pub notes : List GeoNote

unfoldable pub normalize_bootstrap_payload : BootstrapPayload → Bootstrap
normalize_bootstrap_payload payload = record {
  relay_name = payload.relay_name;
  relay_operator_pubkey = payload.relay_operator_pubkey;
  current_user_pubkey = as_string payload.current_user_pubkey;
  relay_url = payload.relay_url;
  relay_list = filter (λ r. truthy r.url) (map_array normalize_relay_list_entry payload.relay_list);
  cross_relay_items =
      filter (λ i. truthy i.id) (map_array normalize_cross_relay_item payload.cross_relay_items);
  places = filter (λ p. truthy p.geohash) (map_array normalize_place_payload payload.places);
  profiles = filter (λ p. truthy p.pubkey) (map_array normalize_profile payload.profiles);
  notes = filter is_valid_geo_note (map_array normalize_geo_note_payload payload.notes);
}

-- `normalizeCreateBeaconResponsePayload`: whether it was created, and the beacon.
unfoldable pub normalize_create_beacon_response_payload : JsValue → JsValue → Bool × Option Place
normalize_create_beacon_response_payload created beacon =
    (as_boolean created, if is_truthy beacon then some (normalize_place_payload beacon) else none)

pub record CallIntentPayload : Type 0 where
  pub geohash : JsValue
  pub room_id : JsValue
  pub place_title : JsValue
  pub participant_pubkeys : JsValue

pub record CallIntent : Type 0 where
  pub geohash : JsString
  pub room_id : JsString
  pub place_title : JsString
  pub participant_pubkeys : List JsString

unfoldable pub normalize_call_intent_payload : CallIntentPayload → CallIntent
normalize_call_intent_payload payload = record {
  geohash = as_string payload.geohash;
  room_id = as_string payload.room_id;
  place_title = as_string payload.place_title;
  participant_pubkeys = as_string_array payload.participant_pubkeys;
}
