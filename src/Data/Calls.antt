-- ===== src/Data/Calls.antt =====
-- apps/web/src/data.ts: calls, fallback profiles, rooms, ad hoc places and who is at a place.
pub mod Laws
use synchrono_city.Prelude.{
  ℕ, Bool, true, false, not, ◌&&◌, Option, none, some, List, [], ◌∷◌, ◌++◌, if◌then◌else◌, any,
}
use synchrono_city.Prelude.Int.{pos}
use synchrono_city.Prelude.Text.{JsString, codes, ◌===◌, trim, truthy, or_string, add_all}
use synchrono_city.Data.Types.{
  ParticipantProfile, Place, RelayListEntry, CallSession, Transport, livekit, local,
  ConnectionState, connected, local_preview, connecting, failed,
}

abbrev pub is_livekit : Transport → Bool
is_livekit livekit = true
is_livekit local = false

abbrev pub is_connected : ConnectionState → Bool
is_connected connected = true
is_connected _ = false

-- `isConnectedLiveKitCall(activeCall) ? activeCall : null`
unfoldable pub connected_call : Option CallSession → Option CallSession
connected_call none = none
connected_call (some call) =
    if is_livekit call.transport && is_connected call.connection_state then some call else none

unfoldable pub create_fallback_current_user : JsString → ParticipantProfile
create_fallback_current_user pubkey = record {
  pubkey = pubkey;
  display_name = codes "Current session";
  name = some (codes "Current session");
  picture = none;
  role = codes "No relay profile loaded";
  status = codes "This client has not received a participant profile yet.";
  bio = [];
  home_geohash = none;
  mic = false;
  cam = false;
  screenshare = false;
  deafen = false;
}

unfoldable pub create_fallback_participant_profile : JsString → ParticipantProfile
create_fallback_participant_profile pubkey = record {
  pubkey = pubkey;
  display_name = [];
  name = none;
  picture = none;
  role = codes "Participant";
  status = codes "LiveKit participant metadata is unavailable.";
  bio = [];
  home_geohash = none;
  mic = false;
  cam = false;
  screenshare = false;
  deafen = false;
}

-- The operator's key is not used.
unfoldable pub resolve_room_id : JsString → JsString
resolve_room_id geohash = codes "beacon:" ++ geohash

unfoldable pub create_default_relay_list_entry : JsString → JsString → RelayListEntry
create_default_relay_list_entry name url = record {
  url = trim url;
  name = or_string (trim name) (trim url);
  inbox = true;
  outbox = true;
}

unfoldable pub create_ephemeral_place : JsString → Place
create_ephemeral_place geohash = record {
  geohash = geohash;
  title = codes "Field tile " ++ geohash;
  neighborhood = codes "Ad hoc presence";
  description = codes "No operator-defined place exists for this tile yet.";
  activity_summary = codes "Presence was set directly from a map click.";
  created_at = none;
  picture = none;
  owner_pubkey = none;
  member_pubkeys = none;
  tags = codes "ad-hoc" ∷ codes "geohash8" ∷ [];
  capacity = pos 8;
  occupant_pubkeys = [];
  unread = false;
  pinned_note_id = none;
}

unfoldable pub format_place_heading : JsString → JsString → JsString
format_place_heading title geohash =
    let title' = trim title in
    let geohash' = trim geohash in
    if not (truthy title')
    then geohash'
    else if title' === geohash'
    then geohash'
    else if title' === codes "Field tile " ++ geohash'
    then geohash'
    else title' ++ codes " · " ++ geohash'

-- Whether a connected call is at a geohash.
abbrev pub is_at : Option CallSession → JsString → Bool
is_at none geohash = false
is_at (some call) geohash = call.geohash === geohash

abbrev pub callers : Option CallSession → List JsString
callers none = []
callers (some call) = call.participant_pubkeys

unfoldable pub get_place_participant_pubkeys : Place → Option CallSession → JsString → List JsString
unfolding add_all connected_call
get_place_participant_pubkeys place active_call current_pubkey =
    let call = connected_call active_call in
    if is_at call place.geohash
    then add_all (add_all place.occupant_pubkeys (callers call)) (current_pubkey ∷ [])
    else place.occupant_pubkeys

-- The places, and one for the call's geohash where none is known.
unfoldable pub effective_places : List Place → Option CallSession → List Place
unfolding create_ephemeral_place
effective_places places none = places
effective_places places (some call) =
    if any (λ p. p.geohash === call.geohash) places
    then places
    else create_ephemeral_place call.geohash ∷ places
