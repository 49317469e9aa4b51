-- ===== src/AppState/Participants.antt =====
-- apps/web/src/app-state.tsx: participants of a call and their profiles.
use synchrono_city.Prelude.{
  Bool, true, false, not, ◌&&◌, ◌||◌, Option, none, some, or_else, List, [], ◌∷◌, ◌++◌, map, filter,
  find?, any, if◌then◌else◌,
}
use synchrono_city.Prelude.Text.{JsString, codes, ◌===◌, trim, truthy, or_string, dedupe}
use synchrono_city.Prelude.Maps.{JsMap, map_get}
use synchrono_city.Social.Values.{or_undefined}
use synchrono_city.Data.Types.{
  ParticipantProfile, GeoNote, CallSession, CallParticipantState, ConnectionState, connecting,
  connected,
}
use synchrono_city.Data.Calls.{create_fallback_participant_profile}

pub data CallControl : Type 0 where
  mic cam screenshare deafen : CallControl

pub record LocalProfileMetadata : Type 0 where
  pub name : JsString
  pub picture : JsString
  pub about : JsString

abbrev pub is_mic : CallControl → Bool
is_mic mic = true
is_mic _ = false

abbrev pub is_cam : CallControl → Bool
is_cam cam = true
is_cam _ = false

abbrev pub is_screenshare : CallControl → Bool
is_screenshare screenshare = true
is_screenshare _ = false

abbrev pub is_deafen : CallControl → Bool
is_deafen deafen = true
is_deafen _ = false

abbrev pub controlled : CallControl → Bool → CallParticipantState → CallParticipantState
controlled control value participant = record participant {
  mic = if is_mic control then value else participant.mic;
  cam = if is_cam control then value else participant.cam;
  screenshare = if is_screenshare control then value else participant.screenshare;
}

unfoldable pub update_local_participant_control_state :
    CallSession → JsString → CallControl → Bool → List CallParticipantState
update_local_participant_control_state call pubkey control value =
    if is_deafen control
    then call.participant_states
    else if any (λ participant. participant.pubkey === pubkey) call.participant_states
    then map
        (λ participant.
          if participant.pubkey === pubkey
          then controlled control value participant
          else participant)
        call.participant_states
    else call.participant_states
      ++ controlled control value (record {
        pubkey = pubkey;
        mic = call.mic;
        cam = call.cam;
        screenshare = call.screenshare;
        is_speaking = false;
      })
        ∷ []

abbrev pub described : JsString → LocalProfileMetadata → ParticipantProfile → ParticipantProfile
described pubkey metadata profile = record profile {
  pubkey = pubkey;
  display_name = or_string (trim metadata.name) pubkey;
  name = or_undefined (trim metadata.name);
  picture = or_undefined (trim metadata.picture);
  bio = trim metadata.about;
}

-- The first profile of the key is described, `none` if there is none.
unfoldable pub describe_first :
    JsString → LocalProfileMetadata → List ParticipantProfile → Option (List ParticipantProfile)
describe_first pubkey metadata [] = none
describe_first pubkey metadata (profile ∷ profiles) =
    let rest = describe_first pubkey metadata profiles in
    if profile.pubkey === pubkey
    then some (described pubkey metadata profile ∷ profiles)
    else elim rest [ none ↦ none | some described_rest ↦ some (profile ∷ described_rest) ]

-- The entries are in the order of `Object.entries`.
unfoldable pub merge_local_profile_metadata :
    List ParticipantProfile → JsMap LocalProfileMetadata → List ParticipantProfile
unfolding describe_first
merge_local_profile_metadata profiles [] = profiles
merge_local_profile_metadata profiles ((pubkey, metadata) ∷ entries) =
    merge_local_profile_metadata
      (or_else (describe_first pubkey metadata profiles)
        (described pubkey metadata (create_fallback_participant_profile pubkey) ∷ profiles))
      entries

abbrev pub call_pubkeys : Option CallSession → List JsString
call_pubkeys none = []
call_pubkeys (some call) = filter truthy (map trim call.participant_pubkeys)

unfoldable pub collect_profile_metadata_targets : List GeoNote → Option CallSession → List JsString
collect_profile_metadata_targets notes call =
    dedupe (filter truthy (map (λ note. trim note.author_pubkey) notes) ++ call_pubkeys call)

abbrev pub local_name : Option LocalProfileMetadata → JsString
local_name none = []
local_name (some metadata) = trim metadata.name

abbrev pub local_picture : Option LocalProfileMetadata → JsString
local_picture none = []
local_picture (some metadata) = trim metadata.picture

abbrev pub trimmed_text : Option JsString → JsString
trimmed_text none = []
trimmed_text (some s) = trim s

abbrev pub profile_name : JsString → Option ParticipantProfile → JsString
profile_name pubkey none = []
profile_name pubkey (some profile) =
    or_string (trimmed_text profile.name)
      (if trim profile.display_name === pubkey then [] else trim profile.display_name)

abbrev pub profile_picture : Option ParticipantProfile → JsString
profile_picture none = []
profile_picture (some profile) = trimmed_text profile.picture

unfoldable pub should_query_profile_metadata :
    List ParticipantProfile → JsMap LocalProfileMetadata → JsString → Bool
should_query_profile_metadata profiles metadata_by_pubkey pubkey =
    let profile = find? (λ entry. entry.pubkey === pubkey) profiles in
    let local = map_get pubkey metadata_by_pubkey in
    not (truthy (or_string (local_name local) (profile_name pubkey profile)))
    || not (truthy (or_string (local_picture local) (profile_picture profile)))

abbrev pub is_false : Option Bool → Bool
is_false none = false
is_false (some b) = not b

abbrev pub is_true : Option Bool → Bool
is_true none = false
is_true (some b) = b

unfoldable pub resolve_live_kit_status_message :
    ConnectionState → Option Bool → JsString → Option Bool → JsString
resolve_live_kit_status_message connected can_publish fallback previous =
    if is_false can_publish
    then codes "Connected in listen-only mode. The host can promote you live."
    else if is_false previous && is_true can_publish
    then codes "Live publish controls enabled."
    else fallback
resolve_live_kit_status_message connecting can_publish fallback previous =
    if is_false can_publish then codes "Connecting to LiveKit room as a listener." else fallback
resolve_live_kit_status_message _ can_publish fallback previous = fallback
