-- ===== src/LiveKit.antt =====
-- apps/web/src/livekit-session.ts: the audio of a call's participants, what is reported of the call,
-- and its video streams. The room is livekit-client's; what is read of it is an argument.
pub mod Laws
pub mod Objects
pub mod Hearing
mod Tests
use synchrono_city.Prelude.{
  ℕ, Bool, true, false, not, ◌&&◌, ◌||◌, Option, none, some, or_else, List, [], ◌∷◌, ◌++◌, map,
  flatten, if◌then◌else◌,
}
use synchrono_city.Prelude.Int.{ℤ, pos, negsuc}
use synchrono_city.Prelude.Text.{JsString, codes}
use synchrono_city.Prelude.Sort.{sort}
use synchrono_city.Prelude.Maps.{JsMap, map_get, map_set, map_delete}
use synchrono_city.Prelude.Runtime.{Runtime}

-- A media element in the container: the object's identity, and `muted`.
pub record AudioElement : Type 0 where
  pub object : ℕ
  pub muted : Bool

pub record LiveKitSession : Type 0 where
  pub audio_elements : JsMap (List AudioElement)
  pub deafen_enabled : Bool
  pub disconnected : Bool

pub data ConnectionState : Type 0 where
  state_connecting state_connected state_reconnecting state_signal_reconnecting state_disconnected :
      ConnectionState

pub data ConnectionStatus : Type 0 where
  connecting connected reconnecting disconnected_status : ConnectionStatus

-- What the callbacks are called with; what they read of the room is not repeated here.
pub data Report : Type 0 where
  participants media_streams permissions leave_room : Report
  connection_status : ConnectionStatus → JsString → Report

pub data RoomEvent : Type 0 where
  connection_state_changed : ConnectionState → RoomEvent
  participant_connected track_muted track_unmuted : RoomEvent
  participant_disconnected : JsString → RoomEvent
  -- whether the track is audio, the element that `attach` makes, and the participant
  track_subscribed : Bool → ℕ → JsString → RoomEvent
  track_unsubscribed : Bool → JsString → RoomEvent
  track_published track_unpublished local_track_published local_track_unpublished : RoomEvent
  active_speakers_changed : RoomEvent
  -- whether the participant is the local one
  participant_permissions_changed : Bool → RoomEvent

abbrev pub initial_session : LiveKitSession
initial_session = record { audio_elements = []; deafen_enabled = false; disconnected = false }

unfoldable pub cleanup_participant_audio : JsString → LiveKitSession → LiveKitSession
cleanup_participant_audio identity s = record s {
  audio_elements = map_delete identity s.audio_elements;
}

unfoldable pub attach_audio_track : Bool → ℕ → JsString → LiveKitSession → LiveKitSession
attach_audio_track false object identity s = s
attach_audio_track true object identity s = record s {
  audio_elements =
      map_set identity
        (or_else (map_get identity s.audio_elements) []
          ++ record { object = object; muted = s.deafen_enabled } ∷ [])
        s.audio_elements;
}

abbrev pub status_of : ConnectionState → ConnectionStatus
status_of state_connected = connected
status_of state_reconnecting = reconnecting
status_of state_signal_reconnecting = reconnecting
status_of state_disconnected = disconnected_status
status_of state_connecting = connecting

abbrev pub message_of : ConnectionStatus → JsString
message_of connected = codes "LiveKit room connected."
message_of reconnecting = codes "Reconnecting to LiveKit room."
message_of disconnected_status = codes "LiveKit room disconnected."
message_of connecting = codes "Connecting to LiveKit room."

unfoldable pub handle_connection_state : ConnectionState → List Report
handle_connection_state state =
    connection_status (status_of state) (message_of (status_of state)) ∷ []

abbrev pub emit_room_state : List Report
emit_room_state = participants ∷ media_streams ∷ []

-- The listeners of the room.
unfoldable pub listen : RoomEvent → LiveKitSession → LiveKitSession × List Report
unfolding cleanup_participant_audio attach_audio_track handle_connection_state
listen (connection_state_changed state) s = (s, handle_connection_state state)
listen participant_connected s = (s, emit_room_state)
listen (participant_disconnected identity) s =
    (cleanup_participant_audio identity s, emit_room_state)
listen (track_subscribed is_audio object identity) s =
    (attach_audio_track is_audio object identity s, emit_room_state)
listen (track_unsubscribed is_audio identity) s =
    (cleanup_participant_audio identity s, emit_room_state)
listen track_muted s = (s, emit_room_state)
listen track_unmuted s = (s, emit_room_state)
listen track_published s = (s, media_streams ∷ [])
listen track_unpublished s = (s, media_streams ∷ [])
listen local_track_published s = (s, media_streams ∷ [])
listen local_track_unpublished s = (s, media_streams ∷ [])
listen active_speakers_changed s = (s, participants ∷ [])
listen (participant_permissions_changed is_local) s = (s, if is_local then permissions ∷ [] else [])

-- After `removeAllListeners` no event is heard.
unfoldable pub on_room_event : RoomEvent → LiveKitSession → LiveKitSession × List Report
unfolding listen
on_room_event event s = if s.disconnected then (s, []) else listen event s

abbrev pub cleanup_all : JsMap (List AudioElement) → LiveKitSession → LiveKitSession
cleanup_all [] s = s
cleanup_all ((identity, elements) ∷ m) s = cleanup_all m (cleanup_participant_audio identity s)

unfoldable pub disconnect : LiveKitSession → LiveKitSession × List Report
unfolding cleanup_participant_audio
disconnect s =
    if s.disconnected
    then (s, [])
    else (cleanup_all s.audio_elements (record s { disconnected = true }), leave_room ∷ [])

abbrev pub set_muted : Bool → List AudioElement → List AudioElement
set_muted enabled elements = map (λ (e : AudioElement). record e { muted = enabled }) elements

unfoldable pub set_deafen_enabled : Bool → LiveKitSession → LiveKitSession
set_deafen_enabled enabled s = record s {
  deafen_enabled = enabled;
  audio_elements = map (λ e. (e.0, set_muted enabled e.1)) s.audio_elements;
}

pub data StreamSource : Type 0 where
  screen_share camera : StreamSource

pub record TrackPublication : Type 0 where
  pub source : StreamSource
  pub video_track : Option ℕ
  pub is_muted : Bool

-- What is read of a participant of the room.
pub record RoomParticipant : Type 0 where
  pub identity : JsString
  pub is_local : Bool
  pub screen_share_publication : Option TrackPublication
  pub camera_publication : Option TrackPublication

pub record MediaStreamState : Type 0 where
  pub id : JsString
  pub participant_identity : JsString
  pub source : StreamSource
  pub is_local : Bool
  pub track : ℕ

abbrev pub source_name : StreamSource → JsString
source_name screen_share = codes "screen_share"
source_name camera = codes "camera"

abbrev pub stream_of : RoomParticipant → TrackPublication → Option ℕ → List MediaStreamState
stream_of participant publication none = []
stream_of participant publication (some track) =
    if publication.is_muted
    then []
    else record {
      id = participant.identity ++ codes ":" ++ source_name publication.source;
      participant_identity = participant.identity;
      source = publication.source;
      is_local = participant.is_local;
      track = track;
    }
      ∷ []

abbrev pub streams_of : RoomParticipant → Option TrackPublication → List MediaStreamState
streams_of participant none = []
streams_of participant (some publication) =
    stream_of participant publication publication.video_track

-- A boolean that counts first: -1 if only the left one has it, 1 if only the right one.
abbrev pub first_if : Bool → Bool → ℤ → ℤ
first_if true false rest = negsuc 0
first_if false true rest = pos 1
first_if _ _ rest = rest

abbrev pub is_screen : StreamSource → Bool
is_screen screen_share = true
is_screen camera = false

module _ (rt : Runtime) where
  unfoldable pub sort_streams : MediaStreamState → MediaStreamState → ℤ
  sort_streams left right = first_if (is_screen left.source) (is_screen right.source) (
      first_if left.is_local right.is_local
        (rt.locale_compare left.participant_identity right.participant_identity))

  abbrev pub participant_streams : RoomParticipant → List MediaStreamState
  participant_streams participant = sort sort_streams (
      streams_of participant participant.screen_share_publication
      ++ streams_of participant participant.camera_publication)

  -- The local participant comes first.
  unfoldable pub collect_media_streams : List RoomParticipant → List MediaStreamState
  unfolding sort_streams
  collect_media_streams members = sort sort_streams (flatten (map participant_streams members))
