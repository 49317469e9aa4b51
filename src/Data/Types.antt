-- ===== src/Data/Types.antt =====
-- apps/web/src/data.ts, the types. An optional property is an `Option`, a number is an integer, and
-- a media track is the identity of the object that LiveKit made.
use synchrono_city.Prelude.{ℕ, Bool, Option, List}
use synchrono_city.Prelude.Int.{ℤ}
use synchrono_city.Prelude.Text.{JsString}

pub record ParticipantProfile : Type 0 where
  pub pubkey : JsString
  pub display_name : JsString
  pub name : Option JsString
  pub picture : Option JsString
  pub role : JsString
  pub status : JsString
  pub bio : JsString
  pub home_geohash : Option JsString
  pub mic : Bool
  pub cam : Bool
  pub screenshare : Bool
  pub deafen : Bool

pub record Place : Type 0 where
  pub geohash : JsString
  pub title : JsString
  pub neighborhood : JsString
  pub description : JsString
  pub activity_summary : JsString
  pub created_at : Option JsString
  pub picture : Option JsString
  pub owner_pubkey : Option JsString
  pub member_pubkeys : Option (List JsString)
  pub tags : List JsString
  pub capacity : ℤ
  pub occupant_pubkeys : List JsString
  pub unread : Bool
  pub pinned_note_id : Option JsString

pub record GeoThread : Type 0 where
  pub geohash : JsString
  pub title : JsString
  pub summary : JsString
  pub note_count : ℕ
  pub participants : List JsString
  pub unread : Bool
  pub active_call : Bool
  pub pinned_note_id : Option JsString
  pub room_id : JsString

pub record GeoNoteReaction : Type 0 where
  pub emoji : JsString
  pub count : ℤ

pub record GeoNote : Type 0 where
  pub id : JsString
  pub geohash : JsString
  pub author_pubkey : JsString
  pub content : JsString
  pub created_at : JsString
  pub replies : ℤ
  pub reply_target_id : Option JsString
  pub root_note_id : Option JsString
  pub tagged_pubkeys : Option (List JsString)
  pub reactions : Option (List GeoNoteReaction)

pub record RelayListEntry : Type 0 where
  pub url : JsString
  pub name : JsString
  pub inbox : Bool
  pub outbox : Bool

pub record CrossRelayFeedItem : Type 0 where
  pub id : JsString
  pub relay_name : JsString
  pub relay_url : JsString
  pub author_pubkey : JsString
  pub author_name : JsString
  pub geohash : JsString
  pub place_title : JsString
  pub content : JsString
  pub published_at : JsString
  pub source_label : JsString
  pub why_visible : JsString
  pub zap_count : Option ℤ
  pub engagement_score : Option ℤ
  pub follow_graph_score : Option ℤ
  pub follower_count : Option ℤ

pub data Lane : Type 0 where
  following for_you : Lane

pub record PulsePost : Type 0 where
  pub id : JsString
  pub content : JsString
  pub published_at : JsString

pub record PulseFeedItem : Type 0 where
  pub id : JsString
  pub lane : Lane
  pub relay_name : JsString
  pub relay_url : JsString
  pub author_pubkey : JsString
  pub author_name : JsString
  pub geohash : JsString
  pub place_title : JsString
  pub content : JsString
  pub published_at : JsString
  pub source_label : JsString
  pub why_visible : JsString
  pub post_count : ℕ
  pub posts : List PulsePost

pub record RelaySynthesis : Type 0 where
  pub id : JsString
  pub geohash : JsString
  pub place_title : JsString
  pub summary : JsString
  pub generated_at : JsString
  pub source_note_ids : List JsString
  pub participant_pubkeys : List JsString

pub record PlaceTile : Type 0 where
  pub geohash : JsString
  pub title : JsString
  pub latest_note : JsString
  pub note_count : ℕ
  pub participants : List JsString
  pub room_id : JsString

pub data MediaSource : Type 0 where
  camera screen_share : MediaSource

pub record CallMediaStream : Type 0 where
  pub id : JsString
  pub pubkey : JsString
  pub source : MediaSource
  pub is_local : Bool
  pub track : ℕ

pub record CallParticipantState : Type 0 where
  pub pubkey : JsString
  pub mic : Bool
  pub cam : Bool
  pub screenshare : Bool
  pub is_speaking : Bool

pub data Transport : Type 0 where
  local livekit : Transport

pub data ConnectionState : Type 0 where
  local_preview connecting connected failed : ConnectionState

pub record CallSession : Type 0 where
  pub geohash : JsString
  pub room_id : JsString
  pub place_title : JsString
  pub started_at : Option JsString
  pub participant_pubkeys : List JsString
  pub participant_states : List CallParticipantState
  pub media_streams : List CallMediaStream
  pub transport : Transport
  pub connection_state : ConnectionState
  pub status_message : JsString
  pub identity : Option JsString
  pub live_kit_url : Option JsString
  pub expires_at : Option JsString
  pub can_publish : Option Bool
  pub can_subscribe : Option Bool
  pub mic : Bool
  pub cam : Bool
  pub screenshare : Bool
  pub deafen : Bool
  pub minimized : Bool
