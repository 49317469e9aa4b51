-- ===== src/LiveKit/Laws.antt =====
-- The audio of a call in apps/web/src/livekit-session.ts.
use synchrono_city.Prelude.{
  ◌≡◌, refl, Bool, true, false, or_else, List, [], ◌∷◌, map, All, All-append, if◌then◌else◌,
  Bool-cases, inl, inr, ℕ,
}
use synchrono_city.Prelude.Text.{JsString, ◌===◌}
use synchrono_city.Prelude.Maps.{JsMap, map_get, map_set, map_delete}
use synchrono_city.LiveKit.{
  AudioElement, LiveKitSession, initial_session, Report, RoomEvent, connection_state_changed,
  participant_connected, track_muted, track_unmuted, participant_disconnected, track_subscribed,
  track_unsubscribed, track_published, track_unpublished, local_track_published,
  local_track_unpublished, active_speakers_changed, participant_permissions_changed,
  cleanup_participant_audio, attach_audio_track, listen, on_room_event, cleanup_all, disconnect,
  set_muted, set_deafen_enabled,
}

-- What happens to a session: an event of the room, or a call.
pub data Action : Type 0 where
  room_event : RoomEvent → Action
  deafen : Bool → Action
  leave : Action

abbrev pub act : Action → LiveKitSession → LiveKitSession
act (room_event event) s = (on_room_event event s).0
act (deafen enabled) s = set_deafen_enabled enabled s
act leave s = (disconnect s).0

abbrev pub act_all : List Action → LiveKitSession → LiveKitSession
act_all [] s = s
act_all (action ∷ actions) s = act_all actions (act action s)

-- Every element is muted or not as told.
abbrev pub AllMuted : Bool → JsMap (List AudioElement) → Type 0
AllMuted b m = All (λ e. All (λ (a : AudioElement). a.muted ≡ b) e.1) m

abbrev pub IsDeafened : LiveKitSession → Type 0
IsDeafened s = AllMuted s.deafen_enabled s.audio_elements

map_delete-AllMuted :
    (b : Bool) (k : JsString) (m : JsMap (List AudioElement))
    → AllMuted b m
    → AllMuted b (map_delete k m)
unfolding map_delete
map_delete-AllMuted b k [] h = tt
map_delete-AllMuted b k ((j, es) ∷ m) (p, h) = elim (Bool-cases (j === k)) [
  | inl same ↦ rw same (map_delete-AllMuted b k m h)
  | inr other ↦ rw other (p, map_delete-AllMuted b k m h)
]

map_set-AllMuted :
    (b : Bool) (k : JsString) (es : List AudioElement) (m : JsMap (List AudioElement))
    → All (λ (a : AudioElement). a.muted ≡ b) es
    → AllMuted b m
    → AllMuted b (map_set k es m)
unfolding map_set
map_set-AllMuted b k es [] p h = (p, tt)
map_set-AllMuted b k es ((j, fs) ∷ m) p (q, h) = elim (Bool-cases (j === k)) [
  | inl same ↦ rw same (p, h)
  | inr other ↦ rw other (q, map_set-AllMuted b k es m p h)
]

map_get-AllMuted :
    (b : Bool) (k : JsString) (m : JsMap (List AudioElement))
    → AllMuted b m
    → All (λ (a : AudioElement). a.muted ≡ b) (or_else (map_get k m) [])
unfolding map_get
map_get-AllMuted b k [] h = tt
map_get-AllMuted b k ((j, es) ∷ m) (p, h) = elim (Bool-cases (j === k)) [
  | inl same ↦ rw same p
  | inr other ↦ rw other (map_get-AllMuted b k m h)
]

set_muted-All :
    (b : Bool) (es : List AudioElement) → All (λ (a : AudioElement). a.muted ≡ b) (set_muted b es)
set_muted-All b [] = tt
set_muted-All b (e ∷ es) = (refl, set_muted-All b es)

set_all-AllMuted :
    (b : Bool) (m : JsMap (List AudioElement)) → AllMuted b (map (λ e. (e.0, set_muted b e.1)) m)
set_all-AllMuted b [] = tt
set_all-AllMuted b ((k, es) ∷ m) = (set_muted-All b es, set_all-AllMuted b m)

cleanup_all-IsDeafened :
    (m : JsMap (List AudioElement)) (s : LiveKitSession)
    → IsDeafened s
    → IsDeafened (cleanup_all m s)
unfolding cleanup_participant_audio
cleanup_all-IsDeafened [] s h = h
cleanup_all-IsDeafened ((k, es) ∷ m) s h =
    cleanup_all-IsDeafened m (cleanup_participant_audio k s)
      (map_delete-AllMuted s.deafen_enabled k s.audio_elements h)

attach-IsDeafened :
    (is_audio : Bool) (object : ℕ) (identity : JsString) (s : LiveKitSession)
    → IsDeafened s
    → IsDeafened (attach_audio_track is_audio object identity s)
unfolding attach_audio_track
attach-IsDeafened false object identity s h = h
attach-IsDeafened true object identity s h =
    map_set-AllMuted s.deafen_enabled identity _ s.audio_elements
      (All-append (λ (a : AudioElement). a.muted ≡ s.deafen_enabled)
        (or_else (map_get identity s.audio_elements) []) _
        (map_get-AllMuted s.deafen_enabled identity s.audio_elements h) (refl, tt))
      h

listen-IsDeafened :
    (event : RoomEvent) (s : LiveKitSession) → IsDeafened s → IsDeafened (listen event s).0
unfolding listen cleanup_participant_audio
listen-IsDeafened (connection_state_changed state) s h = h
listen-IsDeafened participant_connected s h = h
listen-IsDeafened track_muted s h = h
listen-IsDeafened track_unmuted s h = h
listen-IsDeafened (participant_disconnected identity) s h =
    map_delete-AllMuted s.deafen_enabled identity s.audio_elements h
listen-IsDeafened (track_subscribed is_audio object identity) s h =
    attach-IsDeafened is_audio object identity s h
listen-IsDeafened (track_unsubscribed is_audio identity) s h =
    map_delete-AllMuted s.deafen_enabled identity s.audio_elements h
listen-IsDeafened track_published s h = h
listen-IsDeafened track_unpublished s h = h
listen-IsDeafened local_track_published s h = h
listen-IsDeafened local_track_unpublished s h = h
listen-IsDeafened active_speakers_changed s h = h
listen-IsDeafened (participant_permissions_changed is_local) s h = h

if-IsDeafened :
    (b : Bool) (x y : LiveKitSession × List Report)
    → IsDeafened x.0
    → IsDeafened y.0
    → IsDeafened (if b then x else y).0
if-IsDeafened true x y h k = h
if-IsDeafened false x y h k = k

act-IsDeafened : (action : Action) (s : LiveKitSession) → IsDeafened s → IsDeafened (act action s)
unfolding on_room_event disconnect set_deafen_enabled
act-IsDeafened (room_event event) s h =
    if-IsDeafened s.disconnected (s, []) (listen event s) h (listen-IsDeafened event s h)
act-IsDeafened (deafen enabled) s h = set_all-AllMuted enabled s.audio_elements
act-IsDeafened leave s h =
    if-IsDeafened s.disconnected (s, []) _ h
      (cleanup_all-IsDeafened s.audio_elements (record s { disconnected = true }) h)

act_all-IsDeafened :
    (actions : List Action) (s : LiveKitSession) → IsDeafened s → IsDeafened (act_all actions s)
act_all-IsDeafened [] s h = h
act_all-IsDeafened (action ∷ actions) s h =
    act_all-IsDeafened actions (act action s) (act-IsDeafened action s h)

-- After any events of the room and any calls, in any order, every audio element of every participant
-- is muted if the user is deafened and only then: also the elements that were attached later.
pub session-IsDeafened : (actions : List Action) → IsDeafened (act_all actions initial_session)
session-IsDeafened actions = act_all-IsDeafened actions initial_session tt
