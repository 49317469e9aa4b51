-- ===== src/LiveKit/Hearing.antt =====
-- Who is heard in a call of apps/web/src/livekit-session.ts.
use synchrono_city.Prelude.{
  ℕ, ◌≡◌, refl, sym, ap, ◌∙◌, Bool, true, false, ◌||◌, Option, none, or_else, List, [], ◌∷◌, ◌++◌,
  append-nil, append_assoc, map, any, arith, if◌then◌else◌, Bool-cases, inl, inr,
}
use synchrono_city.Prelude.Text.{JsString, ◌===◌}
use synchrono_city.Prelude.Maps.{JsMap, map_get, map_get-map_delete}
use synchrono_city.LiveKit.{
  AudioElement, LiveKitSession, initial_session, Report, RoomEvent, connection_state_changed,
  participant_connected, track_muted, track_unmuted, participant_disconnected, track_subscribed,
  track_unsubscribed, track_published, track_unpublished, local_track_published,
  local_track_unpublished, active_speakers_changed, participant_permissions_changed,
  cleanup_participant_audio, attach_audio_track, listen, on_room_event, cleanup_all, disconnect,
  set_deafen_enabled,
}
use synchrono_city.LiveKit.Objects.{objects_in-deafen, objects_in-map_delete, objects_in-map_set}
use synchrono_city.LiveKit.Laws.{Action, room_event, deafen, leave, act, act_all}

-- The audio elements of a participant, in the order in which they were attached.
abbrev pub objects_of : JsString → LiveKitSession → List ℕ
objects_of k s = map (λ e. e.object) (or_else (map_get k s.audio_elements) [])

abbrev pub is_leave : Action → Bool
is_leave leave = true
is_leave _ = false

-- What ends a participant's audio: that the participant goes, or that any of the participant's tracks
-- is unsubscribed, audio or not.
abbrev pub silences : JsString → Action → Bool
silences k (room_event (participant_disconnected identity)) = identity === k
silences k (room_event (track_unsubscribed is_audio identity)) = identity === k
silences k _ = false

-- The element that is attached for a participant's audio track.
abbrev pub attached : JsString → Action → List ℕ
attached k (room_event (track_subscribed true object identity)) =
    if identity === k then object ∷ [] else []
attached k _ = []

-- The elements that were attached for a participant after the last action that ended its audio.
abbrev pub attached_since : JsString → List Action → List ℕ
attached_since k [] = []
attached_since k (action ∷ actions) =
    let rest = attached_since k actions in
    if any (silences k) actions then rest else attached k action ++ rest

-- What a test decides that is known.
if_false :
    (P : LiveKitSession → Type 0) (b : Bool) (x y : LiveKitSession × List Report)
    → b ≡ false
    → P y.0
    → P (if b then x else y).0
if_false P true x y e h = cc
if_false P false x y e h = h

if_true :
    (P : LiveKitSession → Type 0) (b : Bool) (x y : LiveKitSession × List Report)
    → b ≡ true
    → P x.0
    → P (if b then x else y).0
if_true P true x y e h = h
if_true P false x y e h = cc

-- What one event does to a participant's elements.
module _ (k : JsString) where
  abbrev After : Action → LiveKitSession → LiveKitSession → Type 0
  After action s t =
      (objects_of k t ≡ (if silences k action then [] else objects_of k s) ++ attached k action)
      × (t.disconnected ≡ s.disconnected)

  same : (s : LiveKitSession) → objects_of k s ≡ objects_of k s ++ []
  same s = sym (append-nil (objects_of k s))

  listen-After :
      (event : RoomEvent) (s : LiveKitSession) → After (room_event event) s (listen event s).0
  unfolding listen cleanup_participant_audio attach_audio_track
  listen-After (connection_state_changed state) s = (same s, refl)
  listen-After participant_connected s = (same s, refl)
  listen-After track_muted s = (same s, refl)
  listen-After track_unmuted s = (same s, refl)
  listen-After (participant_disconnected identity) s =
      (objects_in-map_delete k identity s.audio_elements, refl)
  listen-After (track_subscribed true object identity) s = (
    objects_in-map_set k identity (record { object = object; muted = s.deafen_enabled })
        s.audio_elements,
    refl,
  )
  listen-After (track_subscribed false object identity) s = (same s, refl)
  listen-After (track_unsubscribed is_audio identity) s =
      (objects_in-map_delete k identity s.audio_elements, refl)
  listen-After track_published s = (same s, refl)
  listen-After track_unpublished s = (same s, refl)
  listen-After local_track_published s = (same s, refl)
  listen-After local_track_unpublished s = (same s, refl)
  listen-After active_speakers_changed s = (same s, refl)
  listen-After (participant_permissions_changed is_local) s = (same s, refl)

  act-After :
      (action : Action) (s : LiveKitSession)
      → s.disconnected ≡ false
      → is_leave action ≡ false
      → After action s (act action s)
  unfolding on_room_event set_deafen_enabled
  act-After (room_event event) s on stays =
      if_false (After (room_event event) s) s.disconnected (s, []) (listen event s) on
        (listen-After event s)
  act-After (deafen enabled) s on stays =
      (objects_in-deafen k enabled s.audio_elements ∙ same s, refl)
  act-After leave s on stays = cc

  step :
      (a b : Bool) (old now new rest : List ℕ)
      → now ≡ (if a then [] else old) ++ new
      → (if b then [] else now) ++ rest
        ≡ (if a || b then [] else old) ++ (if b then rest else new ++ rest)
  step true true old now new rest h = refl
  step false true old now new rest h = refl
  step true false old now new rest h = ap (λ (xs : List ℕ). xs ++ rest) h
  step false false old now new rest h =
      ap (λ (xs : List ℕ). xs ++ rest) h ∙ append_assoc old new rest

  -- As long as nobody leaves, the elements are those from before, unless they are taken away, and
  -- those that were attached since.
  act_all-objects :
      (actions : List Action) (s : LiveKitSession)
      → s.disconnected ≡ false
      → any is_leave actions ≡ false
      → objects_of k (act_all actions s)
        ≡ (if any (silences k) actions then [] else objects_of k s) ++ attached_since k actions
  act_all-objects [] s on stays = same s
  act_all-objects (action ∷ actions) s on stays =
      let (now, still) = act-After action s on (ground (arith, stays)) in
      act_all-objects actions (act action s) (still ∙ on) (ground (arith, stays))
      ∙ step (silences k action) (any (silences k) actions) (objects_of k s)
          (objects_of k (act action s)) (attached k action) (attached_since k actions) now

  cleanup_all-gone :
      (m : JsMap (List AudioElement)) (s : LiveKitSession)
      → (map_get k m ≡ none → map_get k s.audio_elements ≡ none)
      → map_get k (cleanup_all m s).audio_elements ≡ none
  unfolding cleanup_participant_audio map_get
  cleanup_all-gone [] s h = h refl
  cleanup_all-gone ((j, es) ∷ m) s h = cleanup_all-gone m (cleanup_participant_audio j s) (λ e.
      elim (Bool-cases (j === k)) [
        | inl here ↦ rw (map_get-map_delete j k s.audio_elements, here) refl
        | inr other ↦ rw (map_get-map_delete j k s.audio_elements, other) (h (rw other e))
      ])

  cleanup_all-disconnected :
      (m : JsMap (List AudioElement)) (s : LiveKitSession)
      → (cleanup_all m s).disconnected ≡ s.disconnected
  unfolding cleanup_participant_audio
  cleanup_all-disconnected [] s = refl
  cleanup_all-disconnected ((j, es) ∷ m) s =
      cleanup_all-disconnected m (cleanup_participant_audio j s)

  -- disconnected, and without an element of the participant
  abbrev IsGone : LiveKitSession → Type 0
  IsGone s = (s.disconnected ≡ true) × (objects_of k s ≡ [])

  leave-IsGone : (s : LiveKitSession) → s.disconnected ≡ false → IsGone (act leave s)
  unfolding disconnect
  leave-IsGone s on =
      if_false IsGone s.disconnected (s, []) _ on
        (
          cleanup_all-disconnected s.audio_elements (record s { disconnected = true }),
          ap
              (λ (o : Option (List AudioElement)).
                map (λ (e : AudioElement). e.object) (or_else o []))
              (cleanup_all-gone s.audio_elements (record s { disconnected = true }) (λ e. e)),
        )

  act-IsGone : (action : Action) (s : LiveKitSession) → IsGone s → IsGone (act action s)
  unfolding on_room_event set_deafen_enabled disconnect
  act-IsGone (room_event event) s h = if_true IsGone s.disconnected (s, []) (listen event s) h.0 h
  act-IsGone (deafen enabled) s (off, silent) =
      (off, objects_in-deafen k enabled s.audio_elements ∙ silent)
  act-IsGone leave s h = if_true IsGone s.disconnected (s, []) _ h.0 h

  act_all-IsGone :
      (actions : List Action) (s : LiveKitSession) → IsGone s → IsGone (act_all actions s)
  act_all-IsGone [] s h = h
  act_all-IsGone (action ∷ actions) s h =
      act_all-IsGone actions (act action s) (act-IsGone action s h)

  act_all-left :
      (actions : List Action) (s : LiveKitSession)
      → s.disconnected ≡ false
      → any is_leave actions ≡ true
      → IsGone (act_all actions s)
  act_all-left [] s on left = cc
  act_all-left (leave ∷ actions) s on left =
      act_all-IsGone actions (act leave s) (leave-IsGone s on)
  act_all-left (room_event event ∷ actions) s on left =
      act_all-left actions (act (room_event event) s)
        ((act-After (room_event event) s on refl).1 ∙ on) left
  act_all-left (deafen enabled ∷ actions) s on left =
      act_all-left actions (act (deafen enabled) s) ((act-After (deafen enabled) s on refl).1 ∙ on)
        left

  nothing : (b : Bool) → ◌≡◌ {A = List ℕ} (if b then [] else []) []
  nothing true = refl
  nothing false = refl

  -- After any events of the room and any calls, in any order, the audio elements of a participant are,
  -- in their order, those of its audio tracks that were subscribed to since the last time that the
  -- participant went or any of its tracks, audio or not, was unsubscribed; and there are none once the
  -- user has left, whatever events come later.
  pub session-objects :
      (actions : List Action)
      → objects_of k (act_all actions initial_session)
        ≡ (if any is_leave actions then [] else attached_since k actions)
  unfolding map_get
  session-objects actions = elim (Bool-cases (any is_leave actions)) [
    | inl left ↦ rw left ((act_all-left actions initial_session refl left).1)
    | inr stays ↦ rw stays (
        act_all-objects actions initial_session refl stays
        ∙ ap (λ (xs : List ℕ). xs ++ attached_since k actions) (nothing (any (silences k) actions)))
  ]
