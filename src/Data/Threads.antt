-- ===== src/Data/Threads.antt =====
-- apps/web/src/data.ts: the threads, tiles, syntheses and statistics of places.
pub mod Laws
use synchrono_city.Prelude.{
  ℕ, ◌+◌, ◌-◌, ◌*◌, min, Bool, true, false, not, ◌||◌, Option, none, some, or_else, List, [], ◌∷◌,
  ◌++◌, map, ltb, leb, ◌==◌, if◌then◌else◌, filter, length, head?, take,
}
use synchrono_city.Prelude.Int.{ℤ, pos, pos_part, ◌-ℤ◌}
use synchrono_city.Prelude.Text.{JsString, codes, ◌===◌, trim, truthy, join}
use synchrono_city.Prelude.Maps.{JsMap, map_get, map_set, map_of}
use synchrono_city.Prelude.Sort.{sort}
use synchrono_city.Prelude.Runtime.{Runtime}
use synchrono_city.Data.Types.{
  ParticipantProfile, Place, GeoThread, GeoNote, PlaceTile, CallSession, RelaySynthesis,
}
use synchrono_city.Data.Timestamps.{compare_descending_timestamps}
use synchrono_city.Data.Calls.{
  connected_call, resolve_room_id, get_place_participant_pubkeys, effective_places, is_at,
}
use synchrono_city.Data.Notes.{sort_notes_by_recency, list_notes_for_place}

-- `notesByGeohash`: the loop that pushes each note to the array of its geohash
unfoldable pub group_notes : JsMap (List GeoNote) → List GeoNote → JsMap (List GeoNote)
group_notes groups [] = groups
group_notes groups (n ∷ notes) =
    group_notes (map_set n.geohash (or_else (map_get n.geohash groups) [] ++ n ∷ []) groups) notes

unfoldable pub notes_by_geohash : List GeoNote → JsMap (List GeoNote)
unfolding group_notes
notes_by_geohash notes = group_notes [] notes

abbrev pub is_nonempty {ℓ} : {A : Type ℓ} → List A → Bool
is_nonempty [] = false
is_nonempty (x ∷ xs) = true

unfoldable pub build_participant_map : List ParticipantProfile → JsMap ParticipantProfile
build_participant_map profiles = map_of (map (λ p. (p.pubkey, p)) profiles)

unfoldable pub build_place_map : List Place → JsMap Place
build_place_map places = map_of (map (λ p. (p.geohash, p)) places)

unfoldable pub build_note_map : List GeoNote → JsMap GeoNote
build_note_map notes = map_of (map (λ n. (n.id, n)) notes)

module _ (rt : Runtime) where
  -- the notes of a place, from the groups
  unfoldable pub place_notes : JsMap (List GeoNote) → Place → List GeoNote
  place_notes groups place = sort_notes_by_recency rt (or_else (map_get place.geohash groups) [])

  unfoldable pub build_geo_threads :
      List Place → List GeoNote → Option CallSession → JsString → List GeoThread
  unfolding place_notes
  build_geo_threads places notes active_call current_pubkey =
      let call = connected_call active_call in
      let groups = notes_by_geohash notes in
      map
        (λ place. record {
          geohash = place.geohash;
          title = place.title;
          summary = place.activity_summary;
          note_count = length (place_notes groups place);
          participants = get_place_participant_pubkeys place call current_pubkey;
          unread = place.unread;
          active_call = is_at call place.geohash || is_nonempty place.occupant_pubkeys;
          pinned_note_id = place.pinned_note_id;
          room_id = resolve_room_id place.geohash;
        })
        (effective_places places call)

  abbrev pub content_or : Option GeoNote → JsString → JsString
  content_or none fallback = fallback
  content_or (some note) fallback = note.content

  unfoldable pub build_place_tiles :
      List Place → List GeoNote → Option CallSession → JsString → List PlaceTile
  unfolding place_notes
  build_place_tiles places notes active_call current_pubkey =
      let call = connected_call active_call in
      let groups = notes_by_geohash notes in
      map
        (λ place. record {
          geohash = place.geohash;
          title = place.title;
          latest_note =
              content_or (head? (place_notes groups place))
                (codes "Room is occupied without a note.");
          note_count = length (place_notes groups place);
          participants = get_place_participant_pubkeys place call current_pubkey;
          room_id = resolve_room_id place.geohash;
        })
        (effective_places places call)

  -- `/[.!?]$/`
  ends_sentence : JsString → Bool
  ends_sentence [] = false
  ends_sentence (c ∷ []) = c == b'.' || c == b'!' || c == b'?'
  ends_sentence (c ∷ d ∷ s) = ends_sentence (d ∷ s)

  unfoldable pub ensure_sentence : JsString → JsString
  unfolding ends_sentence
  ensure_sentence text =
      let trimmed = trim text in
      if not (truthy trimmed)
      then []
      else if ends_sentence trimmed
      then trimmed
      else trimmed ++ codes "."

  -- the sentences on the first two notes
  cite : List GeoNote → List JsString
  unfolding ensure_sentence
  cite [] = []
  cite (a ∷ []) = (codes "Latest note: " ++ ensure_sentence a.content) ∷ []
  cite (a ∷ b ∷ _) =
      (codes "Latest note: " ++ ensure_sentence a.content)
      ∷ (codes "Also tracking: " ++ ensure_sentence b.content)
      ∷ []

  synthesize : Place → List GeoNote → Option RelaySynthesis
  unfolding cite
  synthesize place [] = none
  synthesize place (a ∷ notes) =
      if ltb (length (a ∷ notes) + length place.occupant_pubkeys) 3
      then none
      else some (record {
        id = codes "synthesis-" ++ place.geohash;
        geohash = place.geohash;
        place_title = place.title;
        summary =
            join (codes " ")
              (filter truthy (ensure_sentence place.activity_summary ∷ cite (take 2 (a ∷ notes))));
        generated_at = a.created_at;
        source_note_ids = map (λ n. n.id) (take 2 (a ∷ notes));
        participant_pubkeys = place.occupant_pubkeys;
      })

  filter_some : List (Option RelaySynthesis) → List RelaySynthesis
  filter_some [] = []
  filter_some (none ∷ os) = filter_some os
  filter_some (some s ∷ os) = s ∷ filter_some os

  unfoldable pub build_relay_syntheses : List Place → List GeoNote → List RelaySynthesis
  unfolding synthesize filter_some
  build_relay_syntheses places notes =
      sort (λ l r. compare_descending_timestamps rt (some l.generated_at) (some r.generated_at))
        (filter_some (map (λ p. synthesize p (list_notes_for_place rt notes p.geohash)) places))

-- `Math.max(0, place.capacity - place.occupantPubkeys.length)`, summed over the places
unfoldable pub open_seats : List Place → ℕ
open_seats [] = 0
open_seats (p ∷ places) =
    pos_part (p.capacity -ℤ pos (length p.occupant_pubkeys)) + open_seats places

pub record SceneHealthStats : Type 0 where
  pub health_score : ℕ
  pub active_tiles : ℕ
  pub open_seats : ℕ

unfoldable pub get_scene_health_stats : List Place → List GeoNote → SceneHealthStats
get_scene_health_stats places notes = record {
  health_score = 60 + length places * 4 + min 12 (length notes);
  active_tiles = length places;
  open_seats = open_seats places;
}
