-- ===== src/Data/Threads/Laws.antt =====
-- The threads and tiles of apps/web/src/data.ts group the notes once, and show what a search of all
-- notes for each place would show.
use synchrono_city.Prelude.{
  ◌≡◌, refl, sym, ap, ◌∙◌, ◌++◌, Bool, true, ◌||◌, Option, some, or_else, List, [], ◌∷◌, arith, map,
  if◌then◌else◌, filter, Bool-cases, inl, inr, append_assoc, append-nil, length, head?, any,
  fun_ext, All,
}
use synchrono_city.Prelude.Text.{JsString, ◌===◌, ===_iff, codes}
use synchrono_city.Prelude.Maps.{JsMap, map_get, map_set, map_get-map_set}
use synchrono_city.Prelude.Runtime.{Runtime}
use synchrono_city.Data.Types.{Place, GeoThread, GeoNote, PlaceTile, CallSession}
use synchrono_city.Data.Calls.{
  connected_call, resolve_room_id, get_place_participant_pubkeys, effective_places, is_at,
  create_ephemeral_place,
}
use synchrono_city.Data.Notes.{sort_notes_by_recency, list_notes_for_place}
use synchrono_city.Data.Threads.{
  group_notes, notes_by_geohash, place_notes, build_geo_threads, build_place_tiles, content_or,
  is_nonempty,
}

abbrev at_place : JsString → GeoNote → Bool
at_place g n = n.geohash === g

group_notes_lem :
    (groups : JsMap (List GeoNote)) (notes : List GeoNote) (g : JsString)
    → or_else (map_get g (group_notes groups notes)) []
      ≡ or_else (map_get g groups) [] ++ filter (at_place g) notes
unfolding group_notes
group_notes_lem groups [] g = sym (append-nil (or_else (map_get g groups) []))
group_notes_lem groups (n ∷ notes) g =
    let rest =
      group_notes_lem (map_set n.geohash (or_else (map_get n.geohash groups) [] ++ n ∷ []) groups)
        notes g in
    elim (Bool-cases (n.geohash === g)) [
      | inl same ↦
          let e : n.geohash ≡ g = (===_iff n.geohash g).0 same in
          rest
          ∙ ap (λ (o : Option (List GeoNote)). or_else o [] ++ filter (at_place g) notes)
              (map_get-map_set n.geohash g _ groups)
          ∙ here n e same
      | inr other ↦
          rest
          ∙ ap (λ (o : Option (List GeoNote)). or_else o [] ++ filter (at_place g) notes)
              (map_get-map_set n.geohash g _ groups)
          ∙ simp other
    ]
  where
    here :
        (n : GeoNote)
        → n.geohash ≡ g
        → (n.geohash === g) ≡ true
        → or_else
              (if n.geohash === g
                then some (or_else (map_get n.geohash groups) [] ++ n ∷ [])
                else map_get g groups)
              []
            ++ filter (at_place g) notes
          ≡ or_else (map_get g groups) [] ++ filter (at_place g) (n ∷ notes)
    here n e same =
        simp (same, append_assoc)
          (ap (λ (k : JsString). or_else (map_get k groups) [] ++ n ∷ filter (at_place g) notes) e)

-- The group of a geohash holds the notes there, in the given order.
pub notes_by_geohash_lem :
    (notes : List GeoNote) (g : JsString)
    → or_else (map_get g (notes_by_geohash notes)) [] ≡ filter (λ n. n.geohash === g) notes
unfolding notes_by_geohash
notes_by_geohash_lem notes g = group_notes_lem [] notes g ∙ nothing
  where
    nothing : or_else (map_get g []) [] ++ filter (at_place g) notes ≡ filter (at_place g) notes
    nothing = unfold map_get in refl

module _ (rt : Runtime) where
  pub place_notes_lem :
      (notes : List GeoNote) (place : Place)
      → place_notes rt (notes_by_geohash notes) place ≡ list_notes_for_place rt notes place.geohash
  unfolding place_notes list_notes_for_place
  place_notes_lem notes place =
      ap (sort_notes_by_recency rt) (notes_by_geohash_lem notes place.geohash)

  module _ (notes : List GeoNote) (call : Option CallSession) (current : JsString) where
    -- A thread and a tile of a place, by a search of all notes.
    abbrev pub thread_of : (Place → List GeoNote) → Place → GeoThread
    thread_of found place = record {
      geohash = place.geohash;
      title = place.title;
      summary = place.activity_summary;
      note_count = length (found place);
      participants = get_place_participant_pubkeys place call current;
      unread = place.unread;
      active_call = is_at call place.geohash || is_nonempty place.occupant_pubkeys;
      pinned_note_id = place.pinned_note_id;
      room_id = resolve_room_id place.geohash;
    }

    abbrev pub tile_of : (Place → List GeoNote) → Place → PlaceTile
    tile_of found place = record {
      geohash = place.geohash;
      title = place.title;
      latest_note = content_or rt (head? (found place)) (codes "Room is occupied without a note.");
      note_count = length (found place);
      participants = get_place_participant_pubkeys place call current;
      room_id = resolve_room_id place.geohash;
    }

    abbrev pub searched : Place → List GeoNote
    searched place = list_notes_for_place rt notes place.geohash

  -- The threads and the tiles, which group the notes once, are those that a search of all notes for
  -- each place gives.
  pub build_threads_and_tiles :
      (places : List Place) (notes : List GeoNote) (active_call : Option CallSession)
      (current : JsString)
      → let call = connected_call active_call in
        (build_geo_threads rt places notes active_call current
          ≡ map
              (thread_of notes call current (searched notes call current))
              (effective_places places call))
        × (build_place_tiles rt places notes active_call current
            ≡ map
                (tile_of notes call current (searched notes call current))
                (effective_places places call))
  unfolding build_geo_threads build_place_tiles
  build_threads_and_tiles places notes active_call current =
      let call = connected_call active_call in
      let e = fun_ext (place_notes_lem notes) in
      (
        ap
            (λ (f : Place → List GeoNote).
              map (thread_of notes call current f) (effective_places places call))
            e,
        ap
            (λ (f : Place → List GeoNote).
              map (tile_of notes call current f) (effective_places places call))
            e,
      )

any-here :
    (x : Place) (xs : List Place) (g : JsString)
    → x.geohash ≡ g
    → any (λ p. p.geohash === g) (x ∷ xs) ≡ true
any-here x xs g e = ground (arith, ===_iff x.geohash g)

-- The places that are shown begin with at most one more than the given places, and where a connected
-- call goes on, its geohash is among them.
pub effective_places_lem :
    (places : List Place) (call : CallSession)
    → (any (λ p. p.geohash === call.geohash) (effective_places places (some call)) ≡ true)
      × ((more : List Place) × (effective_places places (some call) ≡ more ++ places)
          × All (λ p. (p.geohash ≡ call.geohash) × (p.occupant_pubkeys ≡ [])) more)
unfolding effective_places
effective_places_lem places call =
    elim (Bool-cases (any (λ p. p.geohash === call.geohash) places)) [
      | inl known ↦ rw known (known, ([], refl, tt))
      | inr new ↦ rw new (
        any-here (create_ephemeral_place call.geohash) places call.geohash refl,
        (create_ephemeral_place call.geohash ∷ [], refl, ((refl, refl), tt)),
      )
    ]
