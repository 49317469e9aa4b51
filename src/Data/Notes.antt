-- ===== src/Data/Notes.antt =====
-- apps/web/src/data.ts: sorted and filtered lists of notes.
pub mod Laws
use synchrono_city.Prelude.{
  Bool, true, false, not, Option, some, List, [], ◌∷◌, map, if◌then◌else◌, filter,
}
use synchrono_city.Prelude.Text.{JsString, ◌===◌, trim, truthy, includes, dedupe}
use synchrono_city.Prelude.Sort.{sort}
use synchrono_city.Prelude.Int.{ℤ}
use synchrono_city.Prelude.Runtime.{Runtime}
use synchrono_city.Data.Types.{Place, GeoNote}
use synchrono_city.Data.Timestamps.{compare_descending_timestamps, compare_ascending_timestamps}

module _ (rt : Runtime) where
  abbrev pub by_recency : GeoNote → GeoNote → ℤ
  by_recency l r = compare_descending_timestamps rt (some l.created_at) (some r.created_at)

  unfoldable pub sort_notes_by_recency : List GeoNote → List GeoNote
  sort_notes_by_recency notes = sort by_recency notes

  unfoldable pub sort_notes_chronologically : List GeoNote → List GeoNote
  sort_notes_chronologically notes =
      sort (λ l r. compare_ascending_timestamps rt (some l.created_at) (some r.created_at)) notes

  unfoldable pub list_notes_for_place : List GeoNote → JsString → List GeoNote
  list_notes_for_place notes geohash =
      sort_notes_by_recency (filter (λ n. n.geohash === geohash) notes)

  unfoldable pub list_recent_notes : List GeoNote → List GeoNote
  list_recent_notes notes = sort_notes_by_recency notes

  unfoldable pub normalize_geohash_key : JsString → JsString
  normalize_geohash_key geohash = rt.to_lower_case (trim geohash)

  -- the set, as the list of its members
  unfoldable pub build_beacon_geohash_set : List Place → List JsString
  build_beacon_geohash_set places =
      dedupe (filter truthy (map (λ p. normalize_geohash_key p.geohash) places))

  unfoldable pub is_beacon_thread_note : GeoNote → List Place → Bool
  is_beacon_thread_note note places =
      let key = normalize_geohash_key note.geohash in
      if truthy key then includes (build_beacon_geohash_set places) key else false

  unfoldable pub list_pulse_local_notes : List Place → List GeoNote → List GeoNote
  list_pulse_local_notes places notes =
      let beacons = build_beacon_geohash_set places in
      filter (λ n. not (includes beacons (normalize_geohash_key n.geohash)))
        (list_recent_notes notes)

  unfoldable pub list_notes_by_author : List GeoNote → JsString → List GeoNote
  list_notes_by_author notes pubkey =
      sort_notes_by_recency (filter (λ n. n.author_pubkey === pubkey) notes)
