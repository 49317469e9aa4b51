-- ===== src/Data/Merge.antt =====
-- apps/web/src/data.ts: cross-relay feed items, and how collections of them are merged.
pub mod Laws
use synchrono_city.Prelude.{
  Bool, true, false, not, ◌&&◌, ◌||◌, Option, none, some, or_else, List, [], ◌∷◌, ◌++◌, map,
  if◌then◌else◌, flatten,
}
use synchrono_city.Prelude.Int.{ℤ}
use synchrono_city.Prelude.Text.{
  JsString, codes, ◌===◌, trim, truthy, or_string, join, includes, add,
}
use synchrono_city.Prelude.Maps.{JsMap, map_get}
use synchrono_city.Prelude.Sort.{sort}
use synchrono_city.Prelude.Runtime.{Runtime}
use synchrono_city.Data.Types.{
  ParticipantProfile, Place, GeoNote, RelayListEntry, CrossRelayFeedItem,
}
use synchrono_city.Data.Timestamps.{compare_descending_timestamps}
use synchrono_city.Data.Notes.{sort_notes_by_recency}
use synchrono_city.Data.Threads.{build_participant_map, build_place_map}

-- The five fields, joined by a NUL character.
unfoldable pub fallback_key : CrossRelayFeedItem → JsString
fallback_key item =
    join (0 ∷ [])
      (item.relay_url ∷ item.author_pubkey ∷ item.geohash ∷ item.published_at ∷ item.content ∷ [])

unfoldable pub normalized_id : CrossRelayFeedItem → JsString
normalized_id item = trim item.id

-- Whether the loop has seen an item: its ID, if it has one, or its fallback key.
unfoldable pub is_seen : List JsString → List JsString → CrossRelayFeedItem → Bool
is_seen seen_ids seen_keys item =
    (truthy (normalized_id item) && includes seen_ids (normalized_id item))
    || includes seen_keys (fallback_key item)

abbrev pub add_id : List JsString → CrossRelayFeedItem → List JsString
add_id seen_ids item =
    if truthy (normalized_id item) then add seen_ids (normalized_id item) else seen_ids

-- The loop over the items of all collections, in order.
unfoldable pub merge_items :
    List JsString → List JsString → List CrossRelayFeedItem → List CrossRelayFeedItem
merge_items seen_ids seen_keys [] = []
merge_items seen_ids seen_keys (item ∷ items) =
    let skipped = merge_items seen_ids seen_keys items in
    let merged = merge_items (add_id seen_ids item) (add seen_keys (fallback_key item)) items in
    if is_seen seen_ids seen_keys item then skipped else item ∷ merged

abbrev pub title_or : Option Place → JsString → JsString
title_or none fallback = fallback
title_or (some place) fallback = place.title

abbrev pub name_or : Option ParticipantProfile → JsString → JsString
name_or none fallback = fallback
name_or (some profile) fallback = profile.display_name

module _ (rt : Runtime) where
  abbrev pub by_publication : CrossRelayFeedItem → CrossRelayFeedItem → ℤ
  by_publication l r = compare_descending_timestamps rt (some l.published_at) (some r.published_at)

  unfoldable pub merge_cross_relay_feed_items :
      List (List CrossRelayFeedItem) → List CrossRelayFeedItem
  merge_cross_relay_feed_items collections =
      sort by_publication (merge_items [] [] (flatten collections))

  unfoldable pub build_cross_relay_feed_items_from_notes :
      RelayListEntry
      → List GeoNote
      → List Place
      → List ParticipantProfile
      → Option JsString
      → Option JsString
      → List CrossRelayFeedItem
  build_cross_relay_feed_items_from_notes relay notes places profiles source_label why_visible =
      let places_by_geohash = build_place_map places in
      let profiles_by_pubkey = build_participant_map profiles in
      map
        (λ note. record {
          id = note.id;
          relay_name = or_string (trim relay.name) (trim relay.url);
          relay_url = trim relay.url;
          author_pubkey = note.author_pubkey;
          author_name = name_or (map_get note.author_pubkey profiles_by_pubkey) note.author_pubkey;
          geohash = note.geohash;
          place_title =
              if note.geohash === codes "pulse-network"
              then codes "Wider network"
              else title_or (map_get note.geohash places_by_geohash) note.geohash;
          content = note.content;
          published_at = note.created_at;
          source_label = or_else source_label (codes "Relay list");
          why_visible = or_else why_visible (codes "Fetched live from a configured relay.");
          zap_count = none;
          engagement_score = none;
          follow_graph_score = none;
          follower_count = none;
        })
        (sort_notes_by_recency rt notes)
