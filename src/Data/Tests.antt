-- ===== src/Data/Tests.antt =====
-- The theorems on apps/web/src/data.ts at concrete inputs.
use mathlib.Core.List.{Perm}
use synchrono_city.Prelude.{
  ◌≡◌, ◌≤◌, refl, true, false, none, some, List, [], ◌∷◌, ◌++◌, map, All, any, count, flatten,
  length,
}
use synchrono_city.Prelude.Int.{pos, ◌-ℤ◌}
use synchrono_city.Prelude.Text.{JsString, codes, ◌===◌}
use synchrono_city.Prelude.Sort.{sort, IsSorted}
use synchrono_city.Prelude.Sample.{sample_runtime, sample-HasLocaleOrder}
use synchrono_city.Data.Types.{
  Place, GeoNote, CallSession, CrossRelayFeedItem, PulseFeedItem, livekit, connected, following,
  for_you,
}
use synchrono_city.Data.Timestamps.{compare_descending_timestamps}
use synchrono_city.Data.Notes.{sort_notes_by_recency}
use synchrono_city.Data.Calls.{connected_call, create_ephemeral_place, effective_places}
use synchrono_city.Data.Threads.{build_geo_threads, build_place_tiles}
use synchrono_city.Data.Threads.Laws.{build_threads_and_tiles, thread_of, tile_of, searched}
use synchrono_city.Data.Merge.{merge_cross_relay_feed_items, by_publication}
use synchrono_city.Data.Merge.Laws.{is_same, IsMerged, merge_cross_relay_feed_items_lem}
use synchrono_city.Data.Pulse.{
  TaggedItem, in_lane, build_pulse_feed_groups, rank_pulse_feed_groups, publish,
}
use synchrono_city.Data.Pulse.Laws.{
  IsGrouped, build_pulse_feed_groups_lem, rank_pulse_feed_groups_lem, publish_lem, total_posts,
}

abbrev note_at : JsString → JsString → JsString → GeoNote
note_at id geohash time = record {
  id = id;
  geohash = geohash;
  author_pubkey = codes "npub1scout";
  content = id;
  created_at = time;
  replies = pos 0;
  reply_target_id = none;
  root_note_id = none;
  tagged_pubkeys = none;
  reactions = none;
}

abbrev notes : List GeoNote
notes =
    note_at (codes "a") (codes "9q8y") (codes "100")
    ∷ note_at (codes "b") (codes "gbsu") (codes "later")
    ∷ note_at (codes "c") (codes " 9Q8Y") (codes "300")
    ∷ note_at (codes "d") (codes "gbsu") (codes "100")
    ∷ []

abbrev places : List Place
places = record (create_ephemeral_place (codes "9q8y")) { occupant_pubkeys = codes "x" ∷ [] } ∷ []

abbrev call : CallSession
call = record {
  geohash = codes "gbsu";
  room_id = codes "gbsu";
  place_title = codes "gbsu";
  started_at = none;
  participant_pubkeys = codes "y" ∷ codes "z" ∷ [];
  participant_states = [];
  media_streams = [];
  transport = livekit;
  connection_state = connected;
  status_message = [];
  identity = none;
  live_kit_url = none;
  expires_at = none;
  can_publish = none;
  can_subscribe = none;
  mic = true;
  cam = false;
  screenshare = false;
  deafen = false;
  minimized = false;
}

recent_ids :
    map (λ (n : GeoNote). n.id) (sort_notes_by_recency sample_runtime notes)
    ≡ codes "c" ∷ codes "a" ∷ codes "d" ∷ codes "b" ∷ []
unfolding sort_notes_by_recency compare_descending_timestamps sample_runtime sort ◌-ℤ◌
recent_ids = refl

abbrev call_place : Place
call_place = record (create_ephemeral_place (codes "gbsu")) {
  occupant_pubkeys = codes "x" ∷ codes "y" ∷ [];
}

build_threads_and_tiles_example :
    (build_geo_threads sample_runtime places notes (some call) (codes "me")
      ≡ map
          (thread_of sample_runtime notes
            (connected_call (some call))
            (codes "me")
            (searched sample_runtime notes (connected_call (some call)) (codes "me")))
          (effective_places places (connected_call (some call))))
    × (build_place_tiles sample_runtime places notes (some call) (codes "me")
        ≡ map
            (tile_of sample_runtime notes
              (connected_call (some call))
              (codes "me")
              (searched sample_runtime notes (connected_call (some call)) (codes "me")))
            (effective_places places (connected_call (some call))))
build_threads_and_tiles_example =
    build_threads_and_tiles sample_runtime places notes (some call) (codes "me")

abbrev item_at : JsString → JsString → CrossRelayFeedItem
item_at id time = record {
  id = id;
  relay_name = codes "relay";
  relay_url = codes "wss://relay";
  author_pubkey = codes "npub1scout";
  author_name = codes "Scout";
  geohash = codes "gbsu";
  place_title = codes "gbsu";
  content = codes "hello";
  published_at = time;
  source_label = codes "Relay list";
  why_visible = [];
  zap_count = some (pos 2);
  engagement_score = none;
  follow_graph_score = none;
  follower_count = none;
}

-- The second and third count as the first, by the fallback key and by the ID.
abbrev collections : List (List CrossRelayFeedItem)
collections =
    (item_at (codes "a") (codes "100") ∷ item_at (codes "b") (codes "100") ∷ [])
    ∷ (item_at (codes " a") (codes "200") ∷ item_at [] (codes "300") ∷ [])
    ∷ []

merge_cross_relay_feed_items_example :
    ((kept : List CrossRelayFeedItem) × Perm
        (merge_cross_relay_feed_items sample_runtime collections)
        kept
      × IsMerged kept
      × All (λ y. any (λ x. is_same x y) kept ≡ true) (flatten collections))
    × (count
          (λ (i : CrossRelayFeedItem). i.id === [])
          (merge_cross_relay_feed_items sample_runtime collections)
        ≤ count (λ (i : CrossRelayFeedItem). i.id === []) (flatten collections))
    × IsSorted
        (by_publication sample_runtime)
        (merge_cross_relay_feed_items sample_runtime collections)
merge_cross_relay_feed_items_example =
    merge_cross_relay_feed_items_lem sample_runtime sample-HasLocaleOrder collections
      (λ (i : CrossRelayFeedItem). i.id === [])

abbrev tagged : List TaggedItem
tagged =
    record { item = item_at (codes "a") (codes "9000000"); lane = following }
    ∷ record { item = item_at (codes "b") (codes "8000000"); lane = following }
    ∷ record { item = item_at (codes "c") (codes "6000000"); lane = following }
    ∷ record { item = item_at (codes "d") (codes "5000000"); lane = for_you }
    ∷ []

build_pulse_feed_groups_example :
    (flatten (build_pulse_feed_groups sample_runtime tagged) ≡ tagged)
    × IsGrouped sample_runtime none (build_pulse_feed_groups sample_runtime tagged)
build_pulse_feed_groups_example = build_pulse_feed_groups_lem sample_runtime tagged

abbrev groups : List (List TaggedItem)
groups = map (λ t. t ∷ []) tagged

rank_pulse_feed_groups_example :
    Perm (rank_pulse_feed_groups sample_runtime groups) groups
    × ((first then_ : List (List TaggedItem)) × (rank_pulse_feed_groups sample_runtime groups
          ≡ first ++ then_)
        × All (λ g. in_lane for_you g ≡ true) first
        × All (λ g. in_lane following g ≡ true) then_)
rank_pulse_feed_groups_example =
    rank_pulse_feed_groups_lem sample_runtime groups
      ((_, _, refl), ((_, _, refl), ((_, _, refl), ((_, _, refl), tt))))

publish_example :
    (out : List PulseFeedItem) × (publish sample_runtime tagged ≡ some out)
    × (total_posts out ≡ length tagged)
publish_example = publish_lem sample_runtime tagged
