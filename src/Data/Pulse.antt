-- ===== src/Data/Pulse.antt =====
-- apps/web/src/data.ts: the remote pulse feed. Items are tagged with a lane, runs of posts of one
-- author are joined to groups, and groups are ranked page by page.
pub mod Laws
use synchrono_city.Prelude.{
  ◌>>=◌, suc, zero, ℕ, Bool, true, false, ◌&&◌, Option, none, some, or_else, List, [], ◌∷◌, ◌++◌,
  map, filter, take, drop, length, leb, head?, flatten, if◌then◌else◌,
}
use synchrono_city.Prelude.Int.{ℤ, pos, ◌+ℤ◌, ◌-ℤ◌, abs}
use synchrono_city.Prelude.Text.{JsString, codes, ◌===◌, trim, truthy, includes, dedupe}
use synchrono_city.Prelude.Sort.{sort, then_by}
use synchrono_city.Prelude.Runtime.{Runtime}
use synchrono_city.Data.Types.{
  CrossRelayFeedItem, Lane, following, for_you, PulsePost, PulseFeedItem,
}
use synchrono_city.Data.Timestamps.{parse_timestamp, compare_descending_timestamps}
use synchrono_city.NostrUtils.{Bech32, normalize_public_key_npub}

-- `CrossRelayFeedItem & { lane: PulseFeedItem["lane"] }`
pub record TaggedItem : Type 0 where
  pub item : CrossRelayFeedItem
  pub lane : Lane

abbrev pub pulse_aggregation_window_ms : ℕ
pulse_aggregation_window_ms = 2700000

abbrev pub pulse_feed_page_size : ℕ
pulse_feed_page_size = 30

abbrev pub is_lane : Lane → Lane → Bool
is_lane following following = true
is_lane following for_you = false
is_lane for_you following = false
is_lane for_you for_you = true

-- `group[0]?.lane === lane`
abbrev pub in_lane : Lane → List TaggedItem → Bool
in_lane lane [] = false
in_lane lane (t ∷ ts) = is_lane t.lane lane

abbrev pub within : Option ℤ → Option ℤ → Bool
within none b = false
within (some a) none = false
within (some a) (some b) = leb (abs (a -ℤ b)) pulse_aggregation_window_ms

-- `xs.map(f)` where a call of `f` that throws ends the run
unfoldable pub traverse {ℓ κ} :
    {A : Type ℓ} {B : Type κ} → (A → Option B) → List A → Option (List B)
traverse f [] = some []
traverse f (x ∷ xs) = do y ← f x; ys ← traverse f xs; some (y ∷ ys)

unfoldable pub item_score : TaggedItem → ℤ
item_score t =
    or_else t.item.zap_count (pos 0)
    +ℤ or_else t.item.engagement_score (pos 0)
    +ℤ or_else t.item.follow_graph_score (pos 0)
    +ℤ or_else t.item.follower_count (pos 0)

unfoldable pub compute_pulse_feed_group_score : List TaggedItem → ℤ
compute_pulse_feed_group_score [] = pos 0
compute_pulse_feed_group_score (t ∷ ts) = item_score t +ℤ compute_pulse_feed_group_score ts

abbrev pub published_at_of : List TaggedItem → Option JsString
published_at_of [] = none
published_at_of (t ∷ ts) = some t.item.published_at

abbrev pub id_of : List TaggedItem → JsString
id_of [] = []
id_of (t ∷ ts) = t.item.id

-- The item of a group, from its `latestItem` and the others.
abbrev pub pulse_feed_item : TaggedItem → List TaggedItem → PulseFeedItem
pulse_feed_item t ts = record {
  id = codes "pulse-remote-" ++ t.item.id;
  lane = t.lane;
  relay_name = t.item.relay_name;
  relay_url = t.item.relay_url;
  author_pubkey = t.item.author_pubkey;
  author_name = t.item.author_name;
  geohash = t.item.geohash;
  place_title = t.item.place_title;
  content = t.item.content;
  published_at = t.item.published_at;
  source_label = t.item.source_label;
  why_visible = t.item.why_visible;
  post_count = length (t ∷ ts);
  posts =
      map
        (λ (p : TaggedItem). record {
          id = p.item.id;
          content = p.item.content;
          published_at = p.item.published_at;
        })
        (t ∷ ts);
}

-- `none`: the group is empty and `latestItem.id` throws
unfoldable pub build_pulse_feed_item : List TaggedItem → Option PulseFeedItem
build_pulse_feed_item [] = none
build_pulse_feed_item (t ∷ ts) = some (pulse_feed_item t ts)

module _ (rt : Runtime) where
  unfoldable pub should_aggregate_pulse_feed_item : TaggedItem → TaggedItem → Bool
  should_aggregate_pulse_feed_item anchor candidate =
      is_lane anchor.lane candidate.lane
      && anchor.item.relay_url === candidate.item.relay_url
      && anchor.item.author_pubkey === candidate.item.author_pubkey
      && anchor.item.geohash === candidate.item.geohash
      && within (parse_timestamp rt (some anchor.item.published_at))
          (parse_timestamp rt (some candidate.item.published_at))

  -- The loop from some `currentGroup` on, with the groups that it pushes from there.
  unfoldable pub group_items : List TaggedItem → List TaggedItem → List (List TaggedItem)
  group_items [] [] = []
  group_items (anchor ∷ group) [] = (anchor ∷ group) ∷ []
  group_items [] (t ∷ items) = group_items (t ∷ []) items
  group_items (anchor ∷ group) (t ∷ items) =
      let joined = group_items (anchor ∷ group ++ t ∷ []) items in
      let split = group_items (t ∷ []) items in
      if should_aggregate_pulse_feed_item anchor t then joined else (anchor ∷ group) ∷ split

  unfoldable pub build_pulse_feed_groups : List TaggedItem → List (List TaggedItem)
  build_pulse_feed_groups items = group_items [] items

  abbrev pub by_score : List TaggedItem → List TaggedItem → ℤ
  by_score left right = compute_pulse_feed_group_score right -ℤ compute_pulse_feed_group_score left

  abbrev pub by_time_of_first : List TaggedItem → List TaggedItem → ℤ
  by_time_of_first left right =
      compare_descending_timestamps rt (published_at_of left) (published_at_of right)

  abbrev pub by_id_of_first : List TaggedItem → List TaggedItem → ℤ
  by_id_of_first left right = rt.locale_compare (id_of left) (id_of right)

  unfoldable pub compare_pulse_feed_group_ranking : List TaggedItem → List TaggedItem → ℤ
  compare_pulse_feed_group_ranking = then_by by_score (then_by by_time_of_first by_id_of_first)

  -- The inner loop: one page after the other. The fuel is the number of groups; a page takes one at
  -- least.
  unfoldable pub rank_pages : ℕ → List (List TaggedItem) → List (List TaggedItem)
  rank_pages zero groups = []
  rank_pages (suc fuel) [] = []
  rank_pages (suc fuel) (g ∷ groups) =
      sort compare_pulse_feed_group_ranking (take pulse_feed_page_size (g ∷ groups))
      ++ rank_pages fuel (drop pulse_feed_page_size (g ∷ groups))

  abbrev pub rank_lane : Lane → List (List TaggedItem) → List (List TaggedItem)
  rank_lane lane groups =
      let lane_groups = filter (in_lane lane) groups in rank_pages (length lane_groups) lane_groups

  unfoldable pub rank_pulse_feed_groups : List (List TaggedItem) → List (List TaggedItem)
  rank_pulse_feed_groups groups = rank_lane for_you groups ++ rank_lane following groups

  abbrev pub by_publication : TaggedItem → TaggedItem → ℤ
  by_publication l r =
      compare_descending_timestamps rt (some l.item.published_at) (some r.item.published_at)

  -- What `buildPulseFeedItems` does with the tagged items.
  unfoldable pub publish : List TaggedItem → Option (List PulseFeedItem)
  publish tagged =
      traverse build_pulse_feed_item
        (rank_pulse_feed_groups (build_pulse_feed_groups (sort by_publication tagged)))

module _ (rt : Runtime) (bech32 : Bech32) where
  abbrev trimmed_npub : JsString → Option JsString
  trimmed_npub pubkey = do npub ← normalize_public_key_npub rt bech32 pubkey; some (trim npub)

  abbrev pub tag_item : List JsString → CrossRelayFeedItem → Option TaggedItem
  tag_item followed item =
      if item.source_label === codes "Direct follow"
      then some (record { item = item; lane = following })
      else do
        npub ← trimmed_npub item.author_pubkey
        some (record { item = item; lane = if includes followed npub then following else for_you })

  unfoldable pub build_pulse_feed_items :
      List CrossRelayFeedItem → List JsString → Option (List PulseFeedItem)
  build_pulse_feed_items remote_items followed_pubkeys = do
    npubs ← traverse trimmed_npub followed_pubkeys
    tagged ← traverse (tag_item (dedupe (filter truthy npubs))) remote_items
    publish rt tagged
