-- ===== src/Social/Objects.antt =====
-- Feed items, relays and profiles in apps/web/src/social-payload.ts, against objects in both spellings.
use synchrono_city.Prelude.{◌≡◌, refl, true, Option, none, some, [], ◌∷◌}
use synchrono_city.Prelude.Int.{ℤ}
use synchrono_city.Prelude.Text.{JsString, codes, ◌===◌, truthy, or_string}
use synchrono_city.Data.Types.{RelayListEntry, CrossRelayFeedItem, ParticipantProfile}
use synchrono_city.Social.Values.{
  JsValue, undefined, boolean, number, string, object, bare, property, property_of, pick_from,
  pick_value, as_string, as_boolean, as_optional_number,
}
use synchrono_city.Social.{
  normalize_relay_list_entry, normalize_cross_relay_item, normalize_profile,
}
use synchrono_city.Social.Laws.{
  Spelling, camel, snake, spell, optional, IsFull, optional_string-optional, or_undefined-optional,
}

abbrev pub optional_number : Option ℤ → JsValue
optional_number none = undefined
optional_number (some n) = number n

abbrev pub item_object : Spelling → CrossRelayFeedItem → JsValue
item_object sp i = object (
    property (codes "id") (string i.id) (
      property (spell sp "relayName" "relay_name") (string i.relay_name) (
        property (spell sp "relayUrl" "relay_url") (string i.relay_url) (
          property (spell sp "authorPubkey" "author_pubkey") (string i.author_pubkey) (
            property (spell sp "authorName" "author_name") (string i.author_name) (
              property (codes "geohash") (string i.geohash) (
                property (spell sp "placeTitle" "place_title") (string i.place_title) (
                  property (codes "content") (string i.content) (
                    property (spell sp "publishedAt" "published_at") (string i.published_at) (
                      property (spell sp "sourceLabel" "source_label") (string i.source_label) (
                        property (spell sp "whyVisible" "why_visible") (string i.why_visible) (
                          property (spell sp "zapCount" "zap_count") (optional_number i.zap_count) (
                            property (spell sp "engagementScore" "engagement_score")
                              (optional_number i.engagement_score)
                              (property (spell sp "followGraphScore" "follow_graph_score")
                                (optional_number i.follow_graph_score)
                                (property (spell sp "followerCount" "follower_count")
                                  (optional_number i.follower_count) bare)))))))))))))))

abbrev pub relay_object : Spelling → RelayListEntry → JsValue
relay_object sp r = object (
    property (spell sp "url" "relay_url") (string r.url) (
      property (codes "name") (string r.name) (
        property (codes "inbox") (boolean r.inbox)
          (property (codes "outbox") (boolean r.outbox) bare))))

abbrev pub profile_object : Spelling → ParticipantProfile → JsValue
profile_object sp p = object (
    property (codes "pubkey") (string p.pubkey) (
      property (spell sp "displayName" "display_name") (string p.display_name) (
        property (codes "name") (optional p.name) (
          property (codes "picture") (optional p.picture) (
            property (codes "role") (string p.role) (
              property (codes "status") (string p.status) (
                property (codes "bio") (string p.bio) (
                  property (spell sp "homeGeohash" "home_geohash") (optional p.home_geohash) (
                    property (codes "mic") (boolean p.mic) (
                      property (codes "cam") (boolean p.cam) (
                        property (codes "screenshare") (boolean p.screenshare)
                          (property (codes "deafen") (boolean p.deafen) bare))))))))))))

pub record IsFullProfile (p : ParticipantProfile) : Type 0 where
  pub display_name : truthy p.display_name ≡ true
  pub name : IsFull p.name
  pub picture : IsFull p.picture
  pub home_geohash : IsFull p.home_geohash

as_optional_number-optional : (o : Option ℤ) → as_optional_number (optional_number o) ≡ o
unfolding as_optional_number
as_optional_number-optional none = refl
as_optional_number-optional (some n) = refl

pub normalize_item_lem :
    (sp : Spelling) (i : CrossRelayFeedItem) → normalize_cross_relay_item (item_object sp i) ≡ i
unfolding normalize_cross_relay_item pick_value pick_from property_of ◌===◌ as_string
normalize_item_lem camel i =
    rw
      (
        as_optional_number-optional i.zap_count,
        as_optional_number-optional i.engagement_score,
        as_optional_number-optional i.follow_graph_score,
        as_optional_number-optional i.follower_count,
      )
      refl
normalize_item_lem snake i =
    rw
      (
        as_optional_number-optional i.zap_count,
        as_optional_number-optional i.engagement_score,
        as_optional_number-optional i.follow_graph_score,
        as_optional_number-optional i.follower_count,
      )
      refl

pub normalize_relay_lem :
    (sp : Spelling) (r : RelayListEntry) → normalize_relay_list_entry (relay_object sp r) ≡ r
unfolding normalize_relay_list_entry pick_value pick_from property_of ◌===◌ as_string as_boolean
normalize_relay_lem camel r = refl
normalize_relay_lem snake r = refl

or_string-full : (s t : JsString) → truthy s ≡ true → or_string s t ≡ s
or_string-full [] t h = cc
or_string-full (c ∷ s) t h = refl

pub normalize_profile_lem :
    (sp : Spelling) (p : ParticipantProfile)
    → IsFullProfile p
    → normalize_profile (profile_object sp p) ≡ p
unfolding normalize_profile pick_value pick_from property_of ◌===◌ as_string as_boolean
normalize_profile_lem camel p h =
    rw
      (
        or_string-full p.display_name (as_string (optional p.name)) h.display_name,
        or_undefined-optional p.name h.name,
        or_undefined-optional p.picture h.picture,
        optional_string-optional p.home_geohash h.home_geohash,
      )
      refl
normalize_profile_lem snake p h =
    rw
      (
        or_string-full p.display_name (as_string (optional p.name)) h.display_name,
        or_undefined-optional p.name h.name,
        or_undefined-optional p.picture h.picture,
        optional_string-optional p.home_geohash h.home_geohash,
      )
      refl
