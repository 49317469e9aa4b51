-- ===== src/Social/Payload.antt =====
-- The whole payload in apps/web/src/social-payload.ts, against objects in both spellings.
use synchrono_city.Prelude.{
  ◌≡◌, refl, ap, Bool, true, false, Option, none, some, List, [], ◌∷◌, arith, All, All-map, filter,
}
use synchrono_city.Prelude.Text.{JsString, truthy}
use synchrono_city.Data.Types.{
  Place, GeoNote, RelayListEntry, CrossRelayFeedItem, ParticipantProfile,
}
use synchrono_city.Social.Values.{
  JsValue, null, string, array, Elements, end, element, pick_value, as_string,
}
use synchrono_city.Social.{
  normalize_place_payload, normalize_geo_note_payload, is_valid_geo_note, BootstrapPayload,
  Bootstrap, normalize_bootstrap_payload, map_array, normalize_relay_list_entry,
  normalize_cross_relay_item, normalize_profile,
}
use synchrono_city.Social.Laws.{Spelling, place_object, IsFullPlace, normalize_place_payload_lem}
use synchrono_city.Social.Objects.{
  item_object, relay_object, profile_object, IsFullProfile, normalize_item_lem, normalize_relay_lem,
  normalize_profile_lem,
}
use synchrono_city.Social.Notes.{note_object, IsFullNote, normalize_geo_note_payload_lem}

-- The entries that are there.
abbrev pub present {ℓ} : {A : Type ℓ} → List (Option A) → List A
present [] = []
present (none ∷ os) = present os
present (some a ∷ os) = a ∷ present os

-- Entries as a list of objects; `null` stands for each that is missing.
abbrev pub sent {ℓ} : {A : Type ℓ} → (A → JsValue) → List (Option A) → Elements
sent f [] = end
sent f (none ∷ os) = element null (sent f os)
sent f (some a ∷ os) = element (f a) (sent f os)

-- A list of objects that are read back as themselves and pass the test, with others that do not.
filter-sent {ℓ} :
    {A : Type ℓ} (to : A → JsValue) (from : JsValue → A) (test : A → Bool) (os : List (Option A))
    → test (from null) ≡ false
    → All (λ a. (from (to a) ≡ a) × (test a ≡ true)) (present os)
    → filter test (map_array from (array (sent to os))) ≡ present os
filter-sent to from test [] gone h = refl
filter-sent to from test (none ∷ os) gone h = rw gone (filter-sent to from test os gone h)
filter-sent to from test (some a ∷ os) gone ((same, good), h) =
    rw (same, good) (ap (◌∷◌ a) (filter-sent to from test os gone h))

-- What a server has: entries, some of which are missing.
pub record Content : Type 0 where
  pub relay_name : JsValue
  pub relay_operator_pubkey : JsValue
  pub current_user_pubkey : JsString
  pub relay_url : JsValue
  pub relay_list : List (Option RelayListEntry)
  pub cross_relay_items : List (Option CrossRelayFeedItem)
  pub places : List (Option Place)
  pub profiles : List (Option ParticipantProfile)
  pub notes : List (Option GeoNote)

abbrev pub payload_of : Spelling → Content → BootstrapPayload
payload_of sp s = record {
  relay_name = s.relay_name;
  relay_operator_pubkey = s.relay_operator_pubkey;
  current_user_pubkey = string s.current_user_pubkey;
  relay_url = s.relay_url;
  relay_list = array (sent (relay_object sp) s.relay_list);
  cross_relay_items = array (sent (item_object sp) s.cross_relay_items);
  places = array (sent (place_object sp) s.places);
  profiles = array (sent (profile_object sp) s.profiles);
  notes = array (sent (note_object sp) s.notes);
}

-- A note with an ID, a geohash and an author.
pub record IsNamed (n : GeoNote) : Type 0 where
  pub id : truthy n.id ≡ true
  pub geohash : truthy n.geohash ≡ true
  pub author_pubkey : truthy n.author_pubkey ≡ true

-- Relays with a URL, items with an ID, places with a geohash, profiles with a key, and notes with an
-- ID, a geohash and an author; and their optional parts are full.
pub record IsComplete (s : Content) : Type 0 where
  pub relay_list : All (λ r. truthy r.url ≡ true) (present s.relay_list)
  pub cross_relay_items : All (λ i. truthy i.id ≡ true) (present s.cross_relay_items)
  pub places : All (λ p. IsFullPlace p × (truthy p.geohash ≡ true)) (present s.places)
  pub profiles : All (λ p. IsFullProfile p × (truthy p.pubkey ≡ true)) (present s.profiles)
  pub notes : All (λ n. IsFullNote n × IsNamed n) (present s.notes)

abbrev pub state_of : Content → Bootstrap
state_of s = record {
  relay_name = s.relay_name;
  relay_operator_pubkey = s.relay_operator_pubkey;
  current_user_pubkey = s.current_user_pubkey;
  relay_url = s.relay_url;
  relay_list = present s.relay_list;
  cross_relay_items = present s.cross_relay_items;
  places = present s.places;
  profiles = present s.profiles;
  notes = present s.notes;
}

no_relay : truthy (normalize_relay_list_entry null).url ≡ false
unfolding normalize_relay_list_entry pick_value as_string
no_relay = refl

no_item : truthy (normalize_cross_relay_item null).id ≡ false
unfolding normalize_cross_relay_item pick_value as_string
no_item = refl

no_place : truthy (normalize_place_payload null).geohash ≡ false
unfolding normalize_place_payload pick_value as_string
no_place = refl

no_profile : truthy (normalize_profile null).pubkey ≡ false
unfolding normalize_profile pick_value as_string
no_profile = refl

no_note : is_valid_geo_note (normalize_geo_note_payload null) ≡ false
unfolding is_valid_geo_note normalize_geo_note_payload pick_value as_string
no_note = refl

valid : (n : GeoNote) → IsNamed n → is_valid_geo_note n ≡ true
unfolding is_valid_geo_note
valid n h = ground (arith, h)

-- From a payload of relays with a URL, items with an ID, places with a geohash, profiles with a key
-- and a display name, and notes with an ID, a geohash and an author, whose optional strings and lists
-- are not empty and whose reactions have trimmed emojis and positive counts, sent with their keys in
-- either spelling and with `null` for entries that are missing, the client starts with exactly the
-- entries that are there, each as it was and in its order, and with the name, the URL, the operator
-- and the user that were sent.
pub normalize_bootstrap_payload_lem :
    (sp : Spelling) (s : Content)
    → IsComplete s
    → normalize_bootstrap_payload (payload_of sp s) ≡ state_of s
unfolding normalize_bootstrap_payload
normalize_bootstrap_payload_lem sp s h =
    rw
      (
        filter-sent (relay_object sp) normalize_relay_list_entry (λ r. truthy r.url) s.relay_list
            no_relay
            (All-map (λ r u. (normalize_relay_lem sp r, u)) (present s.relay_list) h.relay_list),
        filter-sent (item_object sp) normalize_cross_relay_item (λ i. truthy i.id)
            s.cross_relay_items no_item
            (All-map (λ i u. (normalize_item_lem sp i, u)) (present s.cross_relay_items)
              h.cross_relay_items),
        filter-sent (place_object sp) normalize_place_payload (λ p. truthy p.geohash) s.places
            no_place
            (All-map (λ p u. (normalize_place_payload_lem sp p u.0, u.1)) (present s.places)
              h.places),
        filter-sent (profile_object sp) normalize_profile (λ p. truthy p.pubkey) s.profiles
            no_profile
            (All-map (λ p u. (normalize_profile_lem sp p u.0, u.1)) (present s.profiles)
              h.profiles),
        filter-sent (note_object sp) normalize_geo_note_payload is_valid_geo_note s.notes no_note (
            All-map (λ n u. (normalize_geo_note_payload_lem sp n u.0, valid n u.1))
              (present s.notes) h.notes),
      )
      (unfold as_string in refl)
