-- ===== src/Nostr/Events.antt =====
-- apps/web/src/nostr.ts: events that relays send, checked and normalized into notes, reactions and
-- beacons. The outer `none` stands for an error that is thrown, an inner one for `null`.
use mathlib.Core.Option
use synchrono_city.Prelude.{
  ◌*◌, ◌+◌, Bool, false, ◌&&◌, Option, none, some, or_else, List, [], ◌∷◌, filter, if◌then◌else◌,
  ◌>>=◌,
}
use synchrono_city.Prelude.Int.{ℤ, pos, negsuc, leb_ℤ}
use synchrono_city.Prelude.Text.{JsString, codes, trim, truthy, or_string, dedupe}
use synchrono_city.Social.Values.{
  JsValue, nan, infinite, number, string, array, object, property_of, strings_of, or_undefined,
  nonempty_or_undefined,
}
use synchrono_city.Data.Types.{GeoNote, Place}
use synchrono_city.NostrUtils.{normalize_public_key_npub}
use synchrono_city.Nostr.Platform.{Platform}
use synchrono_city.Nostr.Tags.{
  list_of, extract_tag_value, extract_geohash_tag, extract_tag_values, extract_last_tag_value,
  extract_event_references, normalize_beacon_tags, or_nothing,
}

-- `created_at` is a value of type number: JSON has numbers too large for a double.
pub record UnsignedRelayEvent : Type 0 where
  pub id : JsString
  pub pubkey : JsString
  pub created_at : JsValue
  pub tags : List JsValue
  pub content : JsString

abbrev pub is_kind : ℤ → JsValue → Bool
is_kind k (number n) = leb_ℤ k n && leb_ℤ n k
is_kind k _ = false

-- `typeof value === "string"`, `typeof value === "number"` and `Array.isArray(value)`
abbrev pub text : Option JsValue → Option JsString
text (some (string s)) = some s
text _ = none

abbrev pub numeric : Option JsValue → Option JsValue
numeric (some (number n)) = some (number n)
numeric (some (infinite positive)) = some (infinite positive)
numeric (some nan) = some nan
numeric _ = none

abbrev pub listed : Option JsValue → Option (List JsValue)
listed (some (array es)) = some (list_of es)
listed _ = none

-- The conjunction that the four tests share: the event if it holds.
unfoldable pub signed_event : ℤ → JsValue → Option UnsignedRelayEvent
signed_event kind (object ps) = do
  found ← property_of ps (codes "kind")
  id ← text (property_of ps (codes "id"))
  pubkey ← text (property_of ps (codes "pubkey"))
  content ← text (property_of ps (codes "content"))
  created_at ← numeric (property_of ps (codes "created_at"))
  tags ← listed (property_of ps (codes "tags"))
  if is_kind kind found
      then some (record {
        id = id;
        pubkey = pubkey;
        created_at = created_at;
        tags = tags;
        content = content;
      })
      else none
signed_event kind _ = none

abbrev pub signature : JsValue → Option JsString
signature (object ps) = text (property_of ps (codes "sig"))
signature _ = none

unfoldable pub is_signed_kind_zero_event : JsValue → Option UnsignedRelayEvent
unfolding signed_event
is_signed_kind_zero_event v = signature v >>= λ sig. signed_event (pos 0) v

unfoldable pub is_signed_kind_one_event : JsValue → Option UnsignedRelayEvent
unfolding signed_event
is_signed_kind_one_event v = signed_event (pos 1) v

unfoldable pub is_signed_kind_seven_event : JsValue → Option UnsignedRelayEvent
unfolding signed_event
is_signed_kind_seven_event v = signed_event (pos 7) v

unfoldable pub is_signed_beacon_definition_event : JsValue → Option UnsignedRelayEvent
unfolding signed_event
is_signed_beacon_definition_event v = signed_event (pos 39001) v

-- `n * 1000`
abbrev pub milliseconds : ℤ → ℤ
milliseconds (pos n) = pos (n * 1000)
milliseconds (negsuc n) = negsuc (n * 1000 + 999)

pub record RelayReaction : Type 0 where
  pub geohash : JsString
  pub target_event_id : JsString
  pub emoji : JsString

pub record BeaconDefinitionContent : Type 0 where
  pub name : JsString
  pub picture : Option JsString
  pub about : Option JsString
  pub tags : Option (List JsString)

abbrev pub string_list : Option JsValue → Option (List JsString)
string_list (some (array es)) = some (strings_of es)
string_list _ = none

-- The body of `parseBeaconDefinitionContent`, without the parsing.
unfoldable pub beacon_definition_content : JsValue → Option BeaconDefinitionContent
beacon_definition_content (object ps) = do
  name ← text (property_of ps (codes "name"))
  if truthy (trim name)
      then some (record {
        name = name;
        picture = text (property_of ps (codes "picture"));
        about = text (property_of ps (codes "about"));
        tags = string_list (property_of ps (codes "tags"));
      })
      else none
beacon_definition_content _ = none

-- A parsed value that is an object. An array passes the test, and is kept.
abbrev pub object_only : JsValue → Option JsValue
object_only (object ps) = some (object ps)
object_only (array es) = some (array es)
object_only _ = none

-- `value?.trim() ?? ""`
abbrev pub trimmed : Option JsString → JsString
trimmed none = []
trimmed (some s) = trim s

module _ (p : Platform) where
  -- `new Date(created_at * 1000).toISOString()`
  abbrev pub iso_time : JsValue → Option JsString
  iso_time (number n) = p.to_iso_string (milliseconds n)
  iso_time _ = none

  unfoldable pub parse_profile_metadata_content : JsString → Option JsValue
  parse_profile_metadata_content content = p.json_parse content >>= object_only

  unfoldable pub parse_beacon_definition_content : JsString → Option BeaconDefinitionContent
  unfolding beacon_definition_content
  parse_beacon_definition_content content = p.json_parse content >>= beacon_definition_content

  abbrev pub npubs : List JsString → Option (List JsString)
  npubs [] = some []
  npubs (k ∷ ks) = do
    npub ← normalize_public_key_npub p.runtime p.bech32 k
    later ← npubs ks
    some (npub ∷ later)

  abbrev pub note_of : UnsignedRelayEvent → JsString → Option (Option GeoNote)
  note_of event geohash = do
    event_references ← extract_event_references p.runtime event.tags
    keys ← extract_tag_values p.runtime event.tags (codes "p")
    tagged_pubkeys ← npubs keys
    author_pubkey ← normalize_public_key_npub p.runtime p.bech32 event.pubkey
    created_at ← iso_time event.created_at
    some (
        some (record {
          id = event.id;
          geohash = geohash;
          author_pubkey = author_pubkey;
          content = trim event.content;
          created_at = created_at;
          replies = pos 0;
          reply_target_id = event_references.reply_id;
          root_note_id = event_references.root_id;
          tagged_pubkeys = nonempty_or_undefined (dedupe (filter truthy tagged_pubkeys));
          reactions = none;
        }))

  unfoldable pub normalize_relay_kind_one_note :
      UnsignedRelayEvent → JsString → Option (Option GeoNote)
  normalize_relay_kind_one_note event default_geohash =
      extract_geohash_tag p.runtime event.tags >>= λ tagged.
      if truthy (or_else tagged default_geohash)
      then note_of event (or_else tagged default_geohash)
      else some none

  abbrev pub reaction_to : JsString → JsString → Option JsString → Option RelayReaction
  reaction_to geohash content none = none
  reaction_to geohash content (some id) =
      if truthy id
      then some (record {
        geohash = geohash;
        target_event_id = id;
        emoji = or_string (trim content) (codes "+");
      })
      else none

  unfoldable pub normalize_relay_kind_seven_reaction :
      UnsignedRelayEvent → JsString → Option (Option RelayReaction)
  normalize_relay_kind_seven_reaction event default_geohash =
      extract_geohash_tag p.runtime event.tags >>= λ tagged.
      if truthy (or_else tagged default_geohash)
      then Option.map (reaction_to (or_else tagged default_geohash) event.content)
          (extract_last_tag_value p.runtime event.tags (codes "e"))
      else some none

  -- `extractTagValue(event.tags, "d") ?? extractGeohashTag(event.tags)`
  abbrev pub beacon_geohash : List JsValue → Option (Option JsString)
  beacon_geohash tags = extract_tag_value p.runtime tags (codes "d") >>= λ d. elim d [
    | some geohash ↦ some (some geohash)
    | none ↦ extract_geohash_tag p.runtime tags
  ]

  abbrev pub content_tags : Option (List JsString) → List JsValue → Option (List JsString)
  content_tags (some tags) event_tags = some tags
  content_tags none event_tags = extract_tag_values p.runtime event_tags (codes "t")

  abbrev pub named_beacon :
      UnsignedRelayEvent → JsString → BeaconDefinitionContent → Option (Option Place)
  named_beacon event geohash content = do
    tags ← content_tags content.tags event.tags
    owner_pubkey ← normalize_public_key_npub p.runtime p.bech32 event.pubkey
    created_at ← iso_time event.created_at
    some (
        some (record {
          geohash = geohash;
          title = trim content.name;
          neighborhood = codes "Newly lit beacon";
          description = trimmed content.about;
          activity_summary = or_string (trimmed content.about) (codes "Freshly lit beacon.");
          created_at = some created_at;
          picture = or_undefined (trimmed content.picture);
          owner_pubkey = some owner_pubkey;
          member_pubkeys = nonempty_or_undefined (or_nothing (some owner_pubkey));
          tags = normalize_beacon_tags p.runtime tags;
          capacity = pos 8;
          occupant_pubkeys = [];
          unread = false;
          pinned_note_id = none;
        }))

  -- A definition without a name has no content: its title is empty, and it is no beacon.
  abbrev pub beacon_of :
      UnsignedRelayEvent → JsString → Option BeaconDefinitionContent → Option (Option Place)
  beacon_of event geohash none = some none
  beacon_of event geohash (some content) =
      if truthy (trim content.name) then named_beacon event geohash content else some none

  unfoldable pub normalize_relay_beacon_definition_event :
      UnsignedRelayEvent → Option (Option Place)
  normalize_relay_beacon_definition_event event = do
    geohash ← beacon_geohash event.tags
    if truthy (or_else geohash [])
        then beacon_of event (or_else geohash []) (parse_beacon_definition_content event.content)
        else some none
