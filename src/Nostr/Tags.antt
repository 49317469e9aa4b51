-- ===== src/Nostr/Tags.antt =====
-- apps/web/src/nostr.ts: the tags of events, how they are read and built. Tags come from relays, so
-- their reading may throw: `none` stands for a TypeError.
pub mod Laws
use mathlib.Core.Option
use synchrono_city.Prelude.{
  ℕ, zero, suc, ◌+◌, Bool, true, false, not, ◌&&◌, ◌||◌, Option, none, some, or_else, List, [], ◌∷◌,
  ◌++◌, map, filter, get_elem?, ◌>>=◌, if◌then◌else◌,
}
use synchrono_city.Prelude.Text.{
  JsString, codes, ◌===◌, trim, truthy, or_string, add_all, includes, add, dedupe,
}
use synchrono_city.Prelude.Runtime.{Runtime}
use synchrono_city.Social.Values.{
  JsValue, undefined, null, nan, infinite, boolean, number, string, array, object, Elements, end,
  element, property_of,
}
use synchrono_city.Data.Types.{GeoNote}
use synchrono_city.NostrUtils.{Bech32, normalize_public_key_hex}

abbrev pub list_of : Elements → List JsValue
list_of end = []
list_of (element v es) = v ∷ list_of es

abbrev pub or_undefined_value : Option JsValue → JsValue
or_undefined_value none = undefined
or_undefined_value (some v) = v

abbrev char_at : Option ℕ → JsValue
char_at none = undefined
char_at (some c) = string (c ∷ [])

-- `value[n]` for a digit `n`
unfoldable pub item : JsValue → ℕ → Option JsValue
item undefined n = none
item null n = none
item (string s) n = some (char_at (get_elem? s n))
item (array es) n = some (or_undefined_value (get_elem? (list_of es) n))
item (object ps) n = some (or_undefined_value (property_of ps ((48 + n) ∷ [])))
item (boolean b) n = some undefined
item (number x) n = some undefined
item nan n = some undefined
item (infinite positive) n = some undefined

abbrev pub is_text : JsValue → JsString → Bool
is_text (string s) t = s === t
is_text _ t = false

-- A value that is a string and not blank, trimmed.
abbrev pub solid : JsValue → Option JsString
solid (string s) = if truthy (trim s) then some (trim s) else none
solid _ = none

-- `tag[0] === name && typeof tag[1] === "string" && tag[1].trim()`: the text, trimmed, if so.
unfoldable pub tag_text : JsString → JsValue → Option (Option JsString)
unfolding item
tag_text name tag = do
  head ← item tag 0
  second ← item tag 1
  some (if is_text head name then solid second else none)

-- The filter of `extractEventReferences`: the event tags, with their trimmed ID and `tag[3]`.
unfoldable pub event_tags : List JsValue → Option (List (JsString × JsValue))
unfolding tag_text item
event_tags [] = some []
event_tags (tag ∷ tags) = do
  found ← tag_text (codes "e") tag
  marker ← item tag 3
  later ← event_tags tags
  some (elim found [ none ↦ later | some text ↦ (text, marker) ∷ later ])

pub record EventReferences : Type 0 where
  pub root_id : Option JsString
  pub reply_id : Option JsString

-- The first tag with the marker.
abbrev pub marked : JsString → List (JsString × JsValue) → Option JsString
marked name [] = none
marked name ((text, marker) ∷ tags) = if is_text marker name then some text else marked name tags

abbrev pub last_of : JsString → List (JsString × JsValue) → JsString
last_of text [] = text
last_of text ((later, marker) ∷ tags) = last_of later tags

module _ (rt : Runtime) where
  -- The loops of `extractTagValue` and `extractGeohashTag` (with the name "g").
  unfoldable pub extract_tag_value : List JsValue → JsString → Option (Option JsString)
  extract_tag_value [] name = some none
  extract_tag_value (tag ∷ tags) name = tag_text name tag >>= λ found. elim found [
    | some text ↦ some (some (rt.to_lower_case text))
    | none ↦ extract_tag_value tags name
  ]

  unfoldable pub extract_geohash_tag : List JsValue → Option (Option JsString)
  extract_geohash_tag tags = extract_tag_value tags (codes "g")

  unfoldable pub extract_tag_values : List JsValue → JsString → Option (List JsString)
  extract_tag_values [] name = some []
  extract_tag_values (tag ∷ tags) name = do
    found ← tag_text name tag
    later ← extract_tag_values tags name
    some (elim found [ none ↦ later | some text ↦ rt.to_lower_case text ∷ later ])

  -- From the last tag to the first: tags before the one that is found are not read.
  unfoldable pub extract_last_tag_value : List JsValue → JsString → Option (Option JsString)
  extract_last_tag_value [] name = some none
  extract_last_tag_value (tag ∷ tags) name = extract_last_tag_value tags name >>= λ found.
      elim found [
        | some text ↦ some (some text)
        | none ↦ tag_text name tag >>= λ here. some (Option.map rt.to_lower_case here)
      ]

  abbrev pub references : JsString → JsString → EventReferences
  references root reply = record {
    root_id = some (rt.to_lower_case root);
    reply_id = some (rt.to_lower_case reply);
  }

  -- Without markers, the first tag is the root and the last one the reply; one tag is both.
  abbrev pub unmarked : List (JsString × JsValue) → EventReferences
  unmarked [] = record { root_id = none; reply_id = none }
  unmarked ((text, marker) ∷ tags) = references text (last_of text tags)

  abbrev pub choose_references :
      Option JsString → Option JsString → List (JsString × JsValue) → EventReferences
  choose_references root (some reply) tags = references (or_else root reply) reply
  choose_references (some root) none tags = references root root
  choose_references none none tags = unmarked tags

  unfoldable pub extract_event_references : List JsValue → Option EventReferences
  unfolding event_tags
  extract_event_references tags = do
    es ← event_tags tags
    some (choose_references (marked (codes "root") es) (marked (codes "reply") es) es)

  -- `seen` and `normalized` of `normalizeBeaconTags` hold the same strings.
  unfoldable pub normalize_beacon_tags : List JsString → List JsString
  normalize_beacon_tags tags = dedupe (
      filter truthy
        (map (λ t. rt.to_lower_case (trim t)) (codes "beacon" ∷ codes "geohash8" ∷ tags)))

  unfoldable pub build_beacon_definition_tags : JsString → List JsString → List (List JsString)
  build_beacon_definition_tags geohash tags =
      (codes "d" ∷ geohash ∷ [])
      ∷ (codes "g" ∷ geohash ∷ [])
      ∷ map (λ t. codes "t" ∷ t ∷ []) (normalize_beacon_tags tags)

abbrev pub or_nothing : Option JsString → List JsString
or_nothing none = []
or_nothing (some s) = if truthy s then s ∷ [] else []

unfoldable pub build_reply_reference_tag :
    JsString → JsString → JsString → Option JsString → List JsString
build_reply_reference_tag id relay_url marker author_hex =
    (codes "e" ∷ id ∷ relay_url ∷ marker ∷ []) ++ or_nothing author_hex

-- `Pick<GeoNote, "id" | "authorPubkey" | "rootNoteId" | "taggedPubkeys">`
pub record ReplyTarget : Type 0 where
  pub id : JsString
  pub author_pubkey : JsString
  pub root_note_id : Option JsString
  pub tagged_pubkeys : Option (List JsString)

-- `map(normalizePublicKeyHex).filter(Boolean)`
abbrev pub filter_map_hex : (JsString → Option JsString) → List JsString → List JsString
filter_map_hex f [] = []
filter_map_hex f (x ∷ xs) = or_nothing (f x) ++ filter_map_hex f xs

abbrev pub trimmed_or : Option JsString → JsString → JsString
trimmed_or none t = t
trimmed_or (some s) t = or_string (trim s) t

module _ (rt : Runtime) (bech32 : Bech32) where
  unfoldable pub build_geo_note_tags :
      JsString → JsString → Option ReplyTarget → List (List JsString)
  build_geo_note_tags geohash relay_url none = (codes "g" ∷ geohash ∷ []) ∷ []
  build_geo_note_tags geohash relay_url (some target) =
      let hex = normalize_public_key_hex rt bech32 in
      let referenced =
        filter_map_hex hex (dedupe (target.author_pubkey ∷ or_else target.tagged_pubkeys [])) in
      let author = hex target.author_pubkey in
      let root_id = trimmed_or target.root_note_id (trim target.id) in
      let reply_id = trim target.id in
      let rooted = build_reply_reference_tag root_id relay_url (codes "root") author in
      let reply = build_reply_reference_tag reply_id relay_url (codes "reply") author in
      let only = build_reply_reference_tag reply_id relay_url (codes "root") author in
      (codes "g" ∷ geohash ∷ [])
        ∷ (if truthy root_id && not (root_id === reply_id) then rooted ∷ reply ∷ [] else only ∷ [])
      ++ map (λ k. codes "p" ∷ k ∷ []) referenced

  unfoldable pub build_geo_reaction_tags :
      JsString → JsString → JsString → JsString → List (List JsString)
  build_geo_reaction_tags geohash relay_url note_id author_pubkey =
      let author = or_nothing (normalize_public_key_hex rt bech32 author_pubkey) in
      (codes "g" ∷ geohash ∷ [])
        ∷ ((codes "e" ∷ trim note_id ∷ relay_url ∷ []) ++ author)
        ∷ map (λ k. codes "p" ∷ k ∷ []) author
      ++ (codes "k" ∷ codes "1" ∷ []) ∷ []

-- A tag as a value, as `JSON.stringify` takes it and a relay sends it.
abbrev pub strings : List JsString → Elements
strings [] = end
strings (s ∷ ss) = element (string s) (strings ss)

abbrev pub tag_value_of : List JsString → JsValue
tag_value_of ss = array (strings ss)
