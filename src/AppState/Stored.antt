-- ===== src/AppState/Stored.antt =====
-- apps/web/src/app-state.tsx: the followed keys that the browser stores, and the note that the client
-- keeps of what it has published. The outer `none` stands for an error that is thrown.
use mathlib.Core.Option
use synchrono_city.Prelude.{
  Option, none, some, or_else, List, [], map, filter, if◌then◌else◌, ◌>>=◌,
}
use synchrono_city.Prelude.Int.{pos}
use synchrono_city.Prelude.Text.{JsString, trim, truthy, dedupe}
use synchrono_city.Social.Values.{JsValue, number, array, strings_of}
use synchrono_city.Data.Types.{GeoNote}
use synchrono_city.NostrUtils.{normalize_public_key_npub}
use synchrono_city.Nostr.Platform.{Platform}
use synchrono_city.Nostr.Tags.{strings}
use synchrono_city.Nostr.Events.{npubs, iso_time}
use synchrono_city.Nostr.Signing.{NostrSignedEvent}

abbrev pub root_for : GeoNote → Option JsString
root_for note = some (or_else note.root_note_id note.id)

module _ (p : Platform) where
  unfoldable pub normalize_stored_pubkeys : List JsString → Option (List JsString)
  normalize_stored_pubkeys pubkeys =
      Option.map (λ keys. dedupe (filter truthy (map trim keys))) (npubs p pubkeys)

  abbrev pub parsed_pubkeys : Option JsValue → List JsString
  parsed_pubkeys (some (array es)) = or_else (normalize_stored_pubkeys (strings_of es)) []
  parsed_pubkeys _ = []

  -- `raw` is what the storage has under the key, `none` also if there is no storage.
  unfoldable pub load_followed_pubkeys : Option JsString → List JsString
  unfolding normalize_stored_pubkeys
  load_followed_pubkeys none = []
  load_followed_pubkeys (some raw) = if truthy raw then parsed_pubkeys (p.json_parse raw) else []

  -- The text that is stored.
  unfoldable pub store_followed_pubkeys : List JsString → Option JsString
  unfolding normalize_stored_pubkeys
  store_followed_pubkeys pubkeys =
      Option.map (λ keys. p.json_stringify (array (strings keys)))
        (normalize_stored_pubkeys pubkeys)

  unfoldable pub normalize_published_geo_note :
      NostrSignedEvent → JsString → Option GeoNote → Option (List JsString) → Option GeoNote
  normalize_published_geo_note e default_geohash reply_to tagged_pubkeys = do
    author_pubkey ← normalize_public_key_npub p.runtime p.bech32 e.pubkey
    created_at ← iso_time p (number e.event.created_at)
    some (record {
      id = e.id;
      geohash = default_geohash;
      author_pubkey = author_pubkey;
      content = trim e.event.content;
      created_at = created_at;
      replies = pos 0;
      reply_target_id = Option.map (λ note. note.id) reply_to;
      root_note_id = reply_to >>= root_for;
      tagged_pubkeys = tagged_pubkeys;
      reactions = some [];
    })
