-- ===== src/Nostr/Signing.antt =====
-- apps/web/src/nostr.ts: events that the client signs.
use synchrono_city.Prelude.{ℕ, Option, none, some, List, [], ◌∷◌, if◌then◌else◌, ◌>>=◌}
use synchrono_city.Prelude.Int.{ℤ, pos}
use synchrono_city.Prelude.Text.{JsString, truthy}
use synchrono_city.Social.Values.{
  JsValue, number, string, array, object, Elements, end, element, bare,
}
use synchrono_city.NostrUtils.{bytes_to_hex, hex_to_bytes}
use synchrono_city.Nostr.Tags.{tag_value_of}
use synchrono_city.Nostr.Platform.{Platform, Signer}
use synchrono_city.Nostr.Queries.{field}

pub record NostrEventTemplate : Type 0 where
  pub kind : ℤ
  pub created_at : ℤ
  pub tags : List (List JsString)
  pub content : JsString

pub record NostrSignedEvent : Type 0 where
  pub event : NostrEventTemplate
  pub id : JsString
  pub pubkey : JsString
  pub sig : JsString

pub record NostrSigningOptions : Type 0 where
  pub private_key_hex : Option JsString
  pub public_key_hex : Option JsString

-- Tags as values.
abbrev pub tag_values : List (List JsString) → Elements
tag_values [] = end
tag_values (tag ∷ tags) = element (tag_value_of tag) (tag_values tags)

-- `{ ...event, id, pubkey, sig }`, as a value
unfoldable pub event_value : NostrSignedEvent → JsValue
event_value e = object (
    field "kind" (number e.event.kind) (
      field "created_at" (number e.event.created_at) (
        field "tags" (array (tag_values e.event.tags)) (
          field "content" (string e.event.content) (
            field "id" (string e.id)
              (field "pubkey" (string e.pubkey) (field "sig" (string e.sig) bare)))))))

module _ (p : Platform) (signer : Signer) where
  unfoldable pub compute_event_id : NostrEventTemplate → JsString → JsString
  compute_event_id event pubkey = bytes_to_hex (
      signer.sha256 (
        p.json_stringify (
          array (
            element (number (pos 0)) (
              element (string pubkey) (
                element (number event.created_at) (
                  element (number event.kind) (
                    element (array (tag_values event.tags))
                      (element (string event.content) end)))))))))

  -- `publicKeyHex ?? bytesToHex(schnorr.getPublicKey(secretKey))`
  abbrev pub signing_pubkey : List ℕ → Option JsString → Option JsString
  signing_pubkey secret_key (some public_key_hex) = some public_key_hex
  signing_pubkey secret_key none =
      signer.get_public_key secret_key >>= λ key. some (bytes_to_hex key)

  -- `none`: an error is thrown
  unfoldable pub sign_event_with_private_key :
      NostrEventTemplate → JsString → Option JsString → Option NostrSignedEvent
  unfolding compute_event_id
  sign_event_with_private_key event private_key_hex public_key_hex = do
    secret_key ← hex_to_bytes p.runtime p.bech32 private_key_hex
    pubkey ← signing_pubkey secret_key public_key_hex
    digest ← hex_to_bytes p.runtime p.bech32 (compute_event_id event pubkey)
    sig ← signer.sign digest secret_key
    some (record {
      event = event;
      id = compute_event_id event pubkey;
      pubkey = pubkey;
      sig = bytes_to_hex sig;
    })

  -- `window.nostr.signEvent`, if there is an extension
  abbrev pub sign_with_extension :
      Option (NostrEventTemplate → Option NostrSignedEvent)
      → NostrEventTemplate
      → Option NostrSignedEvent
  sign_with_extension none event = none
  sign_with_extension (some sign) event = sign event

  abbrev pub sign_with_options :
      Option (NostrEventTemplate → Option NostrSignedEvent)
      → NostrEventTemplate
      → Option JsString
      → Option JsString
      → Option NostrSignedEvent
  sign_with_options nostr event none public_key_hex = sign_with_extension nostr event
  sign_with_options nostr event (some private_key_hex) public_key_hex =
      if truthy private_key_hex
      then sign_event_with_private_key event private_key_hex public_key_hex
      else sign_with_extension nostr event

  unfoldable pub sign_event :
      Option (NostrEventTemplate → Option NostrSignedEvent)
      → NostrEventTemplate
      → Option NostrSigningOptions
      → Option NostrSignedEvent
  unfolding sign_event_with_private_key
  sign_event nostr event none = sign_with_extension nostr event
  sign_event nostr event (some options) =
      sign_with_options nostr event options.private_key_hex options.public_key_hex
