-- ===== src/Nostr/Publishing.antt =====
-- apps/web/src/nostr.ts: notes, reactions and beacons that the client publishes.
pub mod Laws
use synchrono_city.Prelude.{
  ℕ, ◌/◌, Bool, true, false, ◌&&◌, Option, none, some, or_else, List, [], ◌∷◌, if◌then◌else◌,
}
use synchrono_city.Prelude.Int.{ℤ, pos}
use synchrono_city.Prelude.Text.{JsString, codes, ◌===◌, trim, truthy}
use synchrono_city.Social.Values.{
  JsValue, boolean, number, string, array, object, Elements, end, element, bare,
}
use synchrono_city.Data.Types.{Place}
use synchrono_city.Nostr.Platform.{Platform}
use synchrono_city.Nostr.Tags.{
  list_of, strings, ReplyTarget, normalize_beacon_tags, build_beacon_definition_tags,
  build_geo_note_tags, build_geo_reaction_tags,
}
use synchrono_city.Nostr.Events.{
  UnsignedRelayEvent, BeaconDefinitionContent, trimmed, normalize_relay_beacon_definition_event,
}
use synchrono_city.Nostr.Session.{
  Failure, message, thrown, Action, ignore, complete, refuse, Protocol,
}
use synchrono_city.Nostr.Queries.{
  Query, refused, answered, asked, Checked, throws, returns, normalize_relay_url, normalize_geohash,
  require, addressed, third, literal, field,
}
use synchrono_city.Nostr.Signing.{NostrEventTemplate, NostrSignedEvent, tag_values, event_value}

-- `payload[3]`, and the reason that it gives
abbrev pub fourth : Elements → JsValue
fourth (element head (element second (element v (element w es)))) = w
fourth _ = JsValue.undefined

abbrev pub reason : JsValue → JsString
reason (string text) = if truthy (trim text) then text else codes "Relay rejected the event."
reason _ = codes "Relay rejected the event."

abbrev pub is_true : JsValue → Bool
is_true (boolean b) = b
is_true _ = false

unfoldable pub publish_protocol : NostrSignedEvent → Protocol Unit Unit
publish_protocol event = record {
  initial = tt;
  request = array (element (literal "EVENT") (element (event_value event) end));
  on_payload = λ payload _. some (
      if addressed (codes "OK") event.id payload
      then if is_true (third payload) then complete [] else refuse (reason (fourth payload))
      else ignore);
  result = λ _. tt;
  timeout_text = codes "Relay publish timed out.";
  closed_text = codes "Relay closed before acknowledging the event.";
}

-- What is returned after the acknowledgement.
abbrev pub returning : {R : Type 0} → R → Query Unit Unit → Query Unit R
returning r (refused failure) = refused failure
returning r (answered _) = answered r
returning r (asked url protocol) = asked url (record {
  initial = protocol.initial;
  request = protocol.request;
  on_payload = protocol.on_payload;
  result = λ _. r;
  timeout_text = protocol.timeout_text;
  closed_text = protocol.closed_text;
})

-- A signed event as the functions take it that read a relay's.
abbrev pub relay_event : NostrSignedEvent → UnsignedRelayEvent
relay_event e = record {
  id = e.id;
  pubkey = e.pubkey;
  created_at = number e.event.created_at;
  tags = list_of (tag_values e.event.tags);
  content = e.event.content;
}

-- `if (!beacon) { throw …; } return beacon;`
abbrev pub or_invalid : Option (Option Place) → Checked Place
or_invalid none = throws thrown
or_invalid (some none) = throws (message (codes "Published beacon definition was invalid."))
or_invalid (some (some beacon)) = returns beacon

module _ (p : Platform) where
  unfoldable pub publish_signed_event : JsString → NostrSignedEvent → Query Unit Unit
  unfolding publish_protocol
  publish_signed_event relay_url event = elim (normalize_relay_url p relay_url) [
    | throws failure ↦ refused failure
    | returns url ↦ asked url (publish_protocol event)
  ]

  -- `now` is `Date.now()`.
  abbrev pub template : ℤ → ℕ → List (List JsString) → JsString → NostrEventTemplate
  template kind now tags content = record {
    kind = kind;
    created_at = pos (now / 1000);
    tags = tags;
    content = content;
  }

  -- The event that `publishGeoNote` has signed.
  unfoldable pub geo_note_event :
      JsString → JsString → JsString → ℕ → Option ReplyTarget → Checked NostrEventTemplate
  geo_note_event relay_url geohash content now target =
      elim (normalize_geohash p geohash (codes "Geohash is required to publish a note.")) [
        | throws failure ↦ throws failure
        | returns place ↦ elim (normalize_relay_url p relay_url) [
          | throws failure ↦ throws failure
          | returns url ↦ returns (
              template (pos 1) now (build_geo_note_tags p.runtime p.bech32 place url target)
                (trim content))
        ]
      ]

  unfoldable pub geo_reaction_event :
      JsString → JsString → JsString → JsString → JsString → ℕ → Checked NostrEventTemplate
  geo_reaction_event relay_url id author_pubkey geohash emoji now =
      elim (normalize_relay_url p relay_url) [
        | throws failure ↦ throws failure
        | returns url ↦
            elim (normalize_geohash p geohash
              (codes "Geohash is required to publish a reaction.")) [
                | throws failure ↦ throws failure
                | returns place ↦
                    elim (require (trim emoji) (codes "Emoji reaction is required.")) [
                      | throws failure ↦ throws failure
                      | returns reaction ↦ returns (
                          template (pos 7) now
                            (build_geo_reaction_tags p.runtime p.bech32 place url id author_pubkey)
                            reaction)
                    ]
              ]
      ]

  abbrev pub beacon_content : BeaconDefinitionContent → JsString → JsValue
  beacon_content details name = object (
      field "name" (string name) (
        field "picture" (string (trimmed details.picture)) (
          field "about" (string (trimmed details.about)) (
            field "tags"
              (array (strings (normalize_beacon_tags p.runtime (or_else details.tags [])))) bare))))

  unfoldable pub beacon_definition_event :
      JsString → BeaconDefinitionContent → ℕ → Checked NostrEventTemplate
  beacon_definition_event geohash details now =
      elim (normalize_geohash p geohash (codes "Beacon geohash is required.")) [
        | throws failure ↦ throws failure
        | returns place ↦ elim (require (trim details.name) (codes "Beacon name is required.")) [
          | throws failure ↦ throws failure
          | returns name ↦ returns (
              template (pos 39001) now
                (build_beacon_definition_tags p.runtime place
                  (normalize_beacon_tags p.runtime (or_else details.tags [])))
                (p.json_stringify (beacon_content details name)))
        ]
      ]

  -- `sign` is `signEvent` with the signing options.
  module _ (sign : NostrEventTemplate → Option NostrSignedEvent) where
    abbrev pub publish_signed : JsString → Option NostrSignedEvent → Query Unit NostrSignedEvent
    publish_signed relay_url none = refused thrown
    publish_signed relay_url (some event) = returning event (publish_signed_event relay_url event)

    abbrev pub publish : JsString → Checked NostrEventTemplate → Query Unit NostrSignedEvent
    publish relay_url (throws failure) = refused failure
    publish relay_url (returns event) = publish_signed relay_url (sign event)

    unfoldable pub publish_geo_note :
        JsString → JsString → JsString → ℕ → Option ReplyTarget → Query Unit NostrSignedEvent
    unfolding geo_note_event publish_signed_event
    publish_geo_note relay_url geohash content now target =
        publish relay_url (geo_note_event relay_url geohash content now target)

    unfoldable pub publish_geo_reaction :
        JsString → JsString → JsString → JsString → JsString → ℕ → Query Unit NostrSignedEvent
    unfolding geo_reaction_event publish_signed_event
    publish_geo_reaction relay_url id author_pubkey geohash emoji now =
        publish relay_url (geo_reaction_event relay_url id author_pubkey geohash emoji now)

    abbrev pub publish_beacon : JsString → Option NostrSignedEvent → Query Unit (Checked Place)
    publish_beacon relay_url none = refused thrown
    publish_beacon relay_url (some event) =
        returning (or_invalid (normalize_relay_beacon_definition_event p (relay_event event)))
          (publish_signed_event relay_url event)

    -- The promise of an acknowledged beacon is rejected with what is thrown.
    unfoldable pub publish_beacon_definition :
        JsString → JsString → BeaconDefinitionContent → ℕ → Query Unit (Checked Place)
    unfolding beacon_definition_event publish_signed_event
    publish_beacon_definition relay_url geohash details now =
        elim (beacon_definition_event geohash details now) [
          | throws failure ↦ refused failure
          | returns event ↦ publish_beacon relay_url (sign event)
        ]
