-- ===== src/Nostr/Queries/KindOne.antt =====
-- apps/web/src/nostr.ts: `queryRecentKindOneNotes` and `queryAuthorKindOneNotes`.
use mathlib.Core.Option
use synchrono_city.Prelude.{Option, none, some, List, [], ◌∷◌, if◌then◌else◌}
use synchrono_city.Prelude.Text.{JsString, codes, trim, truthy}
use synchrono_city.Prelude.Maps.{JsMap, map_set}
use synchrono_city.Rollup.{JsNumber}
use synchrono_city.Social.Values.{JsValue, string, object, end, element, bare}
use synchrono_city.Data.Types.{GeoNote}
use synchrono_city.NostrUtils.{normalize_public_key_hex}
use synchrono_city.Nostr.Platform.{Platform}
use synchrono_city.Nostr.Events.{
  UnsignedRelayEvent, is_signed_kind_one_event, normalize_relay_kind_one_note,
}
use synchrono_city.Nostr.Notes.{finalize_queried_geo_notes}
use synchrono_city.Nostr.Session.{Action, ignore, collect, Protocol}
use synchrono_city.Nostr.Queries.{
  Query, refused, answered, asked, throws, returns, normalize_relay_url, limit_or, addressed, third,
  frame, close_frame, field, one, whole, on_eose,
}

abbrev pub add_note : JsMap GeoNote → Option GeoNote → Action (JsMap GeoNote)
add_note notes none = ignore
add_note notes (some note) = collect (map_set note.id note notes)

module _ (p : Platform) where
  -- `pulseNetworkGeohash` is the geohash of a note without one.
  abbrev pub on_kind_one :
      Option UnsignedRelayEvent → JsMap GeoNote → Option (Action (JsMap GeoNote))
  on_kind_one none notes = some ignore
  on_kind_one (some event) notes =
      Option.map (add_note notes) (normalize_relay_kind_one_note p event (codes "pulse-network"))

  -- What the two queries share.
  unfoldable pub kind_one_protocol :
      JsValue → JsString → JsString → JsString → Protocol (JsMap GeoNote) (List GeoNote)
  kind_one_protocol filter id timeout_text closed_text = record {
    initial = [];
    request = frame "REQ" id (element filter end);
    on_payload = λ payload notes.
        if addressed (codes "EVENT") id payload
        then on_kind_one (is_signed_kind_one_event (third payload)) notes
        else some (on_eose id (close_frame id ∷ []) payload);
    result = λ notes. finalize_queried_geo_notes p.runtime notes [];
    timeout_text = timeout_text;
    closed_text = closed_text;
  }

  unfoldable pub query_recent_kind_one_notes :
      JsString → Option JsNumber → JsString → Query (JsMap GeoNote) (List GeoNote)
  query_recent_kind_one_notes relay_url limit id = elim (normalize_relay_url p relay_url) [
    | throws failure ↦ refused failure
    | returns url ↦ asked url (
        kind_one_protocol
          (object (field "kinds" (one (whole 1)) (field "limit" (whole (limit_or limit 50)) bare)))
          id (codes "Relay note query timed out.") (codes "Relay closed before returning notes."))
  ]

  abbrev pub ask_author :
      JsString → Option JsNumber → JsString → Option JsString → Query (JsMap GeoNote) (List GeoNote)
  ask_author url limit id none = answered []
  ask_author url limit id (some author) =
      if truthy author
      then asked url (
          kind_one_protocol
            (object (
              field "kinds" (one (whole 1)) (
                field "authors" (one (string author))
                  (field "limit" (whole (limit_or limit 5)) bare))))
            id (codes "Relay author note query timed out.")
            (codes "Relay closed before returning author notes."))
      else answered []

  unfoldable pub query_author_kind_one_notes :
      JsString → JsString → Option JsNumber → JsString → Query (JsMap GeoNote) (List GeoNote)
  query_author_kind_one_notes relay_url author limit id = elim (normalize_relay_url p relay_url) [
    | throws failure ↦ refused failure
    | returns url ↦
        ask_author url limit id (normalize_public_key_hex p.runtime p.bech32 (trim author))
  ]
