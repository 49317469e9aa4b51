-- ===== src/Nostr/Queries/GeoNotes.antt =====
-- apps/web/src/nostr.ts: `queryGeoNotes`.
use mathlib.Core.Option
use synchrono_city.Prelude.{Option, none, some, or_else, List, [], if◌then◌else◌}
use synchrono_city.Prelude.Text.{JsString, codes}
use synchrono_city.Prelude.Maps.{JsMap, map_get, map_set}
use synchrono_city.Prelude.{ℕ}
use synchrono_city.Social.Values.{JsValue, string, array, object, end, element, bare}
use synchrono_city.Data.Types.{GeoNote}
use synchrono_city.Nostr.Platform.{Platform}
use synchrono_city.Nostr.Events.{
  UnsignedRelayEvent, RelayReaction, is_signed_kind_one_event, is_signed_kind_seven_event,
  normalize_relay_kind_one_note, normalize_relay_kind_seven_reaction,
}
use synchrono_city.Nostr.Notes.{increment, finalize_queried_geo_notes}
use synchrono_city.Nostr.Session.{Action, ignore, collect, Protocol}
use synchrono_city.Nostr.Queries.{
  Query, refused, asked, Checked, throws, returns, normalize_relay_url, normalize_geohash,
  addressed, third, frame, field, one, whole, on_eose,
}

pub record NotesFound : Type 0 where
  pub notes_by_id : JsMap GeoNote
  pub reactions_by_note_id : JsMap (JsMap ℕ)

unfoldable pub add_reaction : RelayReaction → NotesFound → NotesFound
unfolding increment
add_reaction reaction found =
    let existing = or_else (map_get reaction.target_event_id found.reactions_by_note_id) [] in
    record found {
      reactions_by_note_id =
          map_set reaction.target_event_id (increment reaction.emoji existing)
            found.reactions_by_note_id;
    }

abbrev pub found_note : NotesFound → Option GeoNote → Action NotesFound
found_note found none = ignore
found_note found (some note) =
    collect (record found { notes_by_id = map_set note.id note found.notes_by_id })

abbrev pub found_reaction : NotesFound → Option RelayReaction → Action NotesFound
found_reaction found none = ignore
found_reaction found (some reaction) = collect (add_reaction reaction found)

module _ (p : Platform) where
  abbrev pub on_kind_seven :
      JsString → Option UnsignedRelayEvent → NotesFound → Option (Action NotesFound)
  on_kind_seven geohash none found = some ignore
  on_kind_seven geohash (some event) found =
      Option.map (found_reaction found) (normalize_relay_kind_seven_reaction p event geohash)

  abbrev pub on_geo_event :
      JsString → JsValue → Option UnsignedRelayEvent → NotesFound → Option (Action NotesFound)
  on_geo_event geohash v (some event) found =
      Option.map (found_note found) (normalize_relay_kind_one_note p event geohash)
  on_geo_event geohash v none found = on_kind_seven geohash (is_signed_kind_seven_event v) found

  abbrev pub geo_notes_filter : JsString → JsValue
  geo_notes_filter geohash = object (
      field "kinds" (array (element (whole 1) (element (whole 7) end)))
        (field "#g" (one (string geohash)) bare))

  unfoldable pub geo_notes_protocol : JsString → JsString → Protocol NotesFound (List GeoNote)
  unfolding add_reaction
  geo_notes_protocol geohash id = record {
    initial = record { notes_by_id = []; reactions_by_note_id = [] };
    request = frame "REQ" id (element (geo_notes_filter geohash) end);
    on_payload = λ payload found.
        if addressed (codes "EVENT") id payload
        then on_geo_event geohash (third payload) (is_signed_kind_one_event (third payload)) found
        else some (on_eose id [] payload);
    result =
        λ found. finalize_queried_geo_notes p.runtime found.notes_by_id found.reactions_by_note_id;
    timeout_text = codes "Relay geohash note query timed out.";
    closed_text = codes "Relay closed before returning geohash notes.";
  }

  abbrev pub ask_geo_notes :
      JsString → JsString → Checked JsString → Query NotesFound (List GeoNote)
  ask_geo_notes url id (throws failure) = refused failure
  ask_geo_notes url id (returns geohash) = asked url (geo_notes_protocol geohash id)

  unfoldable pub query_geo_notes : JsString → JsString → JsString → Query NotesFound (List GeoNote)
  query_geo_notes relay_url geohash id = elim (normalize_relay_url p relay_url) [
    | throws failure ↦ refused failure
    | returns url ↦
        ask_geo_notes url id
          (normalize_geohash p geohash (codes "Geohash is required to query notes."))
  ]
