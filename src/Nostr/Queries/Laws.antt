-- ===== src/Nostr/Queries/Laws.antt =====
-- What the queries of apps/web/src/nostr.ts return.
pub mod Newest
use mathlib.Core.Option
use synchrono_city.Prelude.{
  ℕ, suc, ◌+◌, ◌≡◌, refl, sym, ap, ◌∙◌, Bool, true, false, ◌&&◌, Option, none, some, or_else, List,
  [], ◌∷◌, ◌++◌, map, arith, count, if◌then◌else◌, Bool-cases, inl, inr, ◌>>=◌,
}
use synchrono_city.Prelude.Text.{JsString, codes, ◌===◌, ===_refl, ===_iff}
use synchrono_city.Prelude.Maps.{JsMap, map_get, map_set, map_get-map_set}
use synchrono_city.Social.Values.{JsValue, null, string, Elements, end, element}
use synchrono_city.Nostr.Platform.{Platform}
use synchrono_city.Nostr.Tags.{item, tag_text, extract_tag_value, extract_geohash_tag}
use synchrono_city.Nostr.Events.{
  UnsignedRelayEvent, RelayReaction, is_signed_kind_one_event, normalize_relay_kind_one_note,
}
use synchrono_city.Nostr.Notes.{increment, finalize_queried_geo_notes}
use synchrono_city.Nostr.Notes.Laws.{counted, counted-increment}
use synchrono_city.Nostr.Session.{
  thrown, Outcome, resolved, rejected, SocketEvent, opened, start, run,
}
use synchrono_city.Nostr.Session.Gathering.{payload_event, gather, Decides, run-gather}
use synchrono_city.Nostr.Queries.{literal}
use synchrono_city.Nostr.Queries.GeoNotes.{
  NotesFound, add_reaction, on_geo_event, geo_notes_protocol,
}

-- The payloads that end the stored events, and that carry an event.
abbrev pub eose : JsString → Elements
eose id = element (literal "EOSE") (element (string id) end)

abbrev pub event_payload : JsString → JsValue → Elements
event_payload id v = element (literal "EVENT") (element (string id) (element v end))

module _ (p : Platform) (geohash id : JsString) where
  eose-Decides :
      (found : NotesFound)
      → Decides (geo_notes_protocol p geohash id) (eose id) found (
          resolved
            (finalize_queried_geo_notes p.runtime found.notes_by_id found.reactions_by_note_id))
  unfolding geo_notes_protocol ◌===◌
  eose-Decides found n = rw (===_refl id) refl

  -- Whatever payloads the relay answers a query for the notes of a geohash with: if none of them
  -- decides its outcome, then the end of the stored events resolves it with the notes collected from
  -- them, finished, and nothing that comes later changes that.
  pub query_geo_notes-resolves :
      (payloads : List Elements) (later : List SocketEvent) (found : NotesFound)
      → let protocol = geo_notes_protocol p geohash id in
        gather protocol payloads protocol.initial ≡ some found
        → (run protocol
            (opened ∷ map payload_event payloads ++ payload_event (eose id) ∷ later)
            (start protocol)).outcome
          ≡ some (
              resolved
                (finalize_queried_geo_notes p.runtime found.notes_by_id found.reactions_by_note_id))
  query_geo_notes-resolves payloads later found h =
      run-gather (geo_notes_protocol p geohash id) payloads (eose id) later found
        (resolved
          (finalize_queried_geo_notes p.runtime found.notes_by_id found.reactions_by_note_id))
        h (eose-Decides found)

  null_tag-throws :
      (event : UnsignedRelayEvent) (tags : List JsValue)
      → event.tags ≡ null ∷ tags
      → normalize_relay_kind_one_note p event geohash ≡ none
  unfolding normalize_relay_kind_one_note extract_geohash_tag extract_tag_value tag_text item
  null_tag-throws event tags h = rw h refl

  malformed-Decides :
      (v : JsValue) (event : UnsignedRelayEvent) (tags : List JsValue) (found : NotesFound)
      → is_signed_kind_one_event v ≡ some event
      → event.tags ≡ null ∷ tags
      → Decides (geo_notes_protocol p geohash id) (event_payload id v) found (rejected thrown)
  unfolding geo_notes_protocol ◌===◌
  malformed-Decides v event tags found signed h n =
      rw (===_refl id) (rw signed (rw (null_tag-throws event tags h) refl))

  -- One note that passes the query's test and whose first tag is `null` rejects the whole query with
  -- the exception that reading the tag throws: the notes collected before it are lost, and the end of
  -- the stored events changes nothing.
  pub query_geo_notes-malformed :
      (payloads : List Elements) (later : List SocketEvent) (found : NotesFound) (v : JsValue)
      (event : UnsignedRelayEvent) (tags : List JsValue)
      → let protocol = geo_notes_protocol p geohash id in
        gather protocol payloads protocol.initial ≡ some found
        → is_signed_kind_one_event v ≡ some event
        → event.tags ≡ null ∷ tags
        → (run protocol
            (opened ∷ map payload_event payloads ++ payload_event (event_payload id v) ∷ later)
            (start protocol)).outcome
          ≡ some (rejected thrown)
  query_geo_notes-malformed payloads later found v event tags h signed bad =
      run-gather (geo_notes_protocol p geohash id) payloads (event_payload id v) later found
        (rejected thrown) h (malformed-Decides v event tags found signed bad)

-- The reactions with the emoji that are counted for the note.
abbrev pub reactions_counted : JsString → JsString → NotesFound → ℕ
reactions_counted note emoji found =
    counted emoji (or_else (map_get note found.reactions_by_note_id) [])

abbrev pub is_reaction : JsString → JsString → RelayReaction → Bool
is_reaction note emoji r = r.target_event_id === note && r.emoji === emoji

abbrev pub add_reactions : List RelayReaction → NotesFound → NotesFound
add_reactions [] found = found
add_reactions (r ∷ rs) found = add_reactions rs (add_reaction r found)

reactions_counted-add_reaction :
    (note emoji : JsString) (r : RelayReaction) (found : NotesFound)
    → reactions_counted note emoji (add_reaction r found)
      ≡ (if is_reaction note emoji r then 1 else 0) + reactions_counted note emoji found
unfolding add_reaction
reactions_counted-add_reaction note emoji r found =
    let existing = or_else (map_get r.target_event_id found.reactions_by_note_id) [] in
    let get =
      map_get-map_set r.target_event_id note (increment r.emoji existing)
        found.reactions_by_note_id in
    elim (Bool-cases (r.target_event_id === note)) [
      | inl same ↦
          rw (get, same)
            (counted-increment r.emoji emoji existing
              ∙ ap
                  (λ (k : JsString).
                    (if r.emoji === emoji then 1 else 0)
                    + counted emoji (or_else (map_get k found.reactions_by_note_id) []))
                  ((===_iff r.target_event_id note).0 same))
      | inr other ↦ rw (get, other) (omega arith)
    ]

-- A note's reactions with an emoji are counted one by one: after the reactions, the count is as many
-- higher as there are reactions to the note with the emoji among them.
pub reactions_counted-add_reactions :
    (note emoji : JsString) (rs : List RelayReaction) (found : NotesFound)
    → reactions_counted note emoji (add_reactions rs found)
      ≡ count (is_reaction note emoji) rs + reactions_counted note emoji found
reactions_counted-add_reactions note emoji [] found = omega arith
reactions_counted-add_reactions note emoji (r ∷ rs) found = omega (
  arith,
  reactions_counted-add_reactions note emoji rs (add_reaction r found),
  reactions_counted-add_reaction note emoji r found,
)
