-- ===== src/Nostr/Tests.antt =====
-- The theorems on apps/web/src/nostr.ts at concrete events. The platform is a small one: times are
-- written alike, nothing parses as JSON, and no key has a Bech32 form.
use mathlib.Core.Option
use mathlib.Core.List.{Perm}
use synchrono_city.Prelude.{◌≡◌, refl, true, none, some, List, [], ◌∷◌, ◌++◌, map, any, count, ◌+◌}
use synchrono_city.Prelude.Int.{ℤ, pos}
use synchrono_city.Prelude.Text.{JsString, codes, trim, ◌===◌, dedupe}
use synchrono_city.Prelude.Sort.{IsSorted}
use synchrono_city.Prelude.Maps.{map_get, map_set}
use synchrono_city.Prelude.Sample.{sample_runtime, sample-HasLocaleOrder}
use synchrono_city.Social.Values.{
  JsValue, null, number, string, array, object, Elements, end, element, bare, property_of,
}
use synchrono_city.Data.Types.{GeoNote, Place}
use synchrono_city.Data.Calls.{create_ephemeral_place}
use synchrono_city.NostrUtils.{normalize_public_key_hex, normalize_public_key_npub, is_valid_hex}
use synchrono_city.Nostr.Platform.{Platform}
use synchrono_city.Nostr.Tags.{
  ReplyTarget, build_geo_note_tags, extract_geohash_tag, extract_event_references, item, tag_text,
  extract_tag_value, extract_tag_values, event_tags, build_reply_reference_tag,
}
use synchrono_city.Nostr.Tags.Laws.{IsId, root_of}
use synchrono_city.Nostr.Events.{
  UnsignedRelayEvent, RelayReaction, is_signed_kind_one_event, signed_event,
  normalize_relay_kind_one_note,
}
use synchrono_city.Nostr.Notes.{finalize_queried_geo_notes}
use synchrono_city.Nostr.Notes.Laws.{with_counts, latest_first, finalize_queried_geo_notes_lem}
use synchrono_city.Nostr.Session.{
  Protocol, Outcome, resolved, rejected, thrown, SocketEvent, opened, closed, start, run,
}
use synchrono_city.Nostr.Session.Laws.{first_decision, start-first_decision, IsSettled, run-settles}
use synchrono_city.Nostr.Session.Gathering.{payload_event, gather}
use synchrono_city.Nostr.Signing.{NostrSignedEvent, event_value}
use synchrono_city.Nostr.Publishing.{publish_protocol, relay_event}
use synchrono_city.Nostr.Publishing.Laws.{
  is_acceptance, publish_signed_event-accepted, Refers, publish_geo_note-normalize,
}
use synchrono_city.Nostr.Queries.{literal, field}
use synchrono_city.Nostr.Queries.GeoNotes.{NotesFound, geo_notes_protocol}
use synchrono_city.Nostr.Queries.Laws.{
  eose, event_payload, query_geo_notes-resolves, query_geo_notes-malformed, reactions_counted,
  is_reaction, add_reactions, reactions_counted-add_reactions,
}
use synchrono_city.Nostr.Queries.Laws.Newest.{keep_beacons, newest, no_beacons, keep_beacons-newest}

abbrev platform : Platform
platform = record {
  runtime = sample_runtime;
  bech32 = record { encode = λ prefix bytes. prefix; decode = λ value. none };
  json_parse = λ s. none;
  to_iso_string = λ t. some (codes "1970");
  parse_url = λ s. some (codes "wss:", s);
  json_stringify = λ v. [];
}

abbrev target : ReplyTarget
target = record {
  id = codes "n1";
  author_pubkey = codes "ann";
  root_note_id = some (codes "n0");
  tagged_pubkeys = none;
}

abbrev place : JsString
place = codes "u1"

abbrev url : JsString
url = codes "wss://r"

abbrev signed_reply : NostrSignedEvent
signed_reply = record {
  event = record {
    kind = pos 1;
    created_at = pos 5;
    tags = build_geo_note_tags platform.runtime platform.bech32 place url (some target);
    content = codes "hi";
  };
  id = codes "n2";
  pubkey = codes "bob";
  sig = codes "s";
}

abbrev read_reply : GeoNote
read_reply = record {
  id = codes "n2";
  geohash = place;
  author_pubkey = codes "bob";
  content = codes "hi";
  created_at = codes "1970";
  replies = pos 0;
  reply_target_id = some (codes "n1");
  root_note_id = some (codes "n0");
  tagged_pubkeys = none;
  reactions = none;
}

place-IsId : IsId sample_runtime place
unfolding sample_runtime trim
place-IsId = (refl, refl, refl)

n1-IsId : IsId sample_runtime (codes "n1")
unfolding sample_runtime trim
n1-IsId = (refl, refl, refl)

n0-IsId : IsId sample_runtime (codes "n0")
unfolding sample_runtime trim
n0-IsId = (refl, refl, refl)

reply_is_read :
    normalize_relay_kind_one_note platform (relay_event signed_reply) [] ≡ some (some read_reply)
unfolding normalize_relay_kind_one_note build_geo_note_tags extract_geohash_tag
    extract_event_references extract_tag_values extract_tag_value event_tags tag_text item
    sample_runtime trim build_reply_reference_tag normalize_public_key_hex normalize_public_key_npub
    is_valid_hex ◌===◌ dedupe
reply_is_read = refl

publish_geo_note-normalize_example :
    (is_signed_kind_one_event (event_value signed_reply) ≡ some (relay_event signed_reply))
    × Refers place
        (record { root_id = some (root_of target); reply_id = some target.id })
        read_reply
publish_geo_note-normalize_example =
    publish_geo_note-normalize platform signed_reply target place url [] read_reply refl refl
      place-IsId n1-IsId n0-IsId reply_is_read

abbrev collected : List (JsString × GeoNote)
collected =
    (codes "n2", read_reply)
    ∷ (codes "n1", record read_reply { id = codes "n1"; reply_target_id = none })
    ∷ []

finalize_queried_geo_notes_example :
    Perm
      (finalize_queried_geo_notes sample_runtime collected [])
      (map (with_counts sample_runtime (map (λ e. e.1) collected) []) (map (λ e. e.1) collected))
    × IsSorted
        (latest_first sample_runtime)
        (finalize_queried_geo_notes sample_runtime collected [])
finalize_queried_geo_notes_example =
    finalize_queried_geo_notes_lem sample_runtime sample-HasLocaleOrder collected []

abbrev acceptance : SocketEvent
acceptance =
    payload_event
      (element (literal "OK") (element (string (codes "n2")) (element (JsValue.boolean true) end)))

abbrev publication : List SocketEvent
publication = opened ∷ acceptance ∷ closed ∷ []

start-first_decision_example :
    (run
      (publish_protocol signed_reply)
      publication
      (start (publish_protocol signed_reply))).outcome
    ≡ first_decision (publish_protocol signed_reply) publication tt []
unfolding publish_protocol
start-first_decision_example = start-first_decision (publish_protocol signed_reply) publication

run-settles_example :
    (o : Outcome Unit) × IsSettled
      (publish_protocol signed_reply)
      o
      (run (publish_protocol signed_reply) publication (start (publish_protocol signed_reply)))
run-settles_example = run-settles (publish_protocol signed_reply) publication refl

accepted_publication :
    (run
      (publish_protocol signed_reply)
      publication
      (start (publish_protocol signed_reply))).outcome
    ≡ some (resolved tt)
unfolding publish_protocol run start ◌===◌
accepted_publication = refl

publish_signed_event-accepted_example : any (is_acceptance (codes "n2")) publication ≡ true
publish_signed_event-accepted_example =
    publish_signed_event-accepted signed_reply publication accepted_publication

-- A query that gets a note, and then one whose tags are not lists.
abbrev protocol : Protocol NotesFound (List GeoNote)
protocol = geo_notes_protocol platform place (codes "q")

abbrev answers : List Elements
answers = event_payload (codes "q") (event_value signed_reply) ∷ []

abbrev one_note : NotesFound
one_note = record { notes_by_id = (codes "n2", read_reply) ∷ []; reactions_by_note_id = [] }

answers-gather : gather protocol answers protocol.initial ≡ some one_note
unfolding gather geo_notes_protocol is_signed_kind_one_event signed_event event_value property_of
    map_set normalize_relay_kind_one_note build_geo_note_tags extract_geohash_tag
    extract_event_references extract_tag_values extract_tag_value event_tags tag_text item
    sample_runtime trim build_reply_reference_tag normalize_public_key_hex normalize_public_key_npub
    is_valid_hex ◌===◌ dedupe
answers-gather = refl

query_geo_notes-resolves_example :
    (run protocol
      (opened ∷ map payload_event answers ++ payload_event (eose (codes "q")) ∷ closed ∷ [])
      (start protocol)).outcome
    ≡ some (resolved (finalize_queried_geo_notes sample_runtime one_note.notes_by_id []))
query_geo_notes-resolves_example =
    query_geo_notes-resolves platform place (codes "q") answers (closed ∷ []) one_note
      answers-gather

abbrev malformed : JsValue
malformed = object (
    field "kind" (number (pos 1)) (
      field "id" (string (codes "n3")) (
        field "pubkey" (string (codes "eve")) (
          field "content" (string [])
            (field "created_at" (number (pos 6)) (field "tags" (array (element null end)) bare))))))

abbrev malformed_event : UnsignedRelayEvent
malformed_event = record {
  id = codes "n3";
  pubkey = codes "eve";
  created_at = number (pos 6);
  tags = null ∷ [];
  content = [];
}

malformed-signed : is_signed_kind_one_event malformed ≡ some malformed_event
unfolding is_signed_kind_one_event signed_event property_of ◌===◌
malformed-signed = refl

query_geo_notes-malformed_example :
    (run protocol
      (opened ∷ map payload_event answers
        ++ payload_event (event_payload (codes "q") malformed)
          ∷ payload_event (eose (codes "q"))
          ∷ [])
      (start protocol)).outcome
    ≡ some (rejected thrown)
query_geo_notes-malformed_example =
    query_geo_notes-malformed platform place (codes "q") answers
      (payload_event (eose (codes "q")) ∷ []) one_note malformed malformed_event [] answers-gather
      malformed-signed refl

abbrev two_reactions : List RelayReaction
two_reactions =
    record { geohash = place; target_event_id = codes "n2"; emoji = codes "+" }
    ∷ record { geohash = place; target_event_id = codes "n2"; emoji = codes "+" }
    ∷ []

reactions_counted-add_reactions_example :
    reactions_counted (codes "n2") (codes "+") (add_reactions two_reactions one_note)
    ≡ count (is_reaction (codes "n2") (codes "+")) two_reactions
      + reactions_counted (codes "n2") (codes "+") one_note
reactions_counted-add_reactions_example =
    reactions_counted-add_reactions (codes "n2") (codes "+") two_reactions one_note

abbrev beacons : List (ℤ × Place)
beacons =
    (pos 9, create_ephemeral_place (codes "u1"))
    ∷ (pos 3, record (create_ephemeral_place (codes "u1")) { title = codes "old" })
    ∷ []

keep_beacons-newest_example :
    map_get (codes "u1") (keep_beacons beacons no_beacons).beacons_by_geohash
    ≡ Option.map (λ d. d.1) (newest (codes "u1") beacons)
keep_beacons-newest_example = keep_beacons-newest (codes "u1") beacons
