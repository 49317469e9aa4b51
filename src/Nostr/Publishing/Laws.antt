-- ===== src/Nostr/Publishing/Laws.antt =====
-- What apps/web/src/nostr.ts publishes: when the promise resolves, and how the event is read back.
use synchrono_city.Prelude.{
  some-injective, ◌≡◌, refl, sym, ap, ◌∙◌, Bool, true, false, ◌&&◌, ◌||◌, Option, none, some, List,
  [], ◌∷◌, map, arith, any, filter, if◌then◌else◌, ◌>>=◌,
}
use synchrono_city.Prelude.Int.{pos}
use synchrono_city.Prelude.Text.{JsString, codes, ◌===◌, trim, truthy, dedupe}
use synchrono_city.Social.Values.{
  undefined, null, nan, infinite, boolean, number, string, array, object, Elements, end, element,
  property_of, nonempty_or_undefined,
}
use synchrono_city.Data.Types.{GeoNote}
use synchrono_city.NostrUtils.{normalize_public_key_npub}
use synchrono_city.Nostr.Platform.{Platform}
use synchrono_city.Nostr.Tags.{
  EventReferences, list_of, tag_value_of, ReplyTarget, build_geo_note_tags, extract_geohash_tag,
  extract_event_references, extract_tag_values,
}
use synchrono_city.Nostr.Tags.Laws.{IsId, IsOptionalId, root_of, extract-build_geo_note_tags}
use synchrono_city.Nostr.Events.{
  UnsignedRelayEvent, is_signed_kind_one_event, signed_event, normalize_relay_kind_one_note,
  note_of, npubs, iso_time,
}
use synchrono_city.Nostr.Session.{
  ignore, complete, refuse, Outcome, resolved, SocketEvent, opened, failed, closed, timed_out,
  received, notice, start, run,
}
use synchrono_city.Nostr.Session.Laws.{
  Verdict, pending, decided, of_action, of_payload, judge, first_decision, start-first_decision,
}
use synchrono_city.Nostr.Queries.{addressed, third}
use synchrono_city.Nostr.Signing.{NostrSignedEvent, tag_values, event_value}
use synchrono_city.Nostr.Publishing.{publish_protocol, relay_event, is_true, fourth, reason}

-- Whether the event is the relay's acceptance of the event with the ID.
abbrev pub is_acceptance : JsString → SocketEvent → Bool
is_acceptance id (received (some (array es))) = addressed (codes "OK") id es && is_true (third es)
is_acceptance id _ = false

module _ (e : NostrSignedEvent) where
  by_answer :
      (ok accepted : Bool) (text : JsString) (n : JsString)
      → of_action
          (publish_protocol e)
          tt
          n
          (some (if ok then if accepted then complete [] else refuse text else ignore))
        ≡ decided (resolved tt)
      → (ok && accepted) ≡ true
  by_answer true true text n h = refl
  by_answer true false text n h = cc
  by_answer false accepted text n h = cc

  by_notice :
      (text : Option JsString) (es : Elements) (c : Unit) (n : JsString)
      → of_payload (publish_protocol e) es c n text ≡ decided (resolved tt)
      → is_acceptance e.id (received (some (array es))) ≡ true
  unfolding publish_protocol
  by_notice (some text) es c n h = cc
  by_notice none es c n h =
      by_answer (addressed (codes "OK") e.id es) (is_true (third es)) (reason (fourth es)) n h

  judge-acceptance :
      (event : SocketEvent) (c : Unit) (n : JsString)
      → judge (publish_protocol e) event c n ≡ decided (resolved tt)
      → is_acceptance e.id event ≡ true
  judge-acceptance opened c n h = cc
  judge-acceptance failed c n h = cc
  judge-acceptance closed c n h = cc
  judge-acceptance timed_out c n h = cc
  judge-acceptance (received none) c n h = cc
  judge-acceptance (received (some (array end))) c n h = cc
  judge-acceptance (received (some (array (element v es)))) c n h =
      by_notice (notice (element v es)) (element v es) c n h
  judge-acceptance (received (some undefined)) c n h = cc
  judge-acceptance (received (some null)) c n h = cc
  judge-acceptance (received (some nan)) c n h = cc
  judge-acceptance (received (some (infinite b))) c n h = cc
  judge-acceptance (received (some (boolean b))) c n h = cc
  judge-acceptance (received (some (number x))) c n h = cc
  judge-acceptance (received (some (string t))) c n h = cc
  judge-acceptance (received (some (object ps))) c n h = cc

  by_verdict :
      (verdict : Verdict Unit Unit) (accepted : Bool) (events : List SocketEvent)
      → (verdict ≡ decided (resolved tt) → accepted ≡ true)
      → ((c : Unit) (n : JsString)
          → first_decision (publish_protocol e) events c n ≡ some (resolved tt)
          → any (is_acceptance e.id) events ≡ true)
      → (elim verdict as (λ _. Option (Outcome Unit)) [
        | decided o ↦ some o
        | pending c n ↦ first_decision (publish_protocol e) events c n
      ])
        ≡ some (resolved tt)
      → (accepted || any (is_acceptance e.id) events) ≡ true
  by_verdict (decided o) accepted events now later h =
      ground (arith, now (ap decided (some-injective h)))
  by_verdict (pending c n) accepted events now later h = ground (arith, later c n h)

  first_decision-accepted :
      (events : List SocketEvent) (c : Unit) (n : JsString)
      → first_decision (publish_protocol e) events c n ≡ some (resolved tt)
      → any (is_acceptance e.id) events ≡ true
  unfolding first_decision
  first_decision-accepted [] c n h = cc
  first_decision-accepted (event ∷ events) c n h =
      by_verdict (judge (publish_protocol e) event c n) (is_acceptance e.id event) events
        (judge-acceptance event c n) (first_decision-accepted events) h

  -- The publication of an event succeeds only if the relay has sent `["OK", id, true, …]` for the
  -- event's ID.
  pub publish_signed_event-accepted :
      (events : List SocketEvent)
      → (run (publish_protocol e) events (start (publish_protocol e))).outcome ≡ some (resolved tt)
      → any (is_acceptance e.id) events ≡ true
  unfolding publish_protocol
  publish_signed_event-accepted events h =
      first_decision-accepted events tt []
        (sym (start-first_decision (publish_protocol e) events) ∙ h)

-- A signed note, sent by a relay, passes the test for notes and is the event that was signed.
event_value-signed :
    (e : NostrSignedEvent)
    → e.event.kind ≡ pos 1
    → is_signed_kind_one_event (event_value e) ≡ some (relay_event e)
unfolding is_signed_kind_one_event event_value signed_event property_of ◌===◌
event_value-signed e h = rw h refl

list_of-tag_values :
    (tags : List (List JsString)) → list_of (tag_values tags) ≡ map tag_value_of tags
list_of-tag_values [] = refl
list_of-tag_values (tag ∷ tags) = ap (◌∷◌ (tag_value_of tag)) (list_of-tag_values tags)

-- The note has the geohash and the references.
abbrev pub Refers : JsString → EventReferences → GeoNote → Type 0
Refers geohash refs note =
    (note.geohash ≡ geohash)
    × (note.reply_target_id ≡ refs.reply_id)
    × (note.root_note_id ≡ refs.root_id)

module _ (p : Platform) (event : UnsignedRelayEvent) (geohash : JsString) where
  by_parts :
      (refs : EventReferences) (tagged : Option (List JsString)) (author created : Option JsString)
      (note : GeoNote)
      → (tagged >>= λ tagged_pubkeys. author >>= λ author_pubkey. created >>= λ created_at. some (
          some (record {
            id = event.id;
            geohash = geohash;
            author_pubkey = author_pubkey;
            content = trim event.content;
            created_at = created_at;
            replies = pos 0;
            reply_target_id = refs.reply_id;
            root_note_id = refs.root_id;
            tagged_pubkeys = nonempty_or_undefined (dedupe (filter truthy tagged_pubkeys));
            reactions = none;
          })))
        ≡ some (some note)
      → Refers geohash refs note
  by_parts refs none author created note h = cc
  by_parts refs (some tagged) none created note h = cc
  by_parts refs (some tagged) (some author) none note h = cc
  by_parts refs (some tagged) (some author) (some created) note h =
      let e = some-injective (some-injective h) in
      (
        sym (ap (λ (n : GeoNote). n.geohash) e),
        sym (ap (λ (n : GeoNote). n.reply_target_id) e),
        sym (ap (λ (n : GeoNote). n.root_note_id) e),
      )

  by_keys :
      (refs : EventReferences) (keys : Option (List JsString)) (note : GeoNote)
      → (keys >>= λ ks. npubs p ks >>= λ tagged_pubkeys.
          normalize_public_key_npub p.runtime p.bech32 event.pubkey >>= λ author_pubkey.
          iso_time p event.created_at >>= λ created_at. some (
            some (record {
              id = event.id;
              geohash = geohash;
              author_pubkey = author_pubkey;
              content = trim event.content;
              created_at = created_at;
              replies = pos 0;
              reply_target_id = refs.reply_id;
              root_note_id = refs.root_id;
              tagged_pubkeys = nonempty_or_undefined (dedupe (filter truthy tagged_pubkeys));
              reactions = none;
            })))
        ≡ some (some note)
      → Refers geohash refs note
  by_keys refs none note h = cc
  by_keys refs (some ks) note h =
      by_parts refs (npubs p ks) (normalize_public_key_npub p.runtime p.bech32 event.pubkey)
        (iso_time p event.created_at) note h

  note_of-Refers :
      (refs : EventReferences) (note : GeoNote)
      → extract_event_references p.runtime event.tags ≡ some refs
      → note_of p event geohash ≡ some (some note)
      → Refers geohash refs note
  note_of-Refers refs note r h =
      by_keys refs (extract_tag_values p.runtime event.tags (codes "p")) note (rw r at h)

  normalize-Refers :
      (refs : EventReferences) (default_geohash : JsString) (note : GeoNote)
      → extract_geohash_tag p.runtime event.tags ≡ some (some geohash)
      → truthy geohash ≡ true
      → extract_event_references p.runtime event.tags ≡ some refs
      → normalize_relay_kind_one_note p event default_geohash ≡ some (some note)
      → Refers geohash refs note
  unfolding normalize_relay_kind_one_note
  normalize-Refers refs default_geohash note g t r h = note_of-Refers refs note r (rw (g, t) at h)

-- A reply that the client has signed, with the tags that `publishGeoNote` builds for it, passes the
-- test for notes when a relay sends it; and if it is normalized into a note, then the note is at the
-- reply's geohash, is a reply to the note replied to, and stands under that note's root, or under the
-- note itself if it has none. The geohash and the IDs are such that neither `trim` nor `toLowerCase`
-- changes them, and not empty.
pub publish_geo_note-normalize :
    (p : Platform) (e : NostrSignedEvent) (target : ReplyTarget)
    (geohash relay_url default_geohash : JsString) (note : GeoNote)
    → e.event.kind ≡ pos 1
    → e.event.tags ≡ build_geo_note_tags p.runtime p.bech32 geohash relay_url (some target)
    → IsId p.runtime geohash
    → IsId p.runtime target.id
    → IsOptionalId p.runtime target.root_note_id
    → normalize_relay_kind_one_note p (relay_event e) default_geohash ≡ some (some note)
    → (is_signed_kind_one_event (event_value e) ≡ some (relay_event e))
      × Refers geohash (record { root_id = some (root_of target); reply_id = some target.id }) note
publish_geo_note-normalize p e target geohash relay_url default_geohash note kind tags g i r h =
    let read = extract-build_geo_note_tags p.runtime p.bech32 geohash relay_url target g i r in
    let sent : (relay_event e).tags
        ≡ map tag_value_of
            (build_geo_note_tags p.runtime p.bech32 geohash relay_url (some target)) =
      list_of-tag_values e.event.tags ∙ ap (map tag_value_of) tags in
    (
      event_value-signed e kind,
      normalize-Refers p (relay_event e) geohash
          (record { root_id = some (root_of target); reply_id = some target.id }) default_geohash
          note (ap (extract_geohash_tag p.runtime) sent ∙ read.0) g.1
          (ap (extract_event_references p.runtime) sent ∙ read.1) h,
    )
