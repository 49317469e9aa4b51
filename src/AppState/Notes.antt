-- ===== src/AppState/Notes.antt =====
-- apps/web/src/app-state.tsx: notes that the user writes, that the server confirms, and that relays
-- send; their reactions.
pub mod Laws
use synchrono_city.Prelude.{
  ℕ, Bool, true, false, not, ◌&&◌, ◌||◌, Option, none, some, or_else, List, [], ◌∷◌, ◌++◌, map,
  filter, find?, any, leb, if◌then◌else◌,
}
use synchrono_city.Prelude.Int.{ℤ, pos, ◌+ℤ◌, ◌-ℤ◌, leb_ℤ, is_positive, is_nonzero, abs}
use synchrono_city.Prelude.Text.{JsString, codes, ◌===◌, trim, truthy, truthy?, dedupe}
use synchrono_city.Prelude.Sort.{sort}
use synchrono_city.Prelude.Maps.{JsMap, map_get, map_set, map_delete, map_of}
use synchrono_city.Prelude.Runtime.{Runtime}
use synchrono_city.Social.Values.{nonempty_or_undefined}
use synchrono_city.NostrUtils.{is_valid_hex, starts_with}
use synchrono_city.Data.Types.{GeoNote, GeoNoteReaction}
use synchrono_city.Data.Notes.{by_recency}
use synchrono_city.Nostr.Notes.{compare_reactions}

-- `Math.max(a, b)`
abbrev pub max_ℤ : ℤ → ℤ → ℤ
max_ℤ a b = if leb_ℤ a b then b else a

-- `a ?? b` on optional strings
abbrev pub or_optional {ℓ} : {A : Type ℓ} → Option A → Option A → Option A
or_optional none b = b
or_optional (some a) b = some a

-- `(a ?? "") === (b ?? "")`
abbrev pub same_optional : Option JsString → Option JsString → Bool
same_optional a b = or_else a [] === or_else b []

unfoldable pub add_optimistic_note : List GeoNote → GeoNote → List GeoNote
add_optimistic_note current next =
    if truthy? next.reply_target_id
    then map
        (λ note.
          if note.id === or_else next.reply_target_id []
          then record note { replies = note.replies +ℤ pos 1 }
          else note)
        (next ∷ current)
    else next ∷ current

unfoldable pub replace_note_by_id : List GeoNote → JsString → GeoNote → List GeoNote
replace_note_by_id current id next = map (λ note. if note.id === id then next else note) current

unfoldable pub dedupe_tagged_pubkeys : List JsString → Option (List JsString)
dedupe_tagged_pubkeys pubkeys = nonempty_or_undefined (dedupe (filter truthy (map trim pubkeys)))

unfoldable pub is_relay_backed_event_id : JsString → Bool
is_relay_backed_event_id id = is_valid_hex (trim id)

unfoldable pub is_local_beacon_note : GeoNote → Bool
is_local_beacon_note note = starts_with note.id (codes "note-")

-- The loops of `mergeNoteReactions`, over one collection and over all.
unfoldable pub merge_counts : List GeoNoteReaction → JsMap ℤ → JsMap ℤ
merge_counts [] counts = counts
merge_counts (r ∷ rs) counts =
    merge_counts rs
      (map_set r.emoji (max_ℤ (or_else (map_get r.emoji counts) (pos 0)) r.count) counts)

-- The last call of `Date.parse`, on two times that are both finite or not.
abbrev pub within_echo_window : Option ℤ → Option ℤ → Bool → Bool
within_echo_window (some left) (some right) same = leb (abs (left -ℤ right)) 5000
within_echo_window _ _ same = same

abbrev pub with_count : JsString → ℤ → JsMap ℤ → JsMap ℤ
with_count emoji next counts =
    if is_positive next then map_set emoji next counts else map_delete emoji counts

abbrev pub counts_of : Option (List GeoNoteReaction) → JsMap ℤ
counts_of reactions = map_of (map (λ r. (r.emoji, r.count)) (or_else reactions []))

module _ (rt : Runtime) where
  -- The entries of a map of counts as reactions, `undefined` if there are none.
  unfoldable pub listed_counts : JsMap ℤ → Option (List GeoNoteReaction)
  listed_counts [] = none
  listed_counts (entry ∷ entries) = some (
      sort (compare_reactions rt)
        (map (λ e. record { emoji = e.0; count = e.1 }) (entry ∷ entries)))

  unfoldable pub merge_note_reactions :
      Option (List GeoNoteReaction) → Option (List GeoNoteReaction) → Option (List GeoNoteReaction)
  unfolding merge_counts listed_counts
  merge_note_reactions left right =
      listed_counts (merge_counts (or_else right []) (merge_counts (or_else left []) []))

  unfoldable pub adjust_reaction_counts :
      Option (List GeoNoteReaction) → JsString → ℤ → Option (List GeoNoteReaction)
  unfolding listed_counts
  adjust_reaction_counts reactions emoji delta =
      let counts = counts_of reactions in
      listed_counts
        (with_count emoji (max_ℤ (pos 0) (or_else (map_get emoji counts) (pos 0) +ℤ delta)) counts)

  unfoldable pub update_note_reaction : List GeoNote → JsString → JsString → ℤ → List GeoNote
  unfolding adjust_reaction_counts
  update_note_reaction current id emoji delta =
      if is_nonzero delta
      then map
          (λ note.
            if note.id === id
            then record note { reactions = adjust_reaction_counts note.reactions emoji delta }
            else note)
          current
      else current

  unfoldable pub are_equivalent_beacon_notes : GeoNote → GeoNote → Bool
  are_equivalent_beacon_notes left right =
      left.geohash === right.geohash
      && left.author_pubkey === right.author_pubkey
      && trim left.content === trim right.content
      && same_optional left.reply_target_id right.reply_target_id
      && same_optional left.root_note_id right.root_note_id
      && within_echo_window (rt.date_parse left.created_at) (rt.date_parse right.created_at)
          (left.created_at === right.created_at)

  unfoldable pub has_equivalent_local_beacon_note : List GeoNote → GeoNote → Bool
  unfolding are_equivalent_beacon_notes is_local_beacon_note
  has_equivalent_local_beacon_note current relay_note =
      any (λ note. is_local_beacon_note note && are_equivalent_beacon_notes note relay_note) current

  -- `{ ...serverNote, … }` of a note that is there already.
  abbrev pub reconciled : GeoNote → GeoNote → GeoNote
  reconciled existing server = record server {
    id = if is_relay_backed_event_id existing.id then existing.id else server.id;
    replies = max_ℤ existing.replies server.replies;
    reply_target_id = or_optional existing.reply_target_id server.reply_target_id;
    root_note_id = or_optional existing.root_note_id server.root_note_id;
    tagged_pubkeys =
        dedupe_tagged_pubkeys
          (or_else existing.tagged_pubkeys [] ++ or_else server.tagged_pubkeys []);
    reactions = merge_note_reactions existing.reactions server.reactions;
  }

  unfoldable pub reconcile_server_note : List GeoNote → JsString → GeoNote → List GeoNote
  unfolding merge_note_reactions dedupe_tagged_pubkeys is_relay_backed_event_id
      are_equivalent_beacon_notes
  reconcile_server_note current optimistic_id server =
      elim (or_optional (find? (λ note. note.id === optimistic_id) current)
        (find? (λ note. are_equivalent_beacon_notes note server) current)) [
          | none ↦ server ∷ current
          | some existing ↦
              reconciled existing server ∷ filter (λ note. not (note.id === existing.id)) current
        ]

  -- `{ ...relayNote, … }`, with the note that has its ID
  abbrev pub relayed : Option GeoNote → GeoNote → GeoNote
  relayed none note = record note {
    replies = max_ℤ (pos 0) note.replies;
    tagged_pubkeys = dedupe_tagged_pubkeys (or_else note.tagged_pubkeys []);
    reactions = merge_note_reactions none note.reactions;
  }
  relayed (some existing) note = record note {
    replies = max_ℤ existing.replies note.replies;
    reply_target_id = or_optional note.reply_target_id existing.reply_target_id;
    root_note_id = or_optional note.root_note_id existing.root_note_id;
    tagged_pubkeys =
        dedupe_tagged_pubkeys
          (or_else existing.tagged_pubkeys [] ++ or_else note.tagged_pubkeys []);
    reactions = merge_note_reactions existing.reactions note.reactions;
  }

  -- The body of the loop over the relay's notes, by what the map has for the note's ID.
  abbrev pub merge_relay_note :
      List GeoNote → JsMap GeoNote → GeoNote → Option GeoNote → JsMap GeoNote
  merge_relay_note current merged note (some existing) =
      map_set note.id (relayed (some existing) note) merged
  merge_relay_note current merged note none =
      if has_equivalent_local_beacon_note current note
      then merged
      else map_set note.id (relayed none note) merged

  unfoldable pub merge_relay_notes_from :
      List GeoNote → JsMap GeoNote → List GeoNote → JsMap GeoNote
  unfolding merge_note_reactions dedupe_tagged_pubkeys has_equivalent_local_beacon_note
  merge_relay_notes_from current merged [] = merged
  merge_relay_notes_from current merged (note ∷ notes) =
      merge_relay_notes_from current (merge_relay_note current merged note (map_get note.id merged))
        notes

  unfoldable pub merge_relay_notes : List GeoNote → List GeoNote → List GeoNote
  unfolding merge_relay_notes_from
  merge_relay_notes current relay_notes = sort (by_recency rt) (
      map (λ e. e.1)
        (merge_relay_notes_from current (map_of (map (λ note. (note.id, note)) current))
          relay_notes))
