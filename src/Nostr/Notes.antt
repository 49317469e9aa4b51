-- ===== src/Nostr/Notes.antt =====
-- apps/web/src/nostr.ts: the notes and reactions that a query collects, finished as notes with
-- counts.
pub mod Laws
use synchrono_city.Prelude.{
  ℕ, zero, suc, ◌+◌, Bool, true, false, Option, none, some, or_else, List, [], ◌∷◌, map, filter,
  if◌then◌else◌, leb, ◌==◌,
}
use synchrono_city.Prelude.Int.{ℤ, pos, ◌-ℤ◌, is_nonzero, is_positive}
use synchrono_city.Prelude.Text.{JsString, truthy, truthy?}
use synchrono_city.Prelude.Sort.{sort}
use synchrono_city.Prelude.Maps.{JsMap, map_get, map_set}
use synchrono_city.Prelude.Runtime.{Runtime}
use synchrono_city.Data.Types.{GeoNote, GeoNoteReaction}

-- `map.set(k, (map.get(k) ?? 0) + 1)`
unfoldable pub increment : JsString → JsMap ℕ → JsMap ℕ
increment k counts = map_set k (suc (or_else (map_get k counts) 0)) counts

-- The loop over the notes, and its body.
abbrev pub count_reply : Option JsString → JsMap ℕ → JsMap ℕ
count_reply none counts = counts
count_reply (some id) counts = if truthy id then increment id counts else counts

unfoldable pub count_replies : List GeoNote → JsMap ℕ → JsMap ℕ
count_replies [] counts = counts
count_replies (note ∷ notes) counts = count_replies notes (count_reply note.reply_target_id counts)

module _ (rt : Runtime) where
  -- `right.count - left.count || left.emoji.localeCompare(right.emoji)`
  unfoldable pub compare_reactions : GeoNoteReaction → GeoNoteReaction → ℤ
  compare_reactions left right =
      let difference = right.count -ℤ left.count in
      if is_nonzero difference then difference else rt.locale_compare left.emoji right.emoji

  unfoldable pub normalize_reaction_counts : Option (JsMap ℕ) → Option (List GeoNoteReaction)
  normalize_reaction_counts none = none
  normalize_reaction_counts (some []) = none
  normalize_reaction_counts (some (entry ∷ entries)) = some (
      sort compare_reactions (
        map (λ e. record { emoji = e.0; count = pos e.1 })
          (filter (λ e. leb 1 e.1) (entry ∷ entries))))

  abbrev pub finished : JsMap ℕ → JsMap (JsMap ℕ) → GeoNote → GeoNote
  finished reply_counts reactions_by_note_id note = record note {
    replies = pos (or_else (map_get note.id reply_counts) 0);
    reactions = normalize_reaction_counts (map_get note.id reactions_by_note_id);
  }

  unfoldable pub finalize_queried_geo_notes : JsMap GeoNote → JsMap (JsMap ℕ) → List GeoNote
  finalize_queried_geo_notes notes_by_id reactions_by_note_id =
      let notes = map (λ e. e.1) notes_by_id in
      sort (λ left right. rt.locale_compare right.created_at left.created_at)
        (map (finished (count_replies notes []) reactions_by_note_id) notes)
