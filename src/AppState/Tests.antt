-- ===== src/AppState/Tests.antt =====
-- The theorems on apps/web/src/app-state.tsx at concrete notes, places and relays. Every URL parses
-- as a wss URL with a path.
use mathlib.Core.Option
use synchrono_city.Prelude.{
  head?, ◌≡◌, ◌≢◌, ◌≤◌, ◌⊎◌, refl, true, false, not, ◌||◌, Option, none, some, or_else, List, [],
  ◌∷◌, any, count, filter, All, if◌then◌else◌,
}
use synchrono_city.Prelude.Int.{pos}
use synchrono_city.Prelude.Text.{JsString, codes, trim, includes, ◌===◌}
use synchrono_city.Prelude.Maps.{map_set}
use synchrono_city.Prelude.Sample.{sample_runtime}
use synchrono_city.Data.Types.{GeoNote, GeoNoteReaction, Place, RelayListEntry}
use synchrono_city.Data.Calls.{create_ephemeral_place, create_default_relay_list_entry}
use synchrono_city.AppState.Notes.{merge_relay_notes, adjust_reaction_counts}
use synchrono_city.AppState.Notes.Laws.{
  has_id, is_news, count-merge_relay_notes, HasCount, has_emoji, is_left,
  adjust_reaction_counts_lem,
}
use synchrono_city.AppState.Places.{upsert_place}
use synchrono_city.AppState.Places.Laws.{is_at, upsert_place_lem}
use synchrono_city.AppState.Relays.{
  ParsedUrl, RelayListOverrides, normalize_relay_list_url, merge_entries, removed_urls,
  merge_relay_list_entries,
}
use synchrono_city.AppState.Relays.Laws.{has_url, merge_relay_list_entries_lem}

abbrev note_with : JsString → GeoNote
note_with id = record {
  id = id;
  geohash = codes "u1";
  author_pubkey = codes "ann";
  content = codes "hi";
  created_at = codes "5";
  replies = pos 0;
  reply_target_id = none;
  root_note_id = none;
  tagged_pubkeys = none;
  reactions = none;
}

abbrev current_notes : List GeoNote
current_notes = note_with (codes "note-1") ∷ note_with (codes "a") ∷ []

abbrev relay_notes : List GeoNote
relay_notes = note_with (codes "a") ∷ note_with (codes "b") ∷ []

count-merge_relay_notes_example :
    count (has_id (codes "a")) (merge_relay_notes sample_runtime current_notes relay_notes) ≡ (
      if any (has_id (codes "a")) current_notes
        || any (is_news sample_runtime current_notes (codes "a")) relay_notes
      then 1
      else 0)
count-merge_relay_notes_example =
    count-merge_relay_notes sample_runtime current_notes (codes "a") relay_notes

abbrev reactions : Option (List GeoNoteReaction)
reactions =
    some (
      record { emoji = codes "+"; count = pos 2 }
      ∷ record { emoji = codes "!"; count = pos 1 }
      ∷ [])

adjust_reaction_counts_example :
    let adjusted =
      or_else (adjust_reaction_counts sample_runtime reactions (codes "+") (pos 1)) [] in
    All (HasCount reactions (codes "+") (pos 1)) adjusted
    × (count (has_emoji (codes "!")) adjusted
        ≡ (if is_left reactions (codes "+") (pos 1) (codes "!") then 1 else 0))
adjust_reaction_counts_example =
    adjust_reaction_counts_lem sample_runtime reactions (codes "+") (pos 1) (codes "!")

abbrev places : List Place
places = create_ephemeral_place (codes "u1") ∷ create_ephemeral_place (codes "u2") ∷ []

abbrev next_place : Place
next_place = create_ephemeral_place (codes "u2")

upsert_place_example :
    (Option.map (λ p. p.geohash) (head? (upsert_place places next_place)) ≡ some (codes "u2"))
    × (count (is_at (codes "u2")) (upsert_place places next_place) ≡ 1)
    × (filter (λ p. not (is_at (codes "u2") p)) (upsert_place places next_place)
        ≡ filter (λ p. not (is_at (codes "u2") p)) places)
unfolding create_ephemeral_place
upsert_place_example = upsert_place_lem places next_place

abbrev parse : JsString → Option ParsedUrl
parse s =
    some
      (record { protocol = codes "wss:"; pathname = codes "/r"; search = []; hash = []; text = s })

abbrev entry_at : JsString → RelayListEntry
entry_at url = record { url = url; name = url; inbox = true; outbox = false }

abbrev overrides : RelayListOverrides
overrides = record { added = entry_at (codes "w") ∷ []; removed = codes "v" ∷ codes "p" ∷ [] }

abbrev bootstrap : List RelayListEntry
bootstrap = entry_at (codes "p") ∷ entry_at (codes "v") ∷ []

primary_url : normalize_relay_list_url parse (codes "p") ≡ some (codes "p")
unfolding normalize_relay_list_url trim ◌===◌
primary_url = refl

merged_list :
    merge_relay_list_entries parse bootstrap overrides [] (codes "p")
    ≡ some (entry_at (codes "p") ∷ entry_at (codes "w") ∷ [])
unfolding merge_relay_list_entries merge_entries normalize_relay_list_url trim map_set includes
    ◌===◌
merged_list = refl

merge_relay_list_entries_example :
    let entries = entry_at (codes "p") ∷ entry_at (codes "w") ∷ [] in
    (entries ≢ [])
    × (count (has_url (codes "w")) entries ≤ 1)
    × ((entries ≡ create_default_relay_list_entry [] (codes "p") ∷ [])
        ⊎ All (λ e. not (includes (removed_urls parse (codes "p") overrides) e.url) ≡ true) entries)
merge_relay_list_entries_example =
    merge_relay_list_entries_lem parse bootstrap overrides [] (codes "p") (codes "p") (codes "w")
      (entry_at (codes "p") ∷ entry_at (codes "w") ∷ []) primary_url merged_list
