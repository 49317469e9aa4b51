-- ===== src/Nostr/Notes/Laws.antt =====
-- The counts of replies and reactions of apps/web/src/nostr.ts.
use mathlib.Core.List.{Perm}
use mathlib.Core.Path.{subst}
use synchrono_city.Prelude.{
  ℕ, suc, ◌+◌, ◌≡◌, refl, ap, ◌∙◌, Bool, false, ◌&&◌, Option, none, some, or_else, List, [], ◌∷◌,
  map, arith, if◌then◌else◌, count, Bool-cases, inl, inr,
}
use synchrono_city.Prelude.Int.{ℤ, pos}
use synchrono_city.Prelude.Text.{JsString, ◌===◌, ===_iff, truthy}
use synchrono_city.Prelude.Sort.{sort, IsSorted}
use synchrono_city.Prelude.Sort.Laws.{sort-perm, sort-IsSorted, on-IsComparator, flip-IsComparator}
use synchrono_city.Prelude.Maps.{JsMap, map_get, map_get-map_set}
use synchrono_city.Prelude.Runtime.{Runtime, HasLocaleOrder}
use synchrono_city.Data.Types.{GeoNote}
use synchrono_city.Nostr.Notes.{
  increment, count_reply, count_replies, normalize_reaction_counts, finished,
  finalize_queried_geo_notes,
}

-- The count that a map has for a key.
abbrev pub counted : JsString → JsMap ℕ → ℕ
counted k counts = or_else (map_get k counts) 0

pub counted-increment :
    (k j : JsString) (counts : JsMap ℕ)
    → counted j (increment k counts) ≡ (if k === j then 1 else 0) + counted j counts
unfolding increment
counted-increment k j counts = elim (Bool-cases (k === j)) [
  | inl e ↦ ground (arith, map_get-map_set k j (suc (counted k counts)) counts, ===_iff k j)
  | inr e ↦ ground (arith, map_get-map_set k j (suc (counted k counts)) counts)
]

-- Whether a reply target is the event, and whether the note is a reply to it.
abbrev pub targets : JsString → Option JsString → Bool
targets id none = false
targets id (some t) = truthy t && t === id

abbrev pub replies_to : JsString → GeoNote → Bool
replies_to id note = targets id note.reply_target_id

counted-count_reply :
    (id : JsString) (target : Option JsString) (counts : JsMap ℕ)
    → counted id (count_reply target counts)
      ≡ (if targets id target then 1 else 0) + counted id counts
counted-count_reply id none counts = omega arith
counted-count_reply id (some t) counts = elim (Bool-cases (truthy t)) [
  | inl there ↦ rw there (counted-increment t id counts)
  | inr blank ↦ rw blank (omega arith)
]

counted-count_replies :
    (id : JsString) (notes : List GeoNote) (counts : JsMap ℕ)
    → counted id (count_replies notes counts) ≡ count (replies_to id) notes + counted id counts
unfolding count_replies
counted-count_replies id [] counts = omega arith
counted-count_replies id (note ∷ notes) counts = omega (
  arith,
  counted-count_replies id notes (count_reply note.reply_target_id counts),
  counted-count_reply id note.reply_target_id counts,
)

-- The note with the replies among the notes counted, and with its reactions.
abbrev pub with_counts : Runtime → List GeoNote → JsMap (JsMap ℕ) → GeoNote → GeoNote
with_counts rt notes reactions_by_note_id note = record note {
  replies = pos (count (replies_to note.id) notes);
  reactions = normalize_reaction_counts rt (map_get note.id reactions_by_note_id);
}

map-finished :
    (rt : Runtime) (reactions : JsMap (JsMap ℕ)) (all notes : List GeoNote)
    → map (finished rt (count_replies all []) reactions) notes
      ≡ map (with_counts rt all reactions) notes
unfolding map_get
map-finished rt reactions all [] = refl
map-finished rt reactions all (note ∷ notes) =
    let same : counted note.id (count_replies all []) ≡ count (replies_to note.id) all =
      omega (arith, counted-count_replies note.id all []) in
    let head : finished rt (count_replies all []) reactions note
        ≡ with_counts rt all reactions note =
      ap
        (λ (n : ℕ). record note {
          replies = pos n;
          reactions = normalize_reaction_counts rt (map_get note.id reactions);
        })
        same in
    ap (λ (n : GeoNote). n ∷ map (finished rt (count_replies all []) reactions) notes) head
    ∙ ap (◌∷◌ (with_counts rt all reactions note)) (map-finished rt reactions all notes)

abbrev pub latest_first : Runtime → GeoNote → GeoNote → ℤ
latest_first rt left right = rt.locale_compare right.created_at left.created_at

-- What a query returns is the collected notes, each with the number of collected notes that reply to
-- it and with the reactions collected for it, and from the latest `createdAt` to the earliest, if
-- `localeCompare` is consistent.
pub finalize_queried_geo_notes_lem :
    (rt : Runtime)
    → HasLocaleOrder rt
    → (notes_by_id : JsMap GeoNote) (reactions : JsMap (JsMap ℕ))
    → let notes = map (λ e. e.1) notes_by_id in
      Perm
        (finalize_queried_geo_notes rt notes_by_id reactions)
        (map (with_counts rt notes reactions) notes)
      × IsSorted (latest_first rt) (finalize_queried_geo_notes rt notes_by_id reactions)
unfolding finalize_queried_geo_notes
finalize_queried_geo_notes_lem rt ok notes_by_id reactions =
    let notes = map (λ e. e.1) notes_by_id in
    let counted_notes = map (finished rt (count_replies notes []) reactions) notes in
    (
      subst (Perm (sort (latest_first rt) counted_notes)) (map-finished rt reactions notes notes)
          (sort-perm (latest_first rt) counted_notes),
      sort-IsSorted (latest_first rt)
          (flip-IsComparator (λ (l r : GeoNote). rt.locale_compare l.created_at r.created_at)
            (on-IsComparator (λ (n : GeoNote). n.created_at) rt.locale_compare ok))
          counted_notes,
    )
