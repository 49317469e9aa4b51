-- ===== src/AppState/Notes/Laws.antt =====
-- The notes of apps/web/src/app-state.tsx: which notes a merge has, and which counts a reaction
-- leaves.
use synchrono_city.Prelude.{
  ◌≡◌, refl, sym, ap, ◌∙◌, Bool, true, false, not, ◌&&◌, ◌||◌, Option, none, some, or_else, List,
  [], ◌∷◌, map, arith, any, count, if◌then◌else◌, Bool-cases, inl, inr, All, All-map,
}
use synchrono_city.Prelude.Int.{ℤ, pos, ◌+ℤ◌, is_positive}
use synchrono_city.Prelude.Text.{JsString, ◌===◌, ===_iff}
use synchrono_city.Prelude.Sort.Laws.{count-sort, sort-All}
use synchrono_city.Prelude.Maps.{
  JsMap, map_get, map_of, map_has, map_has-map_set, map_has-map_delete, map_has_of_get,
  map_has_of_none, IsMap, map_set-IsMap, map_of-IsMap, map_has-map_set_all, IsMap-entries,
  map_get-map_set, map_get-map_delete, map_delete-IsMap,
}
use synchrono_city.Prelude.Keyed.{IsKeyed, map_set-IsKeyed, map_set_all-IsKeyed, count-values}
use synchrono_city.Prelude.Runtime.{Runtime}
use synchrono_city.Data.Types.{GeoNote, GeoNoteReaction}
use synchrono_city.Data.Notes.{by_recency}
use synchrono_city.Nostr.Notes.{compare_reactions}
use synchrono_city.AppState.Notes.{
  max_ℤ, has_equivalent_local_beacon_note, relayed, merge_relay_note, merge_relay_notes_from,
  merge_relay_notes, listed_counts, with_count, counts_of, adjust_reaction_counts,
}

abbrev note_id : GeoNote → JsString
note_id note = note.id

abbrev pub has_id : JsString → GeoNote → Bool
has_id k note = note.id === k

-- Whether the merge takes the relay's note in as a new one with the ID.
abbrev pub is_news : Runtime → List GeoNote → JsString → GeoNote → Bool
is_news rt current k note = note.id === k && not (has_equivalent_local_beacon_note rt current note)

any-pairs :
    (k : JsString) (notes : List GeoNote)
    → any (λ (e : JsString × GeoNote). e.0 === k) (map (λ note. (note.id, note)) notes)
      ≡ any (has_id k) notes
any-pairs k [] = refl
any-pairs k (note ∷ notes) = ap (λ (b : Bool). note.id === k || b) (any-pairs k notes)

module _ (rt : Runtime) (current : List GeoNote) where
  -- What one note of the relay does to the map, by what the map has for its ID.
  step-map_has :
      (k : JsString) (m : JsMap GeoNote) (note : GeoNote) (found : Option GeoNote)
      → map_get note.id m ≡ found
      → map_has k (merge_relay_note rt current m note found)
        ≡ (map_has k m || is_news rt current k note)
  step-map_has k m note (some existing) e =
      let there : note.id === k ≡ true → map_has k m ≡ true = λ same.
        ap (λ (i : JsString). map_has i m) (sym ((===_iff note.id k).0 same))
        ∙ map_has_of_get note.id m e in
      ground (arith, map_has-map_set note.id k (relayed rt (some existing) note) m, there)
  step-map_has k m note none e = ground (arith, map_has-map_set note.id k (relayed rt none note) m)

  step-IsMap :
      (m : JsMap GeoNote) (note : GeoNote) (found : Option GeoNote)
      → IsMap m
      → IsMap (merge_relay_note rt current m note found)
  step-IsMap m note (some existing) h = map_set-IsMap note.id _ m h
  step-IsMap m note none h = elim (Bool-cases (has_equivalent_local_beacon_note rt current note)) [
    | inl same ↦ rw same h
    | inr other ↦ rw other (map_set-IsMap note.id (relayed rt none note) m h)
  ]

  step-IsKeyed :
      (m : JsMap GeoNote) (note : GeoNote) (found : Option GeoNote)
      → IsKeyed note_id m
      → IsKeyed note_id (merge_relay_note rt current m note found)
  step-IsKeyed m note (some existing) h = map_set-IsKeyed note_id note.id _ m refl h
  step-IsKeyed m note none h =
      elim (Bool-cases (has_equivalent_local_beacon_note rt current note)) [
        | inl same ↦ rw same h
        | inr other ↦ rw other (map_set-IsKeyed note_id note.id (relayed rt none note) m refl h)
      ]

  count-merge_relay_notes_from :
      (k : JsString) (notes : List GeoNote) (m : JsMap GeoNote)
      → IsMap m
      → IsKeyed note_id m
      → count (has_id k) (map (λ e. e.1) (merge_relay_notes_from rt current m notes))
        ≡ (if map_has k m || any (is_news rt current k) notes then 1 else 0)
  unfolding merge_relay_notes_from
  count-merge_relay_notes_from k [] m h s = ground (arith, count-values note_id k m h s)
  count-merge_relay_notes_from k (note ∷ notes) m h s =
      let found = map_get note.id m in
      ground (
        arith,
        step-map_has k m note found refl,
        count-merge_relay_notes_from k notes (merge_relay_note rt current m note found)
            (step-IsMap m note found h) (step-IsKeyed m note found s),
      )

  -- A merge of the relay's notes into the current ones has one note for every ID of a current note and
  -- for every ID of a relay's note that no local note on the way is the same as, and no other note: no
  -- note is lost and none stands twice.
  pub count-merge_relay_notes :
      (k : JsString) (relay_notes : List GeoNote)
      → count (has_id k) (merge_relay_notes rt current relay_notes)
        ≡ (if any (has_id k) current || any (is_news rt current k) relay_notes then 1 else 0)
  unfolding merge_relay_notes map_of map_has
  count-merge_relay_notes k relay_notes =
      let pairs = map (λ note. (note.id, note)) current in
      let start = map_of pairs in
      let has : map_has k start ≡ any (has_id k) current =
        map_has-map_set_all k pairs [] ∙ any-pairs k current in
      count-sort (by_recency rt) (has_id k)
        (map (λ e. e.1) (merge_relay_notes_from rt current start relay_notes))
      ∙ count-merge_relay_notes_from k relay_notes start (map_of-IsMap pairs)
          (map_set_all-IsKeyed note_id current [] tt)
      ∙ ap (λ (b : Bool). if b || any (is_news rt current k) relay_notes then 1 else 0) has

-- The count of a reaction before the change.
abbrev pub before : Option (List GeoNoteReaction) → JsString → ℤ
before reactions emoji = or_else (map_get emoji (counts_of reactions)) (pos 0)

-- The count that the change leaves.
abbrev pub changed : Option (List GeoNoteReaction) → JsString → ℤ → ℤ
changed reactions emoji delta = max_ℤ (pos 0) (before reactions emoji +ℤ delta)

abbrev pub HasCount : Option (List GeoNoteReaction) → JsString → ℤ → GeoNoteReaction → Type 0
HasCount reactions emoji delta r =
    r.count
    ≡ (if emoji === r.emoji then changed reactions emoji delta else before reactions r.emoji)

listed_counts-All :
    (P : GeoNoteReaction → Type 0) (rt : Runtime) (m : JsMap ℤ)
    → All (λ e. P (record { emoji = e.0; count = e.1 })) m
    → All P (or_else (listed_counts rt m) [])
unfolding listed_counts
listed_counts-All P rt [] h = tt
listed_counts-All P rt (entry ∷ m) h =
    sort-All P (compare_reactions rt) (map (λ e. record { emoji = e.0; count = e.1 }) (entry ∷ m))
      (map-All P (entry ∷ m) h)
  where
    map-All :
        (Q : GeoNoteReaction → Type 0) (es : JsMap ℤ)
        → All (λ e. Q (record { emoji = e.0; count = e.1 })) es
        → All Q (map (λ e. record { emoji = e.0; count = e.1 }) es)
    map-All Q [] g = tt
    map-All Q (e ∷ es) (g, gs) = (g, map-All Q es gs)

with_count-IsMap :
    (emoji : JsString) (next : ℤ) (m : JsMap ℤ) → IsMap m → IsMap (with_count emoji next m)
with_count-IsMap emoji next m h = elim (Bool-cases (is_positive next)) [
  | inl there ↦ rw there (map_set-IsMap emoji next m h)
  | inr gone ↦ rw gone (map_delete-IsMap emoji m h)
]

-- What a key finds in the changed counts, if it finds a count.
map_get-with_count :
    (emoji k : JsString) (next n : ℤ) (m : JsMap ℤ)
    → map_get k (with_count emoji next m) ≡ some n
    → n ≡ (if emoji === k then next else or_else (map_get k m) (pos 0))
map_get-with_count emoji k next n m h = elim (Bool-cases (is_positive next)) [
  | inl there ↦ ground (
    arith,
    map_get-map_set emoji k next m,
    ap (λ (o : Option ℤ). or_else o (pos 0)) (rw there at h),
  )
  | inr gone ↦
      ground (
        arith,
        map_get-map_delete emoji k m,
        ap (λ (o : Option ℤ). or_else o (pos 0)) (rw gone at h),
      )
]

abbrev pub has_emoji : JsString → GeoNoteReaction → Bool
has_emoji k r = r.emoji === k

-- Whether the change leaves a reaction with the emoji: the changed one if its count is positive, any
-- other if it was there.
abbrev pub is_left : Option (List GeoNoteReaction) → JsString → ℤ → JsString → Bool
is_left reactions emoji delta k =
    if emoji === k
    then is_positive (changed reactions emoji delta)
    else any (has_emoji k) (or_else reactions [])

map_has-with_count :
    (emoji k : JsString) (next : ℤ) (m : JsMap ℤ)
    → map_has k (with_count emoji next m) ≡ (if emoji === k then is_positive next else map_has k m)
map_has-with_count emoji k next m =
    ground (arith, map_has-map_set emoji k next m, map_has-map_delete emoji k m)

map_has-counts_of :
    (k : JsString) (reactions : Option (List GeoNoteReaction))
    → map_has k (counts_of reactions) ≡ any (has_emoji k) (or_else reactions [])
unfolding map_of map_has
map_has-counts_of k reactions =
    map_has-map_set_all k (map (λ r. (r.emoji, r.count)) (or_else reactions [])) []
    ∙ any-counts (or_else reactions [])
  where
    any-counts :
        (rs : List GeoNoteReaction)
        → any (λ (e : JsString × ℤ). e.0 === k) (map (λ r. (r.emoji, r.count)) rs)
          ≡ any (has_emoji k) rs
    any-counts [] = refl
    any-counts (r ∷ rs) = ap (λ (b : Bool). r.emoji === k || b) (any-counts rs)

count-entries :
    (k : JsString) (m : JsMap ℤ)
    → IsMap m
    → count (has_emoji k) (map (λ e. record { emoji = e.0; count = e.1 }) m)
      ≡ (if map_has k m then 1 else 0)
unfolding map_has
count-entries k [] h = refl
count-entries k ((j, n) ∷ m) (fresh, h) = elim (Bool-cases (j === k)) [
  | inl same ↦
      let absent : map_has k m ≡ false =
        ap (λ (i : JsString). map_has i m) (sym ((===_iff j k).0 same))
        ∙ map_has_of_none j m fresh in
      rw same (ground (arith, count-entries k m h, absent))
  | inr other ↦ rw other (ground (arith, count-entries k m h))
]

count-listed_counts :
    (rt : Runtime) (k : JsString) (m : JsMap ℤ)
    → IsMap m
    → count (has_emoji k) (or_else (listed_counts rt m) []) ≡ (if map_has k m then 1 else 0)
unfolding listed_counts
count-listed_counts rt k [] h = count-entries k [] h
count-listed_counts rt k (e ∷ m) h =
    count-sort (compare_reactions rt) (has_emoji k)
      (map (λ e. record { emoji = e.0; count = e.1 }) (e ∷ m))
    ∙ count-entries k (e ∷ m) h

-- After a change of a reaction by some number, the reaction has the count that it had and the number,
-- and none below zero, and every other reaction has the count that it had, the last one if an emoji
-- was listed twice. For every emoji there is one reaction or none: the changed one is there exactly
-- if its count is positive, and any other exactly if it was there.
pub adjust_reaction_counts_lem :
    (rt : Runtime) (reactions : Option (List GeoNoteReaction)) (emoji : JsString) (delta : ℤ)
    (k : JsString)
    → let adjusted = or_else (adjust_reaction_counts rt reactions emoji delta) [] in
      All (HasCount reactions emoji delta) adjusted
      × (count (has_emoji k) adjusted ≡ (if is_left reactions emoji delta k then 1 else 0))
unfolding adjust_reaction_counts map_of
adjust_reaction_counts_lem rt reactions emoji delta k =
    let counts = counts_of reactions in
    let next = changed reactions emoji delta in
    let left = with_count emoji next counts in
    let is_map : IsMap left =
      with_count-IsMap emoji next counts
        (map_of-IsMap (map (λ r. (r.emoji, r.count)) (or_else reactions []))) in
    let there : map_has k left ≡ is_left reactions emoji delta k =
      map_has-with_count emoji k next counts
      ∙ ap (λ (b : Bool). if emoji === k then is_positive next else b)
          (map_has-counts_of k reactions) in
    (
      listed_counts-All (HasCount reactions emoji delta) rt left (
          All-map (λ e found. map_get-with_count emoji e.0 next e.1 counts found) left
            (IsMap-entries left is_map)),
      count-listed_counts rt k left is_map ∙ ap (λ (b : Bool). if b then 1 else 0) there,
    )
