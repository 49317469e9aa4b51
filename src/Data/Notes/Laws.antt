-- ===== src/Data/Notes/Laws.antt =====
-- The lists of notes of apps/web/src/data.ts.
use mathlib.Core.List.{Perm}
use mathlib.Core.List.Perm
use synchrono_city.Prelude.{
  ◌≡◌, refl, sym, ap, ◌∙◌, ◌++◌, Bool, true, false, not, some, List, [], ◌∷◌, map, arith,
  if◌then◌else◌, filter, filter-partition, fun_ext,
}
use synchrono_city.Prelude.Int.{is_positive, one_sided}
use synchrono_city.Prelude.Text.{JsString, ◌===◌, ===_iff, truthy, includes}
use mathlib.Core.Path.{subst}
use synchrono_city.Prelude.Sets.{includes-dedupe}
use synchrono_city.Prelude.Sort.{sort, IsSorted, IsComparator}
use synchrono_city.Prelude.Sort.Laws.{sort-perm, sort-IsSorted, filter-sort, on-IsComparator}
use synchrono_city.Prelude.Runtime.{Runtime, HasLocaleOrder}
use synchrono_city.Data.Types.{Place, GeoNote}
use synchrono_city.Data.Timestamps.{compare_descending_timestamps}
use synchrono_city.Data.Timestamps.Laws.{compare_descending_timestamps-IsComparator}
use synchrono_city.Data.Notes.{
  by_recency, sort_notes_by_recency, list_recent_notes, normalize_geohash_key,
  build_beacon_geohash_set, is_beacon_thread_note, list_pulse_local_notes,
}

module _ (rt : Runtime) (ok : HasLocaleOrder rt) where
  pub by_recency-IsComparator : IsComparator (by_recency rt)
  by_recency-IsComparator =
      on-IsComparator (λ (n : GeoNote). some n.created_at) (compare_descending_timestamps rt)
        (compare_descending_timestamps-IsComparator rt ok)

  tied :
      (t : JsString) (l r : GeoNote)
      → (l.created_at === t) ≡ true
      → (r.created_at === t) ≡ true
      → is_positive (by_recency rt l r) ≡ false
  tied t l r hl hr =
      let same : l.created_at ≡ r.created_at =
        (===_iff l.created_at t).0 hl ∙ sym ((===_iff r.created_at t).0 hr) in
      let c = compare_descending_timestamps-IsComparator rt ok in
      rw same (
        ground (
          arith,
          c.swap_ge (some r.created_at) (some r.created_at),
          one_sided (compare_descending_timestamps rt (some r.created_at) (some r.created_at)),
        ))

  -- The notes by recency are the given notes, from the latest to the earliest and with unparsable
  -- times last, and notes with the same `createdAt` in the given order.
  pub sort_notes_by_recency_lem :
      (notes : List GeoNote) (t : JsString)
      → Perm (sort_notes_by_recency rt notes) notes
        × IsSorted (by_recency rt) (sort_notes_by_recency rt notes)
        × (filter (λ n. n.created_at === t) (sort_notes_by_recency rt notes)
            ≡ filter (λ n. n.created_at === t) notes)
  unfolding sort_notes_by_recency
  sort_notes_by_recency_lem notes t = (
    sort-perm (by_recency rt) notes,
    sort-IsSorted (by_recency rt) by_recency-IsComparator notes,
    filter-sort (by_recency rt) (λ n. n.created_at === t) (tied t) notes,
  )

no_empty_member : (xs : List JsString) → includes (filter truthy xs) [] ≡ false
unfolding includes
no_empty_member [] = refl
no_empty_member ([] ∷ xs) = no_empty_member xs
no_empty_member ((c ∷ s) ∷ xs) = ground (arith, no_empty_member xs, ===_iff (c ∷ s) [])

module _ (rt : Runtime) where
  includes-build_beacon_geohash_set :
      (places : List Place) → includes (build_beacon_geohash_set rt places) [] ≡ false
  unfolding build_beacon_geohash_set
  includes-build_beacon_geohash_set places =
      includes-dedupe
        (filter truthy (map (λ (p : Place). normalize_geohash_key rt p.geohash) places)) []
      ∙ no_empty_member (map (λ (p : Place). normalize_geohash_key rt p.geohash) places)

  is_beacon_thread_note_lem :
      (note : GeoNote) (places : List Place)
      → is_beacon_thread_note rt note places
        ≡ includes (build_beacon_geohash_set rt places) (normalize_geohash_key rt note.geohash)
  unfolding is_beacon_thread_note
  is_beacon_thread_note_lem note places = by_key (normalize_geohash_key rt note.geohash)
    where
      by_key :
          (k : JsString)
          → (if truthy k then includes (build_beacon_geohash_set rt places) k else false)
            ≡ includes (build_beacon_geohash_set rt places) k
      by_key [] = sym (includes-build_beacon_geohash_set places)
      by_key (c ∷ s) = refl

  -- The local pulse feed has, by recency, the notes that are no beacon's thread notes; together with
  -- those of the beacons they are all notes.
  pub list_pulse_local_notes_lem :
      (places : List Place) (notes : List GeoNote)
      → (list_pulse_local_notes rt places notes
          ≡ filter (λ n. not (is_beacon_thread_note rt n places)) (list_recent_notes rt notes))
        × Perm
            (filter (λ n. is_beacon_thread_note rt n places) (list_recent_notes rt notes)
              ++ list_pulse_local_notes rt places notes)
            notes
  unfolding list_pulse_local_notes list_recent_notes sort_notes_by_recency
  list_pulse_local_notes_lem places notes =
      let test : (λ (n : GeoNote). is_beacon_thread_note rt n places) ≡ (λ n.
        includes (build_beacon_geohash_set rt places) (normalize_geohash_key rt n.geohash)) =
        fun_ext (λ n. is_beacon_thread_note_lem n places) in
      let sorted = sort (by_recency rt) notes in
      (
        ap (λ (p : GeoNote → Bool). filter (λ n. not (p n)) sorted) (sym test),
        Perm.trans
            (subst
              (λ (p : GeoNote → Bool).
                Perm
                  (filter (λ n. is_beacon_thread_note rt n places) sorted
                    ++ filter (λ n. not (p n)) sorted)
                  sorted)
              test (filter-partition (λ n. is_beacon_thread_note rt n places) sorted))
            (sort-perm (by_recency rt) notes),
      )
