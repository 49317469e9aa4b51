-- ===== src/Data/Merge/Laws.antt =====
-- The merge of cross-relay feed items of apps/web/src/data.ts.
use mathlib.Core.List.{Perm}
use mathlib.Core.Path.{subst}
use synchrono_city.Prelude.{
  ◌≡◌, refl, sym, ap, ◌∙◌, Bool, true, false, ◌&&◌, ◌||◌, List, [], ◌∷◌, arith, Bool-cases, inl,
  inr, All, All-map, any, flatten, count, ◌≤◌, some,
}
use synchrono_city.Prelude.Text.{JsString, ◌===◌, ===_iff, ===_refl, truthy, includes, add}
use synchrono_city.Prelude.Sort.{IsSorted}
use synchrono_city.Prelude.Sort.Laws.{sort-perm, sort-IsSorted, count-sort, on-IsComparator}
use synchrono_city.Prelude.Runtime.{Runtime, HasLocaleOrder}
use synchrono_city.Data.Timestamps.{compare_descending_timestamps}
use synchrono_city.Data.Timestamps.Laws.{compare_descending_timestamps-IsComparator}
use synchrono_city.Prelude.Sets.{includes-add}
use synchrono_city.Data.Types.{CrossRelayFeedItem}
use synchrono_city.Data.Merge.{
  fallback_key, normalized_id, is_seen, add_id, merge_items, by_publication,
  merge_cross_relay_feed_items,
}

-- Two items count as one: they have the same ID, which is not blank, or the same fallback key.
unfoldable pub is_same : CrossRelayFeedItem → CrossRelayFeedItem → Bool
is_same a b =
    (truthy (normalized_id a) && normalized_id a === normalized_id b)
    || fallback_key a === fallback_key b

-- No item counts as one with a later one.
abbrev pub IsMerged : List CrossRelayFeedItem → Type 0
IsMerged [] = Unit
IsMerged (x ∷ xs) = All (λ y. is_same x y ≡ false) xs × IsMerged xs

is_seen-add :
    (ids keys : List JsString) (a b : CrossRelayFeedItem)
    → is_seen (add_id ids a) (add keys (fallback_key a)) b ≡ (is_seen ids keys b || is_same a b)
unfolding is_seen is_same
is_seen-add ids keys a b = elim (Bool-cases (truthy (normalized_id a))) [
  | inl id ↦ elim (Bool-cases (normalized_id a === normalized_id b)) [
    | inl same ↦
        let e : truthy (normalized_id b) ≡ true =
          ap truthy (sym ((===_iff (normalized_id a) (normalized_id b)).0 same)) ∙ id in
        ground (
          arith,
          includes-add ids (normalized_id a) (normalized_id b),
          includes-add keys (fallback_key a) (fallback_key b),
        )
    | inr other ↦ ground (
      arith,
      includes-add ids (normalized_id a) (normalized_id b),
      includes-add keys (fallback_key a) (fallback_key b),
    )
  ]
  | inr blank ↦ ground (arith, includes-add keys (fallback_key a) (fallback_key b))
]

fallback_key-is_same : (a : CrossRelayFeedItem) → is_same a a ≡ true
unfolding is_same
fallback_key-is_same a = ground (arith, ===_refl (fallback_key a))

split_or : (a b : Bool) → (a || b) ≡ false → (a ≡ false) × (b ≡ false)
split_or a b h = ground arith

merge_items-fresh :
    (ids keys : List JsString) (items : List CrossRelayFeedItem)
    → All (λ y. is_seen ids keys y ≡ false) (merge_items ids keys items)
      × IsMerged (merge_items ids keys items)
unfolding merge_items
merge_items-fresh ids keys [] = (tt, tt)
merge_items-fresh ids keys (x ∷ items) = elim (Bool-cases (is_seen ids keys x)) [
  | inl seen ↦ rw seen (merge_items-fresh ids keys items)
  | inr new ↦
      let (fresh, merged) = merge_items-fresh (add_id ids x) (add keys (fallback_key x)) items in
      let both =
        All-map
          (λ y h. split_or (is_seen ids keys y) (is_same x y) (sym (is_seen-add ids keys x y) ∙ h))
          (merge_items (add_id ids x) (add keys (fallback_key x)) items) fresh in
      rw new (
        (
          new,
          All-map (λ y h. h.0) (merge_items (add_id ids x) (add keys (fallback_key x)) items) both,
        ),
        (
          All-map (λ y h. h.1) (merge_items (add_id ids x) (add keys (fallback_key x)) items) both,
          merged,
        ),
      )
]

merge_items_seen :
    (ids keys : List JsString) (x : CrossRelayFeedItem) (items : List CrossRelayFeedItem)
    → is_seen ids keys x ≡ true
    → merge_items ids keys items ≡ merge_items ids keys (x ∷ items)
unfolding merge_items
merge_items_seen ids keys x items h = rw h refl

merge_items_new :
    (ids keys : List JsString) (x : CrossRelayFeedItem) (items : List CrossRelayFeedItem)
    → is_seen ids keys x ≡ false
    → x ∷ merge_items (add_id ids x) (add keys (fallback_key x)) items
      ≡ merge_items ids keys (x ∷ items)
unfolding merge_items
merge_items_new ids keys x items h = rw h refl

-- Every item is either seen before or counts as one with a merged item.
abbrev IsRepresented :
    List JsString → List JsString → List CrossRelayFeedItem → List CrossRelayFeedItem → Type 0
IsRepresented ids keys items merged =
    All (λ y. (is_seen ids keys y || any (λ x. is_same x y) merged) ≡ true) items

merge_items-IsRepresented :
    (ids keys : List JsString) (items : List CrossRelayFeedItem)
    → IsRepresented ids keys items (merge_items ids keys items)
merge_items-IsRepresented ids keys [] = tt
merge_items-IsRepresented ids keys (x ∷ items) = elim (Bool-cases (is_seen ids keys x)) [
  | inl seen ↦
      subst (IsRepresented ids keys (x ∷ items)) (merge_items_seen ids keys x items seen)
        (ground (arith, seen), merge_items-IsRepresented ids keys items)
  | inr new ↦ subst (IsRepresented ids keys (x ∷ items)) (merge_items_new ids keys x items new) (
    ground (arith, fallback_key-is_same x),
    All-map (λ y h. ground (arith, is_seen-add ids keys x y, h)) items
        (merge_items-IsRepresented (add_id ids x) (add keys (fallback_key x)) items),
  )
]

count-merge_items :
    (p : CrossRelayFeedItem → Bool) (ids keys : List JsString) (items : List CrossRelayFeedItem)
    → count p (merge_items ids keys items) ≤ count p items
unfolding merge_items
count-merge_items p ids keys [] = omega arith
count-merge_items p ids keys (x ∷ items) = elim (Bool-cases (is_seen ids keys x)) [
  | inl seen ↦ rw seen (ground (arith, count-merge_items p ids keys items))
  | inr new ↦
      rw new (ground (arith, count-merge_items p (add_id ids x) (add keys (fallback_key x)) items))
]

represented :
    (items : List CrossRelayFeedItem)
    → All (λ y. any (λ x. is_same x y) (merge_items [] [] items) ≡ true) items
unfolding is_seen includes
represented items = All-map (λ y h. ground (arith, h)) items (merge_items-IsRepresented [] [] items)

module _ (rt : Runtime) (ok : HasLocaleOrder rt) where
  -- The merged items are, in some order, ones of which no two count as one, taken from the
  -- collections without adding any (by count, for every test), such that each item of the
  -- collections counts as one with some merged item; they stand from the latest to the earliest.
  pub merge_cross_relay_feed_items_lem :
      (collections : List (List CrossRelayFeedItem)) (p : CrossRelayFeedItem → Bool)
      → ((kept : List CrossRelayFeedItem) × Perm (merge_cross_relay_feed_items rt collections) kept
          × IsMerged kept
          × All (λ y. any (λ x. is_same x y) kept ≡ true) (flatten collections))
        × (count p (merge_cross_relay_feed_items rt collections) ≤ count p (flatten collections))
        × IsSorted (by_publication rt) (merge_cross_relay_feed_items rt collections)
  unfolding merge_cross_relay_feed_items
  merge_cross_relay_feed_items_lem collections p = (
    (
      merge_items [] [] (flatten collections),
      sort-perm (by_publication rt) (merge_items [] [] (flatten collections)),
      (merge_items-fresh [] [] (flatten collections)).1,
      represented (flatten collections),
    ),
    omega (
      arith,
      count-sort (by_publication rt) p (merge_items [] [] (flatten collections)),
      count-merge_items p [] [] (flatten collections),
    ),
    sort-IsSorted (by_publication rt)
        (on-IsComparator (λ (n : CrossRelayFeedItem). some n.published_at)
          (compare_descending_timestamps rt) (compare_descending_timestamps-IsComparator rt ok))
        (merge_items [] [] (flatten collections)),
  )
