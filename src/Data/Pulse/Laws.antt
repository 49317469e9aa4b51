-- ===== src/Data/Pulse/Laws.antt =====
-- The remote pulse feed of apps/web/src/data.ts.
use mathlib.Core.List.{Perm, foldr}
use mathlib.Core.List.Perm
use mathlib.Core.Path.{subst}
use synchrono_city.Prelude.{
  ◌>>=◌, suc, zero, ℕ, ◌+◌, ◌≤◌, ◌≡◌, refl, sym, ap, ◌∙◌, ◌++◌, Bool, true, not, Option, none, some,
  List, [], ◌∷◌, arith, if◌then◌else◌, Bool-cases, inl, inr, All, All-append, All-take, All-drop,
  filter-All, filter_keeps-All, filter-partition, length-append, flatten, length, take, drop,
  length-drop, take-append-drop, filter, append_assoc,
}
use synchrono_city.Prelude.Sort.{sort}
use synchrono_city.Prelude.Sort.Laws.{length-sort, sort-perm, sort-All}
use synchrono_city.Prelude.Runtime.{Runtime}
use synchrono_city.Data.Types.{Lane, following, for_you, PulseFeedItem}
use synchrono_city.Data.Pulse.{
  TaggedItem, in_lane, is_lane, should_aggregate_pulse_feed_item, group_items,
  build_pulse_feed_groups, compare_pulse_feed_group_ranking, rank_pages, rank_lane,
  rank_pulse_feed_groups, build_pulse_feed_item, traverse, pulse_feed_item, publish,
  pulse_feed_page_size, by_publication,
}

module _ (rt : Runtime) where
  -- A group may follow a group with this first item.
  abbrev splits : Option TaggedItem → TaggedItem → Bool
  splits none h = true
  splits (some a) h = not (should_aggregate_pulse_feed_item rt a h)

  -- No group is empty, all items of a group aggregate with its first one, and the first item of a
  -- group does not aggregate with the first one of the group before.
  abbrev pub IsGrouped : Option TaggedItem → List (List TaggedItem) → Type 0
  IsGrouped before [] = Unit
  IsGrouped before (group ∷ groups) =
      (h : TaggedItem) × (t : List TaggedItem) × (group ≡ h ∷ t)
      × (splits before h ≡ true)
      × All (λ x. should_aggregate_pulse_feed_item rt h x ≡ true) t
      × IsGrouped (some h) groups

  flatten-group_items :
      (group items : List TaggedItem) → flatten (group_items rt group items) ≡ group ++ items
  unfolding group_items
  flatten-group_items [] [] = refl
  flatten-group_items (h ∷ t) [] = refl
  flatten-group_items [] (x ∷ items) = flatten-group_items (x ∷ []) items
  flatten-group_items (h ∷ t) (x ∷ items) =
      elim (Bool-cases (should_aggregate_pulse_feed_item rt h x)) [
        | inl joined ↦ rw joined (
            flatten-group_items (h ∷ t ++ x ∷ []) items
            ∙ ap (◌∷◌ h) (append_assoc t (x ∷ []) items))
        | inr split ↦
            rw split (ap (λ (s : List TaggedItem). h ∷ t ++ s) (flatten-group_items (x ∷ []) items))
      ]

  group_items-IsGrouped :
      (before : Option TaggedItem) (h : TaggedItem) (t items : List TaggedItem)
      → splits before h ≡ true
      → All (λ x. should_aggregate_pulse_feed_item rt h x ≡ true) t
      → IsGrouped before (group_items rt (h ∷ t) items)
  unfolding group_items
  group_items-IsGrouped before h t [] s a = (h, t, refl, s, a, tt)
  group_items-IsGrouped before h t (x ∷ items) s a =
      elim (Bool-cases (should_aggregate_pulse_feed_item rt h x)) [
        | inl joined ↦ rw joined (
            group_items-IsGrouped before h (t ++ x ∷ []) items s (
              All-append (λ y. should_aggregate_pulse_feed_item rt h y ≡ true) t (x ∷ []) a
                (joined, tt)))
        | inr split ↦
            rw split (h, t, refl, s, a, group_items-IsGrouped (some h) x [] items (ap not split) tt)
      ]

  -- The groups, one after the other, are the items in their order; no group is empty, all items of
  -- a group aggregate with its first one, and the first item of a group does not aggregate with the
  -- first one of the group before it.
  pub build_pulse_feed_groups_lem :
      (items : List TaggedItem)
      → (flatten (build_pulse_feed_groups rt items) ≡ items)
        × IsGrouped none (build_pulse_feed_groups rt items)
  unfolding build_pulse_feed_groups group_items
  build_pulse_feed_groups_lem [] = (refl, tt)
  build_pulse_feed_groups_lem (x ∷ items) =
      (flatten-group_items (x ∷ []) items, group_items-IsGrouped none x [] items refl tt)

abbrev pub IsNonempty : List TaggedItem → Type 0
IsNonempty group = (h : TaggedItem) × (t : List TaggedItem) × (group ≡ h ∷ t)

module _ (rt : Runtime) where
  rank_pages-perm :
      (fuel : ℕ) (groups : List (List TaggedItem))
      → length groups ≤ fuel
      → Perm (rank_pages rt fuel groups) groups
  unfolding rank_pages
  rank_pages-perm zero [] h = Perm.rfl
  rank_pages-perm zero (g ∷ groups) h = absurd (omega (arith, h))
  rank_pages-perm (suc fuel) [] h = Perm.rfl
  rank_pages-perm (suc fuel) (g ∷ groups) h =
      subst
        (Perm (
          sort (compare_pulse_feed_group_ranking rt) (take pulse_feed_page_size (g ∷ groups))
          ++ rank_pages rt fuel (drop pulse_feed_page_size (g ∷ groups))))
        (take-append-drop pulse_feed_page_size (g ∷ groups))
        (Perm.append
          (sort-perm (compare_pulse_feed_group_ranking rt) (take pulse_feed_page_size (g ∷ groups)))
          (rank_pages-perm fuel (drop pulse_feed_page_size (g ∷ groups))
            (omega (arith, h, length-drop pulse_feed_page_size (g ∷ groups)))))

  rank_pages-All {κ} :
      (P : List TaggedItem → Type κ) (fuel : ℕ) (groups : List (List TaggedItem))
      → All P groups
      → All P (rank_pages rt fuel groups)
  unfolding rank_pages
  rank_pages-All P zero groups h = tt
  rank_pages-All P (suc fuel) [] h = tt
  rank_pages-All P (suc fuel) (g ∷ groups) h =
      All-append P
        (sort (compare_pulse_feed_group_ranking rt) (take pulse_feed_page_size (g ∷ groups)))
        (rank_pages rt fuel (drop pulse_feed_page_size (g ∷ groups)))
        (sort-All P (compare_pulse_feed_group_ranking rt) (take pulse_feed_page_size (g ∷ groups))
          (All-take P pulse_feed_page_size (g ∷ groups) h))
        (rank_pages-All P fuel (drop pulse_feed_page_size (g ∷ groups))
          (All-drop P pulse_feed_page_size (g ∷ groups) h))

  by_lane :
      (groups : List (List TaggedItem))
      → All IsNonempty groups
      → filter (in_lane following) groups ≡ filter (λ g. not (in_lane for_you g)) groups
  by_lane [] h = refl
  by_lane (g ∷ groups) ((t, ts, e), h) = rw (e, by_lane groups h) (lane_cases t.lane (t ∷ ts) _)
    where
      lane_cases :
          (lane : Lane) (g : List TaggedItem) (rest : List (List TaggedItem))
          → (if is_lane lane following then g ∷ rest else rest)
            ≡ (if not (is_lane lane for_you) then g ∷ rest else rest)
      lane_cases following g rest = refl
      lane_cases for_you g rest = refl

  rank_lane-perm :
      (lane : Lane) (groups : List (List TaggedItem))
      → Perm (rank_lane rt lane groups) (filter (in_lane lane) groups)
  rank_lane-perm lane groups =
      rank_pages-perm (length (filter (in_lane lane) groups)) (filter (in_lane lane) groups)
        (omega arith)

  rank_pulse_feed_groups-perm :
      (groups : List (List TaggedItem))
      → All IsNonempty groups
      → Perm (rank_pulse_feed_groups rt groups) groups
  unfolding rank_pulse_feed_groups
  rank_pulse_feed_groups-perm groups h =
      Perm.trans
        (Perm.append (rank_lane-perm for_you groups) (
          subst (Perm (rank_lane rt following groups)) (by_lane groups h)
            (rank_lane-perm following groups)))
        (filter-partition (in_lane for_you) groups)

  -- The ranked groups are the given ones, if none is empty: first some that are all of the lane
  -- "For You" and then some that are all of the lane "Following".
  pub rank_pulse_feed_groups_lem :
      (groups : List (List TaggedItem))
      → All IsNonempty groups
      → Perm (rank_pulse_feed_groups rt groups) groups
        × ((first then_ : List (List TaggedItem)) × (rank_pulse_feed_groups rt groups
              ≡ first ++ then_)
            × All (λ g. in_lane for_you g ≡ true) first
            × All (λ g. in_lane following g ≡ true) then_)
  unfolding rank_pulse_feed_groups
  rank_pulse_feed_groups_lem groups h = (
    rank_pulse_feed_groups-perm groups h,
    (
      rank_lane rt for_you groups,
      rank_lane rt following groups,
      refl,
      rank_pages-All (λ g. in_lane for_you g ≡ true) (length (filter (in_lane for_you) groups))
          (filter (in_lane for_you) groups) (filter-All (in_lane for_you) groups),
      rank_pages-All (λ g. in_lane following g ≡ true) (length (filter (in_lane following) groups))
          (filter (in_lane following) groups) (filter-All (in_lane following) groups),
    ),
  )

  rank_pulse_feed_groups-All {κ} :
      (P : List TaggedItem → Type κ) (groups : List (List TaggedItem))
      → All P groups
      → All P (rank_pulse_feed_groups rt groups)
  unfolding rank_pulse_feed_groups
  rank_pulse_feed_groups-All P groups h =
      All-append P (rank_lane rt for_you groups) (rank_lane rt following groups)
        (rank_pages-All P (length (filter (in_lane for_you) groups))
          (filter (in_lane for_you) groups) (filter_keeps-All (in_lane for_you) P groups h))
        (rank_pages-All P (length (filter (in_lane following) groups))
          (filter (in_lane following) groups) (filter_keeps-All (in_lane following) P groups h))

  grouped-All :
      (before : Option TaggedItem) (groups : List (List TaggedItem))
      → IsGrouped rt before groups
      → All IsNonempty groups
  grouped-All before [] h = tt
  grouped-All before (g ∷ groups) (a, t, e, s, p, h) = ((a, t, e), grouped-All (some a) groups h)

-- The posts of all groups.
abbrev pub total_length : List (List TaggedItem) → ℕ
total_length groups = foldr (λ g n. length g + n) 0 groups

abbrev pub total_posts : List PulseFeedItem → ℕ
total_posts items = foldr (λ i n. i.post_count + n) 0 items

total_length-flatten :
    (groups : List (List TaggedItem)) → total_length groups ≡ length (flatten groups)
total_length-flatten [] = refl
total_length-flatten (g ∷ groups) =
    omega (arith, total_length-flatten groups, length-append g (flatten groups))

total_length-perm :
    {xs ys : List (List TaggedItem)} → Perm xs ys → total_length xs ≡ total_length ys
total_length-perm p =
    Perm.foldr-eq {B = ℕ} (λ a b. hlevel) (λ (g : List TaggedItem) (n : ℕ). length g + n)
      (λ (g h : List TaggedItem) (n : ℕ). omega arith) p 0

traverse-build_pulse_feed_item :
    (groups : List (List TaggedItem))
    → All IsNonempty groups
    → (out : List PulseFeedItem) × (traverse build_pulse_feed_item groups ≡ some out)
      × (total_posts out ≡ total_length groups)
unfolding traverse build_pulse_feed_item
traverse-build_pulse_feed_item [] h = ([], refl, refl)
traverse-build_pulse_feed_item (g ∷ groups) ((a, t, e), h) =
    let (out, built, total) = traverse-build_pulse_feed_item groups h in
    subst
      (λ g.
        (out : List PulseFeedItem) × (traverse build_pulse_feed_item (g ∷ groups) ≡ some out)
        × (total_posts out ≡ total_length (g ∷ groups)))
      (sym e)
      (
        pulse_feed_item a t ∷ out,
        ap (λ o. o >>= (λ ys. some (pulse_feed_item a t ∷ ys))) built,
        ap (◌+◌ (length (a ∷ t))) total,
      )

module _ (rt : Runtime) where
  -- The tagged items give a feed: no group is empty, so no item of the feed fails. The feed's items
  -- have as many posts, taken together, as there are tagged items.
  pub publish_lem :
      (tagged : List TaggedItem)
      → (out : List PulseFeedItem) × (publish rt tagged ≡ some out)
        × (total_posts out ≡ length tagged)
  unfolding publish
  publish_lem tagged =
      let sorted = sort (by_publication rt) tagged in
      let groups = build_pulse_feed_groups rt sorted in
      let (flat, grouped) = build_pulse_feed_groups_lem rt sorted in
      let nonempty = grouped-All rt none groups grouped in
      let (out, built, total) =
        traverse-build_pulse_feed_item (rank_pulse_feed_groups rt groups)
          (rank_pulse_feed_groups-All rt IsNonempty groups nonempty) in
      (
        out,
        built,
        total
            ∙ total_length-perm (rank_pulse_feed_groups-perm rt groups nonempty)
            ∙ total_length-flatten groups
            ∙ ap length flat
            ∙ length-sort (by_publication rt) tagged,
      )
