-- ===== src/AppState/Relays/Laws.antt =====
-- The list of relays of apps/web/src/app-state.tsx.
use synchrono_city.Prelude.{
  some-injective, ◌≡◌, ◌≢◌, ◌≤◌, ◌⊎◌, refl, Bool, true, not, Option, none, some, List, [], ◌∷◌,
  ◌++◌, map, filter, arith, count, inl, inr, All, count-filter-le, filter-All,
}
use mathlib.Core.Path.{subst}
use synchrono_city.Prelude.Text.{JsString, ◌===◌, includes}
use synchrono_city.Prelude.Maps.{JsMap, IsMap, map_set-IsMap}
use synchrono_city.Prelude.Keyed.{IsKeyed, map_set-IsKeyed, count-values}
use synchrono_city.Data.Types.{RelayListEntry}
use synchrono_city.Data.Calls.{create_default_relay_list_entry}
use synchrono_city.AppState.Relays.{
  ParsedUrl, RelayListOverrides, normalize_relay_list_url, merge_entry, merge_entries, or_default,
  removed_urls, merge_relay_list_entries,
}

abbrev entry_url : RelayListEntry → JsString
entry_url entry = entry.url

abbrev pub has_url : JsString → RelayListEntry → Bool
has_url url entry = entry.url === url

module _ (parse_url : JsString → Option ParsedUrl) where
  merge_entry-IsMap :
      (entry : RelayListEntry) (m : JsMap RelayListEntry) (url : Option JsString)
      → IsMap m
      → IsKeyed entry_url m
      → IsMap (merge_entry parse_url entry m url)
        × IsKeyed entry_url (merge_entry parse_url entry m url)
  merge_entry-IsMap entry m none h s = (h, s)
  merge_entry-IsMap entry m (some url) h s =
      (map_set-IsMap url _ m h, map_set-IsKeyed entry_url url _ m refl s)

  merge_entries-IsMap :
      (entries : List RelayListEntry) (m : JsMap RelayListEntry)
      → IsMap m
      → IsKeyed entry_url m
      → IsMap (merge_entries parse_url entries m)
        × IsKeyed entry_url (merge_entries parse_url entries m)
  unfolding merge_entries
  merge_entries-IsMap [] m h s = (h, s)
  merge_entries-IsMap (entry ∷ entries) m h s =
      let url = normalize_relay_list_url parse_url entry.url in
      let (g, t) = merge_entry-IsMap entry m url h s in
      merge_entries-IsMap entries (merge_entry parse_url entry m url) g t

  -- The entries that are kept, or the default entry if none is.
  kept_or_default :
      (name fallback url : JsString) (removed : List JsString) (entries : List RelayListEntry)
      → count (has_url url) entries ≤ 1
      → All (λ e. not (includes removed e.url) ≡ true) entries
      → (or_default parse_url name fallback entries ≢ [])
        × (count (has_url url) (or_default parse_url name fallback entries) ≤ 1)
        × ((or_default parse_url name fallback entries
              ≡ create_default_relay_list_entry name fallback ∷ [])
            ⊎ All
                (λ e. not (includes removed e.url) ≡ true)
                (or_default parse_url name fallback entries))
  kept_or_default name fallback url removed [] h k = (λ e. cc, ground arith, inl refl)
  kept_or_default name fallback url removed (entry ∷ entries) h k = (λ e. cc, h, inr k)

  -- The list of relays, where it can be computed, is not empty; no two of its entries have the same
  -- URL; and either it is the default entry alone, or none of its entries has a URL that was removed,
  -- where the primary relay's does not count as removed.
  pub merge_relay_list_entries_lem :
      (bootstrap : List RelayListEntry) (overrides : RelayListOverrides)
      (name fallback primary url : JsString) (entries : List RelayListEntry)
      → normalize_relay_list_url parse_url fallback ≡ some primary
      → merge_relay_list_entries parse_url bootstrap overrides name fallback ≡ some entries
      → (entries ≢ [])
        × (count (has_url url) entries ≤ 1)
        × ((entries ≡ create_default_relay_list_entry name fallback ∷ [])
            ⊎ All
                (λ e. not (includes (removed_urls parse_url primary overrides) e.url) ≡ true)
                entries)
  unfolding merge_relay_list_entries
  merge_relay_list_entries_lem bootstrap overrides name fallback primary url entries p h =
      let removed = removed_urls parse_url primary overrides in
      let keep : RelayListEntry → Bool = λ e. not (includes removed e.url) in
      let merged =
        merge_entries parse_url (or_default parse_url name fallback bootstrap ++ overrides.added)
          [] in
      let all = map (λ e. e.1) merged in
      let (g, s) =
        merge_entries-IsMap (or_default parse_url name fallback bootstrap ++ overrides.added) [] tt
          tt in
      let once : count (has_url url) all ≤ 1 =
        ground (arith, count-values entry_url url merged g s) in
      let fewer : count (has_url url) (filter keep all) ≤ 1 =
        omega (arith, count-filter-le (has_url url) keep all, once) in
      let result : or_default parse_url name fallback (filter keep all) ≡ entries =
        some-injective (rw p at h) in
      subst
        (λ (es : List RelayListEntry).
          (es ≢ [])
          × (count (has_url url) es ≤ 1)
          × ((es ≡ create_default_relay_list_entry name fallback ∷ [])
              ⊎ All (λ e. not (includes removed e.url) ≡ true) es))
        result
        (kept_or_default name fallback url removed (filter keep all) fewer (filter-All keep all))
