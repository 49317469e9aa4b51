-- ===== src/AppState/Relays.antt =====
-- apps/web/src/app-state.tsx: the list of relays, as the server gives it and as the user changes it.
-- `new URL` is the browser's, a parameter.
pub mod Laws
use synchrono_city.Prelude.{
  Bool, true, false, not, ◌&&◌, ◌||◌, Option, none, some, or_else, List, [], ◌∷◌, ◌++◌, map, filter,
  if◌then◌else◌, ◌>>=◌,
}
use synchrono_city.Prelude.Text.{JsString, codes, ◌===◌, trim, truthy, or_string, includes}
use synchrono_city.Prelude.Maps.{JsMap, map_set}
use synchrono_city.Data.Types.{RelayListEntry}
use synchrono_city.Data.Calls.{create_default_relay_list_entry}

pub record ParsedUrl : Type 0 where
  pub protocol : JsString
  pub pathname : JsString
  pub search : JsString
  pub hash : JsString
  -- `parsed.toString()`
  pub text : JsString

pub record RelayListOverrides : Type 0 where
  pub added : List RelayListEntry
  pub removed : List JsString

-- `s.slice(0, -1)`
abbrev pub drop_last : JsString → JsString
drop_last [] = []
drop_last (c ∷ []) = []
drop_last (c ∷ d ∷ s) = c ∷ drop_last (d ∷ s)

unfoldable pub upsert_relay_list_override : RelayListOverrides → RelayListEntry → RelayListOverrides
upsert_relay_list_override current next = record {
  added = filter (λ entry. not (entry.url === next.url)) current.added ++ next ∷ [];
  removed = filter (λ url. not (url === next.url)) current.removed;
}

module _ (parse_url : JsString → Option ParsedUrl) where
  abbrev pub serialized : ParsedUrl → Option JsString
  serialized parsed =
      if parsed.protocol === codes "ws:" || parsed.protocol === codes "wss:"
      then some (
          if parsed.pathname === codes "/" && not (truthy parsed.search) && not (truthy parsed.hash)
          then drop_last parsed.text
          else parsed.text)
      else none

  -- `none`: an error is thrown
  unfoldable pub normalize_relay_list_url : JsString → Option JsString
  normalize_relay_list_url url =
      if truthy (trim url) then parse_url (trim url) >>= serialized else none

  unfoldable pub create_relay_list_entry :
      JsString → JsString → Option Bool → Option Bool → Option RelayListEntry
  unfolding normalize_relay_list_url
  create_relay_list_entry name url inbox outbox = normalize_relay_list_url url >>= λ normalized.
      some (record {
        url = normalized;
        name = or_string (trim name) normalized;
        inbox = or_else inbox true;
        outbox = or_else outbox true;
      })

  abbrev pub merge_entry :
      RelayListEntry → JsMap RelayListEntry → Option JsString → JsMap RelayListEntry
  merge_entry entry merged none = merged
  merge_entry entry merged (some url) =
      map_set url
        (record {
          url = url;
          name = or_string (trim entry.name) url;
          inbox = entry.inbox;
          outbox = entry.outbox;
        })
        merged

  -- The loop over the entries.
  unfoldable pub merge_entries : List RelayListEntry → JsMap RelayListEntry → JsMap RelayListEntry
  unfolding normalize_relay_list_url
  merge_entries [] merged = merged
  merge_entries (entry ∷ entries) merged =
      merge_entries entries (merge_entry entry merged (normalize_relay_list_url entry.url))

  abbrev pub or_default : JsString → JsString → List RelayListEntry → List RelayListEntry
  or_default name url [] = create_default_relay_list_entry name url ∷ []
  or_default name url (entry ∷ entries) = entry ∷ entries

  -- The URLs that count as removed: never the primary relay's.
  abbrev pub removed_urls : JsString → RelayListOverrides → List JsString
  removed_urls primary overrides = filter (λ url. not (url === primary)) overrides.removed

  unfoldable pub merge_relay_list_entries :
      List RelayListEntry → RelayListOverrides → JsString → JsString → Option (List RelayListEntry)
  unfolding merge_entries
  merge_relay_list_entries bootstrap overrides name fallback =
      normalize_relay_list_url fallback >>= λ primary. some (
        or_default name fallback (
          filter (λ entry. not (includes (removed_urls primary overrides) entry.url))
            (map (λ e. e.1)
              (merge_entries (or_default name fallback bootstrap ++ overrides.added) []))))
