-- ===== src/RelayUrl/Laws.antt =====
-- The diagnosis of relay URLs in apps/web/src/relay-url-diagnostics.ts.
use synchrono_city.Prelude.{
  ◌≡◌, refl, Bool, true, false, not, ◌&&◌, ◌||◌, Option, none, some, Bool-cases, inl, inr,
}
use synchrono_city.Prelude.Text.{JsString, codes, ◌===◌}
use synchrono_city.Prelude.Runtime.{Runtime}
use synchrono_city.RelayUrl.{Url, is_loopback_host, describe_urls, describe_relay_connection_issue}

-- The page's browser cannot reach the relay: it is on the local host of another machine, or a page
-- that came over HTTPS may not open a plain WebSocket.
abbrev pub is_unreachable : Runtime → Option Url → Option Url → Bool
is_unreachable rt none page = false
is_unreachable rt (some relay) none = false
is_unreachable rt (some relay) (some page) =
    (is_loopback_host rt relay.hostname && not (is_loopback_host rt page.hostname))
    || (relay.protocol === codes "ws:" && page.protocol === codes "https:")

abbrev pub is_reported : Option JsString → Bool
is_reported none = false
is_reported (some text) = true

describe_urls_lem :
    (rt : Runtime) (url : JsString) (relay page : Option Url)
    → is_reported (describe_urls rt url relay page) ≡ is_unreachable rt relay page
unfolding describe_urls
describe_urls_lem rt url none page = refl
describe_urls_lem rt url (some relay) none = refl
describe_urls_lem rt url (some relay) (some page) =
    elim (Bool-cases (relay.protocol === codes "ws:" && page.protocol === codes "https:")) [
      | inl mixed ↦
          elim (Bool-cases
            (is_loopback_host rt relay.hostname && not (is_loopback_host rt page.hostname))) [
              | inl far ↦ rw (mixed, far) refl
              | inr near ↦ rw (mixed, near) refl
            ]
      | inr plain ↦
          elim (Bool-cases
            (is_loopback_host rt relay.hostname && not (is_loopback_host rt page.hostname))) [
              | inl far ↦ rw (plain, far) refl
              | inr near ↦ rw (plain, near) refl
            ]
    ]

-- An issue is reported exactly if both URLs parse and either the relay is on a loopback host and the
-- page is not, or the relay's protocol is "ws:" and the page's is "https:".
pub describe_relay_connection_issue_lem :
    (rt : Runtime) (parse : JsString → Option Url) (relay_url page_url : JsString)
    → is_reported (describe_relay_connection_issue rt parse relay_url page_url)
      ≡ is_unreachable rt (parse relay_url) (parse page_url)
unfolding describe_relay_connection_issue
describe_relay_connection_issue_lem rt parse relay_url page_url =
    describe_urls_lem rt relay_url (parse relay_url) (parse page_url)
