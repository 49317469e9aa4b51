-- ===== src/RelayUrl.antt =====
-- apps/web/src/relay-url-diagnostics.ts: what is said of a relay's URL that the page cannot reach.
-- `new URL` is the browser's, a parameter: the protocol and the host name, `none` if it throws.
pub mod Laws
use synchrono_city.Prelude.{
  Bool, true, false, not, ◌&&◌, Option, none, some, List, [], ◌∷◌, ◌++◌, if◌then◌else◌,
}
use synchrono_city.Prelude.Text.{JsString, codes, ◌===◌, trim, includes}
use synchrono_city.Prelude.Runtime.{Runtime}

pub record Url : Type 0 where
  pub protocol : JsString
  pub hostname : JsString

abbrev pub loopback_hosts : List JsString
loopback_hosts =
    codes "localhost" ∷ codes "127.0.0.1" ∷ codes "::1" ∷ codes "[::1]" ∷ codes "0.0.0.0" ∷ []

unfoldable pub is_loopback_host : Runtime → JsString → Bool
is_loopback_host rt hostname = includes loopback_hosts (rt.to_lower_case (trim hostname))

-- `null` is `none`.
unfoldable pub describe_urls : Runtime → JsString → Option Url → Option Url → Option JsString
describe_urls rt relay_url none page = none
describe_urls rt relay_url (some relay) none = none
describe_urls rt relay_url (some relay) (some page) =
    let insecure = relay.protocol === codes "ws:" in
    let mixed = insecure && page.protocol === codes "https:" in
    if is_loopback_host rt relay.hostname && not (is_loopback_host rt page.hostname)
    then (if mixed
        then some (
            codes "Relay URL "
            ++ relay_url
            ++ codes
                " points to localhost over ws://. Remote HTTPS browsers cannot reach it. Set PRIMARY_RELAY_URL to a public wss:// relay URL.")
        else some (
            codes "Relay URL "
            ++ relay_url
            ++ codes " points to localhost. Browsers on "
            ++ page.hostname
            ++ codes " cannot reach it. Set PRIMARY_RELAY_URL to a reachable relay host."))
    else if mixed
    then some (
        codes "Relay URL "
        ++ relay_url
        ++ codes
            " uses ws:// while this page is loaded over HTTPS. Configure PRIMARY_RELAY_URL as wss://...")
    else none

unfoldable pub describe_relay_connection_issue :
    Runtime → (JsString → Option Url) → JsString → JsString → Option JsString
describe_relay_connection_issue rt parse relay_url page_url =
    describe_urls rt relay_url (parse relay_url) (parse page_url)
