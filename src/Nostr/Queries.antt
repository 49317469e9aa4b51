-- ===== src/Nostr/Queries.antt =====
-- apps/web/src/nostr.ts: what the queries share, their arguments' normalization and the payloads of
-- a subscription.
pub mod Profiles
pub mod Beacons
pub mod GeoNotes
pub mod KindOne
pub mod Laws
use synchrono_city.Prelude.{
  ℕ, suc, ◌/◌, Bool, true, false, not, ◌&&◌, ◌||◌, Option, none, some, List, [], ◌∷◌, if◌then◌else◌,
  leb,
}
use Prim.Native.String.{String}
use synchrono_city.Prelude.Int.{ℤ, pos, negsuc, leb_ℤ}
use synchrono_city.Prelude.Text.{JsString, codes, ◌===◌, trim, truthy}
use synchrono_city.Rollup.{JsNumber, finite}
use synchrono_city.Social.Values.{
  JsValue, infinite, number, string, array, object, Elements, end, element, Properties, bare,
  property,
}
use synchrono_city.Nostr.Platform.{Platform}
use synchrono_city.Nostr.Tags.{is_text}
use synchrono_city.Nostr.Session.{Failure, message, thrown, Action, ignore, complete, Protocol}

-- What a query does before it waits: it throws, it answers at once, or it opens a socket.
pub data Query (C R : Type 0) : Type 0 where
  refused : Failure → Query C R
  answered : R → Query C R
  asked : JsString → Protocol C R → Query C R

-- A function that throws, with its error, or returns.
pub data Checked (A : Type 0) : Type 0 where
  throws : Failure → Checked A
  returns : A → Checked A

abbrev pub require : JsString → JsString → Checked JsString
require text error = if truthy text then returns text else throws (message error)

module _ (p : Platform) where
  unfoldable pub normalize_geohash : JsString → JsString → Checked JsString
  normalize_geohash geohash error = require (p.runtime.to_lower_case (trim geohash)) error

  abbrev pub socket_url : Option (JsString × JsString) → Checked JsString
  socket_url none = throws thrown
  socket_url (some (protocol, text)) =
      if protocol === codes "ws:" || protocol === codes "wss:"
      then returns text
      else throws (message (codes "Relay URL must use ws:// or wss://."))

  unfoldable pub normalize_relay_url : JsString → Checked JsString
  normalize_relay_url relay_url =
      if truthy (trim relay_url)
      then socket_url (p.parse_url (trim relay_url))
      else throws (message (codes "Relay URL unavailable."))

-- `typeof limit === "number" && Number.isFinite(limit) && limit > 0 ? Math.floor(limit) : fallback`
unfoldable pub limit_or : Option JsNumber → ℕ → ℕ
limit_or (some (finite (pos n) d)) fallback = if leb 1 n then n / suc d else fallback
limit_or _ fallback = fallback

-- `payload[0] === name && payload[1] === text`
abbrev pub addressed : JsString → JsString → Elements → Bool
addressed name text (element head (element second es)) = is_text head name && is_text second text
addressed name text _ = false

-- `payload[2]`
abbrev pub third : Elements → JsValue
third (element head (element second (element v es))) = v
third _ = JsValue.undefined

abbrev pub literal : String → JsValue
literal text = string (codes text)

abbrev pub frame : String → JsString → Elements → JsValue
frame name id rest = array (element (literal name) (element (string id) rest))

abbrev pub close_frame : JsString → JsValue
close_frame id = frame "CLOSE" id end

abbrev pub field : String → JsValue → Properties → Properties
field name v ps = property (codes name) v ps

abbrev pub one : JsValue → JsValue
one v = array (element v end)

abbrev pub whole : ℕ → JsValue
whole n = number (pos n)

-- The answer to the end of the stored events, and to any other payload.
abbrev pub on_eose : {C : Type 0} → JsString → List JsValue → Elements → Action C
on_eose id frames payload = if addressed (codes "EOSE") id payload then complete frames else ignore

-- `a > b` and `a >= b` on numbers
abbrev pub exceeds : JsValue → JsValue → Bool
exceeds (number a) (number b) = not (leb_ℤ a b)
exceeds (number a) (infinite positive) = not positive
exceeds (infinite positive) (number b) = positive
exceeds (infinite positive) (infinite other) = positive && not other
exceeds _ _ = false

abbrev pub at_least : JsValue → JsValue → Bool
at_least (number a) (number b) = leb_ℤ b a
at_least (number a) (infinite positive) = not positive
at_least (infinite positive) (number b) = positive
at_least (infinite positive) (infinite other) = positive || not other
at_least _ _ = false
