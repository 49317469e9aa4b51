-- ===== src/Nostr/Session.antt =====
-- apps/web/src/nostr.ts: what the five queries and `publishSignedEvent` do alike with the socket of a
-- relay, from the promise to its settlement. What differs is the protocol, a parameter.
pub mod Laws
pub mod Gathering
use synchrono_city.Prelude.{
  Bool, true, false, ◌&&◌, Option, none, some, List, [], ◌∷◌, ◌++◌, if◌then◌else◌,
}
use synchrono_city.Prelude.Text.{JsString, codes, ◌===◌, or_string}
use synchrono_city.Social.Values.{
  JsValue, undefined, null, nan, infinite, boolean, number, string, array, object, Elements, end,
  element,
}
use synchrono_city.Nostr.Tags.{is_text}

-- The error that a promise is rejected with: one of the source's messages, a relay's, or the error
-- that a call threw.
pub data Failure : Type 0 where
  message : JsString → Failure
  thrown : Failure

pub data Outcome (R : Type 0) : Type 0 where
  resolved : R → Outcome R
  rejected : Failure → Outcome R

-- What a payload that is not a notice does: nothing, add to what is collected, send the frames and
-- succeed, or fail.
pub data Action (C : Type 0) : Type 0 where
  ignore : Action C
  collect : C → Action C
  complete : List JsValue → Action C
  refuse : JsString → Action C

-- `C` is what the handlers collect, `R` what the promise resolves to.
pub record Protocol (C R : Type 0) : Type 0 where
  pub initial : C
  -- the value that is sent, as JSON, when the socket opens
  pub request : JsValue
  -- `none` stands for an error that is thrown
  pub on_payload : Elements → C → Option (Action C)
  pub result : C → R
  pub timeout_text : JsString
  pub closed_text : JsString

pub record Session (C R : Type 0) : Type 0 where
  pub collected : C
  pub last_notice : JsString
  -- `settled`, and what the promise is settled with
  pub outcome : Option (Outcome R)
  pub timer_armed : Bool
  pub close_called : Bool
  pub sent : List JsValue

-- The events of the socket and the timer. A message carries what `JSON.parse` makes of its data,
-- `none` if it throws.
pub data SocketEvent : Type 0 where
  opened failed closed timed_out : SocketEvent
  received : Option JsValue → SocketEvent

-- `payload[0] === "NOTICE" && typeof payload[1] === "string"`
abbrev pub notice : Elements → Option JsString
notice (element head (element (string text) es)) =
    if is_text head (codes "NOTICE") then some text else none
notice _ = none

module _ {C R : Type 0} where
  -- `settled = true; window.clearTimeout(timeoutID); socket.close(); resolve(…)`, or `reject(…)`
  abbrev pub settle : Outcome R → Session C R → Session C R
  settle outcome s = record s { outcome = some outcome; timer_armed = false; close_called = true }

  -- `if (settled) { return; }`
  abbrev pub unless_settled : Option (Outcome R) → Outcome R → Session C R → Session C R
  unless_settled (some _) outcome s = s
  unless_settled none outcome s = settle outcome s

  unfoldable pub fail : Failure → Session C R → Session C R
  fail failure s = unless_settled s.outcome (rejected failure) s

  unfoldable pub on_error : Session C R → Session C R
  unfolding fail
  on_error s = fail (message (codes "Relay connection failed.")) s

module _ {C R : Type 0} (p : Protocol C R) where
  unfoldable pub start : Session C R
  start = record {
    collected = p.initial;
    last_notice = [];
    outcome = none;
    timer_armed = true;
    close_called = false;
    sent = [];
  }

  unfoldable pub succeed : Session C R → Session C R
  succeed s = unless_settled s.outcome (resolved (p.result s.collected)) s

  unfoldable pub on_open : Session C R → Session C R
  on_open s = record s { sent = s.sent ++ p.request ∷ [] }

  abbrev pub act : Session C R → Option (Action C) → Session C R
  act s none = fail thrown s
  act s (some ignore) = s
  act s (some (collect c)) = record s { collected = c }
  act s (some (complete frames)) = succeed (record s { sent = s.sent ++ frames })
  act s (some (refuse text)) = fail (message text) s

  abbrev pub dispatch : Elements → Session C R → Option JsString → Session C R
  dispatch payload s (some text) = record s { last_notice = text }
  dispatch payload s none = act s (p.on_payload payload s.collected)

  unfoldable pub on_message : Option JsValue → Session C R → Session C R
  unfolding fail succeed
  on_message none s = fail thrown s
  on_message (some (array end)) s = s
  on_message (some (array (element v es))) s = dispatch (element v es) s (notice (element v es))
  on_message (some _) s = s

  unfoldable pub on_close : Session C R → Session C R
  unfolding fail
  on_close s = fail (message (or_string s.last_notice p.closed_text)) s

  unfoldable pub on_timeout : Session C R → Session C R
  unfolding fail
  on_timeout s = fail (message p.timeout_text) s

  -- A cleared timer does not go off.
  abbrev pub go_off : Bool → Session C R → Session C R
  go_off true s = on_timeout s
  go_off false s = s

  unfoldable pub handle : SocketEvent → Session C R → Session C R
  unfolding on_open on_message on_error on_close on_timeout
  handle opened s = on_open s
  handle failed s = on_error s
  handle closed s = on_close s
  handle (received payload) s = on_message payload s
  handle timed_out s = go_off s.timer_armed s

  unfoldable pub run : List SocketEvent → Session C R → Session C R
  unfolding handle
  run [] s = s
  run (event ∷ events) s = run events (handle event s)
