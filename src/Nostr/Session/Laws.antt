-- ===== src/Nostr/Session/Laws.antt =====
-- How the promises of apps/web/src/nostr.ts settle.
use synchrono_city.Prelude.{
  none-ne_some, ◌≡◌, refl, sym, ap, ◌∙◌, ◌⊎◌, Bool, true, false, Option, none, some, List, [], ◌∷◌,
  ◌++◌, any, inl, inr,
}
use mathlib.Core.Path.{subst}
use synchrono_city.Prelude.Text.{JsString, codes, or_string}
use synchrono_city.Social.Values.{
  undefined, null, nan, infinite, boolean, number, string, array, object, Elements, end, element,
}
use synchrono_city.Nostr.Session.{
  Failure, message, thrown, Outcome, resolved, rejected, Action, ignore, collect, complete, refuse,
  Protocol, Session, SocketEvent, opened, failed, closed, timed_out, received, notice, start,
  unless_settled, succeed, fail, act, go_off, dispatch, on_open, on_message, on_error, on_close,
  on_timeout, handle, run,
}

-- What one event means, without a session: what is collected and the last notice afterwards, or the
-- outcome that it decides.
pub data Verdict (C R : Type 0) : Type 0 where
  pending : C → JsString → Verdict C R
  decided : Outcome R → Verdict C R

module _ {C R : Type 0} (p : Protocol C R) where
  abbrev pub of_action : C → JsString → Option (Action C) → Verdict C R
  of_action c n none = decided (rejected thrown)
  of_action c n (some ignore) = pending c n
  of_action c n (some (collect d)) = pending d n
  of_action c n (some (complete frames)) = decided (resolved (p.result c))
  of_action c n (some (refuse text)) = decided (rejected (message text))

  abbrev pub of_payload : Elements → C → JsString → Option JsString → Verdict C R
  of_payload payload c n (some text) = pending c text
  of_payload payload c n none = of_action c n (p.on_payload payload c)

  abbrev pub judge : SocketEvent → C → JsString → Verdict C R
  judge opened c n = pending c n
  judge failed c n = decided (rejected (message (codes "Relay connection failed.")))
  judge closed c n = decided (rejected (message (or_string n p.closed_text)))
  judge timed_out c n = decided (rejected (message p.timeout_text))
  judge (received none) c n = decided (rejected thrown)
  judge (received (some (array end))) c n = pending c n
  judge (received (some (array (element v es)))) c n =
      of_payload (element v es) c n (notice (element v es))
  judge (received (some _)) c n = pending c n

  -- The specification: the first event that decides an outcome decides it for good.
  unfoldable pub first_decision : List SocketEvent → C → JsString → Option (Outcome R)
  first_decision [] c n = none
  first_decision (event ∷ events) c n = elim (judge event c n) [
    | decided outcome ↦ some outcome
    | pending d m ↦ first_decision events d m
  ]

  -- The promise is pending, the timer armed and the socket not closed, or none of the three.
  abbrev pub IsPending : Session C R → Type 0
  IsPending s = (s.outcome ≡ none) × (s.timer_armed ≡ true) × (s.close_called ≡ false)

  abbrev pub IsSettled : Outcome R → Session C R → Type 0
  IsSettled o s = (s.outcome ≡ some o) × (s.timer_armed ≡ false) × (s.close_called ≡ true)

  -- What an event makes of a pending session agrees with what it means.
  abbrev pub Follows : Verdict C R → Session C R → Type 0
  Follows (pending c n) s = IsPending s × (s.collected ≡ c) × (s.last_notice ≡ n)
  Follows (decided o) s = IsSettled o s

  unless_settled-pending :
      (outcome : Outcome R) (s : Session C R)
      → IsPending s
      → IsSettled outcome (unless_settled s.outcome outcome s)
  unless_settled-pending outcome s (o, t, c) =
      subst (λ (d : Option (Outcome R)). IsSettled outcome (unless_settled d outcome s)) (sym o)
        (refl, refl, refl)

  unless_settled-IsSettled :
      (o outcome : Outcome R) (s : Session C R)
      → IsSettled o s
      → IsSettled o (unless_settled s.outcome outcome s)
  unless_settled-IsSettled o outcome s (e, t, c) =
      subst (λ (d : Option (Outcome R)). IsSettled o (unless_settled d outcome s)) (sym e) (e, t, c)

  fail-Follows :
      (failure : Failure) (s : Session C R)
      → IsPending s
      → Follows (decided (rejected failure)) (fail failure s)
  unfolding fail
  fail-Follows failure s h = unless_settled-pending (rejected failure) s h

  act-Follows :
      (action : Option (Action C)) (s : Session C R)
      → IsPending s
      → Follows (of_action s.collected s.last_notice action) (act p s action)
  unfolding succeed
  act-Follows none s h = fail-Follows thrown s h
  act-Follows (some ignore) s h = (h, refl, refl)
  act-Follows (some (collect c)) s h = (h, refl, refl)
  act-Follows (some (complete frames)) s h =
      unless_settled-pending (resolved (p.result s.collected))
        (record s { sent = s.sent ++ frames }) h
  act-Follows (some (refuse text)) s h = fail-Follows (message text) s h

  dispatch-Follows :
      (payload : Elements) (text : Option JsString) (s : Session C R)
      → IsPending s
      → Follows (of_payload payload s.collected s.last_notice text) (dispatch p payload s text)
  dispatch-Follows payload none s h = act-Follows (p.on_payload payload s.collected) s h
  dispatch-Follows payload (some text) s h = (h, refl, refl)

  handle-Follows :
      (event : SocketEvent) (s : Session C R)
      → IsPending s
      → Follows (judge event s.collected s.last_notice) (handle p event s)
  unfolding handle on_open on_message on_error on_close on_timeout
  handle-Follows opened s h = (h, refl, refl)
  handle-Follows failed s h = fail-Follows _ s h
  handle-Follows closed s h = fail-Follows _ s h
  handle-Follows timed_out s h =
      subst
        (λ (armed : Bool). Follows (decided (rejected (message p.timeout_text))) (go_off p armed s))
        (sym h.1) (fail-Follows (message p.timeout_text) s h)
  handle-Follows (received none) s h = fail-Follows thrown s h
  handle-Follows (received (some (array end))) s h = (h, refl, refl)
  handle-Follows (received (some (array (element v es)))) s h =
      dispatch-Follows (element v es) (notice (element v es)) s h
  handle-Follows (received (some undefined)) s h = (h, refl, refl)
  handle-Follows (received (some null)) s h = (h, refl, refl)
  handle-Follows (received (some nan)) s h = (h, refl, refl)
  handle-Follows (received (some (infinite b))) s h = (h, refl, refl)
  handle-Follows (received (some (boolean b))) s h = (h, refl, refl)
  handle-Follows (received (some (number n))) s h = (h, refl, refl)
  handle-Follows (received (some (string t))) s h = (h, refl, refl)
  handle-Follows (received (some (object ps))) s h = (h, refl, refl)

  fail-IsSettled :
      (o : Outcome R) (failure : Failure) (s : Session C R)
      → IsSettled o s
      → IsSettled o (fail failure s)
  unfolding fail
  fail-IsSettled o failure s h = unless_settled-IsSettled o (rejected failure) s h

  act-IsSettled :
      (o : Outcome R) (action : Option (Action C)) (s : Session C R)
      → IsSettled o s
      → IsSettled o (act p s action)
  unfolding succeed
  act-IsSettled o none s h = fail-IsSettled o thrown s h
  act-IsSettled o (some ignore) s h = h
  act-IsSettled o (some (collect c)) s h = h
  act-IsSettled o (some (complete frames)) s h =
      unless_settled-IsSettled o (resolved (p.result s.collected))
        (record s { sent = s.sent ++ frames }) h
  act-IsSettled o (some (refuse text)) s h = fail-IsSettled o (message text) s h

  dispatch-IsSettled :
      (o : Outcome R) (payload : Elements) (text : Option JsString) (s : Session C R)
      → IsSettled o s
      → IsSettled o (dispatch p payload s text)
  dispatch-IsSettled o payload none s h = act-IsSettled o (p.on_payload payload s.collected) s h
  dispatch-IsSettled o payload (some text) s h = h

  handle-IsSettled :
      (o : Outcome R) (event : SocketEvent) (s : Session C R)
      → IsSettled o s
      → IsSettled o (handle p event s)
  unfolding handle on_open on_message on_error on_close on_timeout
  handle-IsSettled o opened s h = h
  handle-IsSettled o failed s h = fail-IsSettled o _ s h
  handle-IsSettled o closed s h = fail-IsSettled o _ s h
  handle-IsSettled o timed_out s h =
      subst (λ (armed : Bool). IsSettled o (go_off p armed s)) (sym h.1) h
  handle-IsSettled o (received none) s h = fail-IsSettled o thrown s h
  handle-IsSettled o (received (some (array end))) s h = h
  handle-IsSettled o (received (some (array (element v es)))) s h =
      dispatch-IsSettled o (element v es) (notice (element v es)) s h
  handle-IsSettled o (received (some undefined)) s h = h
  handle-IsSettled o (received (some null)) s h = h
  handle-IsSettled o (received (some nan)) s h = h
  handle-IsSettled o (received (some (infinite b))) s h = h
  handle-IsSettled o (received (some (boolean b))) s h = h
  handle-IsSettled o (received (some (number n))) s h = h
  handle-IsSettled o (received (some (string t))) s h = h
  handle-IsSettled o (received (some (object ps))) s h = h

  -- Whatever happens later, a settled promise keeps its outcome, its timer stays cleared and its
  -- socket closed.
  pub run-IsSettled :
      (o : Outcome R) (events : List SocketEvent) (s : Session C R)
      → IsSettled o s
      → IsSettled o (run p events s)
  unfolding run
  run-IsSettled o [] s h = h
  run-IsSettled o (event ∷ events) s h =
      run-IsSettled o events (handle p event s) (handle-IsSettled o event s h)

  after-Follows :
      (verdict : Verdict C R) (events : List SocketEvent) (s : Session C R)
      → Follows verdict s
      → ((t : Session C R)
          → IsPending t
          → (run p events t).outcome ≡ first_decision events t.collected t.last_notice)
      → (run p events s).outcome ≡ (elim verdict as (λ _. Option (Outcome R)) [
        | decided outcome ↦ some outcome
        | pending d m ↦ first_decision events d m
      ])
  after-Follows (pending c n) events s (h, e, l) ih =
      ih s h
      ∙ ap (λ (k : C). first_decision events k s.last_notice) e
      ∙ ap (first_decision events c) l
  after-Follows (decided o) events s h ih = (run-IsSettled o events s h).0

  run-first_decision :
      (events : List SocketEvent) (s : Session C R)
      → IsPending s
      → (run p events s).outcome ≡ first_decision events s.collected s.last_notice
  unfolding run first_decision
  run-first_decision [] s h = h.0
  run-first_decision (event ∷ events) s h =
      after-Follows (judge event s.collected s.last_notice) events (handle p event s)
        (handle-Follows event s h) (run-first_decision events)

  start-IsPending : IsPending (start p)
  unfolding start
  start-IsPending = (refl, refl, refl)

  -- Whatever events the socket and the timer send, in whatever order: the promise is settled with
  -- what the first event decides that decides anything, and with nothing if none does.
  pub start-first_decision :
      (events : List SocketEvent)
      → (run p events (start p)).outcome ≡ first_decision events p.initial []
  unfolding start
  start-first_decision events = run-first_decision events (start p) start-IsPending

  -- Either the promise is pending, the timer armed and the socket not closed, or the promise is settled
  -- and has both undone.
  abbrev pub IsConsistent : Session C R → Type 0
  IsConsistent s = IsPending s ⊎ ((o : Outcome R) × IsSettled o s)

  Follows-IsConsistent :
      (verdict : Verdict C R) (s : Session C R) → Follows verdict s → IsConsistent s
  Follows-IsConsistent (pending c n) s (h, e, l) = inl h
  Follows-IsConsistent (decided o) s h = inr (o, h)

  handle-IsConsistent :
      (event : SocketEvent) (s : Session C R) → IsConsistent s → IsConsistent (handle p event s)
  handle-IsConsistent event s (inl h) =
      Follows-IsConsistent (judge event s.collected s.last_notice) (handle p event s)
        (handle-Follows event s h)
  handle-IsConsistent event s (inr (o, h)) = inr (o, handle-IsSettled o event s h)

  run_from-IsConsistent :
      (events : List SocketEvent) (s : Session C R) → IsConsistent s → IsConsistent (run p events s)
  unfolding run
  run_from-IsConsistent [] s h = h
  run_from-IsConsistent (event ∷ events) s h =
      run_from-IsConsistent events (handle p event s) (handle-IsConsistent event s h)

  -- After any events: the promise is pending, the timer armed and the socket not closed, or the promise
  -- is settled, the timer cleared and the socket closed.
  pub run-IsConsistent : (events : List SocketEvent) → IsConsistent (run p events (start p))
  run-IsConsistent events = run_from-IsConsistent events (start p) (inl start-IsPending)

  -- The events after which nothing is awaited: the socket fails or closes, or the time is over.
  abbrev pub is_final : SocketEvent → Bool
  is_final failed = true
  is_final closed = true
  is_final timed_out = true
  is_final opened = false
  is_final (received payload) = false

  some_decision :
      (verdict : Verdict C R) (events : List SocketEvent)
      → ((c : C) (n : JsString) → (o : Outcome R) × (first_decision events c n ≡ some o))
      → (o : Outcome R) × ((elim verdict as (λ _. Option (Outcome R)) [
        | decided outcome ↦ some outcome
        | pending d m ↦ first_decision events d m
      ])
          ≡ some o)
  some_decision (pending c n) events ih = ih c n
  some_decision (decided o) events ih = (o, refl)

  first_decision-exists :
      (events : List SocketEvent) (c : C) (n : JsString)
      → any is_final events ≡ true
      → (o : Outcome R) × (first_decision events c n ≡ some o)
  unfolding first_decision
  first_decision-exists [] c n h = cc
  first_decision-exists (failed ∷ events) c n h = (_, refl)
  first_decision-exists (closed ∷ events) c n h = (_, refl)
  first_decision-exists (timed_out ∷ events) c n h = (_, refl)
  first_decision-exists (opened ∷ events) c n h = first_decision-exists events c n h
  first_decision-exists (received payload ∷ events) c n h =
      some_decision (judge (received payload) c n) events
        (λ d m. first_decision-exists events d m h)

  -- A query or publication ends: once the socket fails or closes, or the timer goes off, the promise is
  -- settled, the timer cleared and the socket closed.
  pub run-settles :
      (events : List SocketEvent)
      → any is_final events ≡ true
      → (o : Outcome R) × IsSettled o (run p events (start p))
  run-settles events h = elim (run-IsConsistent events) [
    | inr settled ↦ settled
    | inl pending_still ↦
        let (o, e) = first_decision-exists events p.initial [] h in
        absurd (none-ne_some (sym pending_still.0 ∙ start-first_decision events ∙ e))
  ]
