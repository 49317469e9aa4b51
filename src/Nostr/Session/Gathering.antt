-- ===== src/Nostr/Session/Gathering.antt =====
-- Runs of apps/web/src/nostr.ts in which a relay sends payloads, and then one that decides.
use synchrono_city.Prelude.{
  some-injective, ◌≡◌, ap, ◌∙◌, Option, none, some, List, [], ◌∷◌, ◌++◌, map, ◌>>=◌,
}
use synchrono_city.Prelude.Text.{JsString}
use synchrono_city.Social.Values.{array, Elements, end, element}
use synchrono_city.Nostr.Session.{
  Outcome, Action, ignore, collect, complete, refuse, Protocol, SocketEvent, opened, received,
  notice, start, run,
}
use synchrono_city.Nostr.Session.Laws.{
  Verdict, pending, decided, of_action, of_payload, judge, first_decision, start-first_decision,
}

-- The message with the payload.
abbrev pub payload_event : Elements → SocketEvent
payload_event payload = received (some (array payload))

module _ {C R : Type 0} (p : Protocol C R) where
  -- What is collected after an action that decides nothing.
  abbrev pub undecided : C → Option (Action C) → Option C
  undecided c (some ignore) = some c
  undecided c (some (collect d)) = some d
  undecided c _ = none

  abbrev pub gather_one : Elements → C → Option JsString → Option C
  gather_one payload c (some text) = some c
  gather_one payload c none = undecided c (p.on_payload payload c)

  -- What is collected after the payloads, if none of them decides anything.
  unfoldable pub gather : List Elements → C → Option C
  gather [] c = some c
  gather (end ∷ payloads) c = gather payloads c
  gather (element v es ∷ payloads) c =
      gather_one (element v es) c (notice (element v es)) >>= λ d. gather payloads d

  abbrev pub Decides : Elements → C → Outcome R → Type 0
  Decides payload c outcome = (n : JsString) → judge p (payload_event payload) c n ≡ decided outcome

  -- One payload, and the rest by the induction.
  by_action :
      (action : Option (Action C)) (c : C) (n : JsString) (events : List SocketEvent)
      (payloads : List Elements) (d : C) (outcome : Outcome R)
      → (undecided c action >>= λ e. gather payloads e) ≡ some d
      → ((e : C)
          → gather payloads e ≡ some d
          → (m : JsString) → first_decision p events e m ≡ some outcome)
      → (elim (of_action p c n action) as (λ _. Option (Outcome R)) [
        | decided o ↦ some o
        | pending e m ↦ first_decision p events e m
      ])
        ≡ some outcome
  by_action none c n events payloads d outcome h ih = cc
  by_action (some ignore) c n events payloads d outcome h ih = ih c h n
  by_action (some (collect e)) c n events payloads d outcome h ih = ih e h n
  by_action (some (complete frames)) c n events payloads d outcome h ih = cc
  by_action (some (refuse text)) c n events payloads d outcome h ih = cc

  by_notice :
      (text : Option JsString) (payload : Elements) (c : C) (n : JsString)
      (events : List SocketEvent) (payloads : List Elements) (d : C) (outcome : Outcome R)
      → (gather_one payload c text >>= λ e. gather payloads e) ≡ some d
      → ((e : C)
          → gather payloads e ≡ some d
          → (m : JsString) → first_decision p events e m ≡ some outcome)
      → (elim (of_payload p payload c n text) as (λ _. Option (Outcome R)) [
        | decided o ↦ some o
        | pending e m ↦ first_decision p events e m
      ])
        ≡ some outcome
  by_notice (some text) payload c n events payloads d outcome h ih = ih c h text
  by_notice none payload c n events payloads d outcome h ih =
      by_action (p.on_payload payload c) c n events payloads d outcome h ih

  decided-first :
      (verdict : Verdict C R) (events : List SocketEvent) (outcome : Outcome R)
      → verdict ≡ decided outcome
      → (elim verdict as (λ _. Option (Outcome R)) [
        | decided o ↦ some o
        | pending e m ↦ first_decision p events e m
      ])
        ≡ some outcome
  decided-first (decided o) events outcome h = cc
  decided-first (pending e m) events outcome h = cc

  first_decision-gather :
      (payloads : List Elements) (last : Elements) (later : List SocketEvent) (c d : C)
      (outcome : Outcome R)
      → gather payloads c ≡ some d
      → Decides last d outcome
      → (n : JsString)
      → first_decision p (map payload_event payloads ++ payload_event last ∷ later) c n
        ≡ some outcome
  unfolding gather first_decision
  first_decision-gather [] last later c d outcome h decides n =
      decided-first (judge p (payload_event last) c n) later outcome
        (ap (λ (e : C). judge p (payload_event last) e n) (some-injective h) ∙ decides n)
  first_decision-gather (end ∷ payloads) last later c d outcome h decides n =
      first_decision-gather payloads last later c d outcome h decides n
  first_decision-gather (element v es ∷ payloads) last later c d outcome h decides n =
      by_notice (notice (element v es)) (element v es) c n
        (map payload_event payloads ++ payload_event last ∷ later) payloads d outcome h
        (λ e g m. first_decision-gather payloads last later e d outcome g decides m)

  -- A relay answers with payloads that decide nothing, and then with one that decides: the promise is
  -- settled with its outcome, whatever comes later.
  pub run-gather :
      (payloads : List Elements) (last : Elements) (later : List SocketEvent) (d : C)
      (outcome : Outcome R)
      → gather payloads p.initial ≡ some d
      → Decides last d outcome
      → (run p
          (opened ∷ map payload_event payloads ++ payload_event last ∷ later)
          (start p)).outcome
        ≡ some outcome
  unfolding first_decision
  run-gather payloads last later d outcome h decides =
      start-first_decision p (opened ∷ map payload_event payloads ++ payload_event last ∷ later)
      ∙ first_decision-gather payloads last later p.initial d outcome h decides []
