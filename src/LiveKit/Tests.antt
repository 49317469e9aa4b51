-- ===== src/LiveKit/Tests.antt =====
-- The theorems on apps/web/src/livekit-session.ts at concrete events.
use synchrono_city.Prelude.{◌≡◌, refl, true, false, List, [], ◌∷◌, any, if◌then◌else◌}
use synchrono_city.Prelude.Text.{codes, ◌===◌}
use synchrono_city.LiveKit.{initial_session, track_subscribed, track_unsubscribed}
use synchrono_city.LiveKit.Laws.{
  Action, room_event, deafen, act_all, IsDeafened, session-IsDeafened,
}
use synchrono_city.LiveKit.Hearing.{objects_of, is_leave, attached_since, session-objects}

abbrev actions : List Action
actions =
    room_event (track_subscribed true 1 (codes "ann"))
    ∷ deafen true
    ∷ room_event (track_subscribed true 2 (codes "bob"))
    ∷ []

session-IsDeafened_example : IsDeafened (act_all actions initial_session)
session-IsDeafened_example = session-IsDeafened actions

-- The camera of one participant is taken off, and then the other participant's microphone put on.
abbrev call : List Action
call =
    room_event (track_subscribed true 1 (codes "ann"))
    ∷ room_event (track_subscribed true 2 (codes "bob"))
    ∷ room_event (track_unsubscribed false (codes "ann"))
    ∷ deafen true
    ∷ room_event (track_subscribed true 3 (codes "bob"))
    ∷ []

session-objects_example :
    objects_of (codes "bob") (act_all call initial_session)
    ≡ (if any is_leave call then [] else attached_since (codes "bob") call)
session-objects_example = session-objects (codes "bob") call

bob_is_heard : attached_since (codes "bob") call ≡ 2 ∷ 3 ∷ []
unfolding ◌===◌
bob_is_heard = refl

ann_is_silent : attached_since (codes "ann") call ≡ []
unfolding ◌===◌
ann_is_silent = refl
