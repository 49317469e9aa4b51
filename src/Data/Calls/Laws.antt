-- ===== src/Data/Calls/Laws.antt =====
-- Who is at a place, in apps/web/src/data.ts.
use synchrono_city.Prelude.{
  ◌≡◌, ◌++◌, ◌&&◌, ◌||◌, Option, List, [], ◌∷◌, arith, Bool-cases, inl, inr, append-nil,
  append_assoc, ap, ◌∙◌, sym,
}
use synchrono_city.Prelude.Text.{JsString, ◌===◌, includes, add_all}
use synchrono_city.Prelude.Sets.{includes-add_all, IsDistinct, add_all-IsDistinct, add_all-prefix}
use synchrono_city.Data.Types.{Place, CallSession}
use synchrono_city.Data.Calls.{connected_call, is_at, callers, get_place_participant_pubkeys}

-- Who is at a place whose occupants are listed once each: its occupants, first and in their order,
-- and, exactly if a connected LiveKit call is there, the call's participants and the current user,
-- each of them once.
pub get_place_participant_pubkeys_lem :
    (place : Place) (active_call : Option CallSession) (current k : JsString)
    → IsDistinct place.occupant_pubkeys
    → let present = get_place_participant_pubkeys place active_call current in
      let call = connected_call active_call in
      (includes present k ≡ (
        includes place.occupant_pubkeys k
        || (is_at call place.geohash && (includes (callers call) k || current === k))))
      × ((more : List JsString) × (present ≡ place.occupant_pubkeys ++ more))
      × IsDistinct present
unfolding get_place_participant_pubkeys
get_place_participant_pubkeys_lem place active_call current k distinct =
    let call = connected_call active_call in
    elim (Bool-cases (is_at call place.geohash)) [
      | inr away ↦ simp away (ground arith, ([], sym (append-nil place.occupant_pubkeys)), distinct)
      | inl there ↦ simp there (
        ground (
          arith,
          includes-add_all (add_all place.occupant_pubkeys (callers call)) (current ∷ []) k,
          includes-add_all place.occupant_pubkeys (callers call) k,
          one current k,
        ),
        twice place.occupant_pubkeys (callers call) (current ∷ []),
        add_all-IsDistinct (add_all place.occupant_pubkeys (callers call)) (current ∷ [])
            (add_all-IsDistinct place.occupant_pubkeys (callers call) distinct),
      )
    ]
  where
    twice :
        (xs ys zs : List JsString)
        → (more : List JsString) × (add_all (add_all xs ys) zs ≡ xs ++ more)
    twice xs ys zs =
        let (m, e) = add_all-prefix xs ys in
        let (n, f) = add_all-prefix (add_all xs ys) zs in
        (m ++ n, f ∙ ap (λ (s : List JsString). s ++ n) e ∙ append_assoc xs m n)

    one : (a b : JsString) → includes (a ∷ []) b ≡ (a === b)
    one a b = ground arith
