-- ===== src/LiveKit/Objects.antt =====
-- The audio elements of a participant in the map of apps/web/src/livekit-session.ts.
use synchrono_city.Prelude.{
  ℕ, ◌≡◌, refl, sym, ap, ◌∙◌, Bool, or_else, List, [], ◌∷◌, ◌++◌, append-nil, map, if◌then◌else◌,
  Bool-cases, inl, inr,
}
use synchrono_city.Prelude.Text.{JsString, ◌===◌, ===_iff}
use synchrono_city.Prelude.Maps.{
  JsMap, map_get, map_set, map_delete, map_get-map_set, map_get-map_delete,
}
use synchrono_city.LiveKit.{AudioElement, set_muted}

abbrev pub objects_in : JsString → JsMap (List AudioElement) → List ℕ
objects_in k m = map (λ e. e.object) (or_else (map_get k m) [])

objects-set_muted :
    (enabled : Bool) (es : List AudioElement)
    → map (λ (e : AudioElement). e.object) (set_muted enabled es) ≡ map (λ e. e.object) es
objects-set_muted enabled [] = refl
objects-set_muted enabled (e ∷ es) = ap (◌∷◌ e.object) (objects-set_muted enabled es)

pub objects_in-deafen :
    (k : JsString) (enabled : Bool) (m : JsMap (List AudioElement))
    → objects_in k (map (λ e. (e.0, set_muted enabled e.1)) m) ≡ objects_in k m
unfolding map_get
objects_in-deafen k enabled [] = refl
objects_in-deafen k enabled ((j, es) ∷ m) = elim (Bool-cases (j === k)) [
  | inl same ↦ rw same (objects-set_muted enabled es)
  | inr other ↦ rw other (objects_in-deafen k enabled m)
]

pub objects_in-map_delete :
    (k identity : JsString) (m : JsMap (List AudioElement))
    → objects_in k (map_delete identity m) ≡ (if identity === k then [] else objects_in k m) ++ []
objects_in-map_delete k identity m = elim (Bool-cases (identity === k)) [
  | inl same ↦ rw (map_get-map_delete identity k m, same) refl
  | inr other ↦ rw (map_get-map_delete identity k m, other) (sym (append-nil (objects_in k m)))
]

map-append_one :
    (es : List AudioElement) (e : AudioElement)
    → map (λ (a : AudioElement). a.object) (es ++ e ∷ []) ≡ map (λ a. a.object) es ++ e.object ∷ []
map-append_one [] e = refl
map-append_one (x ∷ es) e = ap (◌∷◌ x.object) (map-append_one es e)

pub objects_in-map_set :
    (k identity : JsString) (e : AudioElement) (m : JsMap (List AudioElement))
    → objects_in k (map_set identity (or_else (map_get identity m) [] ++ e ∷ []) m)
      ≡ objects_in k m ++ (if identity === k then e.object ∷ [] else [])
objects_in-map_set k identity e m = elim (Bool-cases (identity === k)) [
  | inl same ↦
      rw (map_get-map_set identity k (or_else (map_get identity m) [] ++ e ∷ []) m, same)
        (map-append_one (or_else (map_get identity m) []) e
          ∙ ap (λ (j : JsString). objects_in j m ++ e.object ∷ []) ((===_iff identity k).0 same))
  | inr other ↦
      rw (map_get-map_set identity k (or_else (map_get identity m) [] ++ e ∷ []) m, other)
        (sym (append-nil (objects_in k m)))
]
