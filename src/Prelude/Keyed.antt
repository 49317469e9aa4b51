-- ===== src/Prelude/Keyed.antt =====
-- Maps whose values stand at a key of their own, as notes by ID and relays by URL.
use synchrono_city.Prelude.{
  ◌≡◌, refl, sym, ap, ◌∙◌, Bool, ◌||◌, false, List, [], ◌∷◌, map, arith, count, if◌then◌else◌,
  Bool-cases, inl, inr, All,
}
use synchrono_city.Prelude.Text.{JsString, ◌===◌, ===_iff, includes}
use synchrono_city.Prelude.Sets.{IsDistinct}
use synchrono_city.Prelude.Maps.{JsMap, map_set, map_has, map_has_of_none, IsMap, map_set_all}

module _ {ℓ} {V : Type ℓ} (key : V → JsString) where
  abbrev pub IsKeyed : JsMap V → Type 0
  IsKeyed m = All (λ e. key e.1 ≡ e.0) m

  pub map_set-IsKeyed :
      (k : JsString) (v : V) (m : JsMap V) → key v ≡ k → IsKeyed m → IsKeyed (map_set k v m)
  unfolding map_set
  map_set-IsKeyed k v [] e h = (e, tt)
  map_set-IsKeyed k v ((j, w) ∷ m) e (h, hs) = elim (Bool-cases (j === k)) [
    | inl same ↦ rw same (e ∙ sym ((===_iff j k).0 same), hs)
    | inr other ↦ rw other (h, map_set-IsKeyed k v m e hs)
  ]

  pub map_set_all-IsKeyed :
      (vs : List V) (m : JsMap V) → IsKeyed m → IsKeyed (map_set_all m (map (λ v. (key v, v)) vs))
  unfolding map_set_all
  map_set_all-IsKeyed [] m h = h
  map_set_all-IsKeyed (v ∷ vs) m h =
      map_set_all-IsKeyed vs (map_set (key v) v m) (map_set-IsKeyed (key v) v m refl h)

  -- A key has one value or none.
  pub count-values :
      (k : JsString) (m : JsMap V)
      → IsMap m
      → IsKeyed m
      → count (λ v. key v === k) (map (λ e. e.1) m) ≡ (if map_has k m then 1 else 0)
  unfolding map_has
  count-values k [] h s = refl
  count-values k ((j, v) ∷ m) (fresh, h) (e, s) = elim (Bool-cases (j === k)) [
    | inl same ↦
        let absent : map_has k m ≡ false =
          ap (λ (i : JsString). map_has i m) (sym ((===_iff j k).0 same))
          ∙ map_has_of_none j m fresh in
        rw (e, same) (ground (arith, count-values k m h s, absent))
    | inr other ↦ rw (e, other) (ground (arith, count-values k m h s))
  ]

  -- The keys of the values are those of the map, and no two of them are the same.
  pub includes-keys :
      (k : JsString) (m : JsMap V)
      → IsKeyed m
      → includes (map key (map (λ e. e.1) m)) k ≡ map_has k m
  unfolding includes map_has
  includes-keys k [] s = refl
  includes-keys k ((j, v) ∷ m) (e, s) = rw e (ap (λ (b : Bool). j === k || b) (includes-keys k m s))

  pub keys-IsDistinct :
      (m : JsMap V) → IsMap m → IsKeyed m → IsDistinct (map key (map (λ e. e.1) m))
  keys-IsDistinct [] h s = tt
  keys-IsDistinct ((j, v) ∷ m) (fresh, h) (e, s) =
      (rw e (includes-keys j m s ∙ map_has_of_none j m fresh), keys-IsDistinct m h s)
