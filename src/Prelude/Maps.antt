-- ===== src/Prelude/Maps.antt =====
-- `Map` with string keys: an association list in insertion order. A write to a key that is there
-- keeps its place.
use synchrono_city.Prelude.{
  none-ne_some, sym, ◌≡◌, refl, Option, none, some, List, [], ◌∷◌, arith, if◌then◌else◌, length,
  All, All-zip_with, zero, suc, ℕ, get_elem?, ◌≢◌, Bool, true, false, ◌||◌, any, ◌≤◌, ◌<◌,
  Bool-cases, inl, inr,
}
use synchrono_city.Prelude.Text.{JsString, ◌===◌, ===_iff, ===_refl}

abbrev pub JsMap {ℓ} : Type ℓ → Type ℓ
JsMap V = List (JsString × V)

module _ {ℓ} {V : Type ℓ} where
  unfoldable pub map_get : JsString → JsMap V → Option V
  map_get k [] = none
  map_get k ((j, v) ∷ m) = if j === k then some v else map_get k m

  unfoldable pub map_set : JsString → V → JsMap V → JsMap V
  map_set k v [] = (k, v) ∷ []
  map_set k v ((j, w) ∷ m) = if j === k then (j, v) ∷ m else (j, w) ∷ map_set k v m

  -- A key has one entry at most.
  unfoldable pub map_delete : JsString → JsMap V → JsMap V
  map_delete k [] = []
  map_delete k ((j, v) ∷ m) = let rest = map_delete k m in if j === k then rest else (j, v) ∷ rest

  unfoldable pub map_set_all : JsMap V → List (JsString × V) → JsMap V
  map_set_all m [] = m
  map_set_all m ((k, v) ∷ es) = map_set_all (map_set k v m) es

  -- `new Map(entries)`: the last value of a key counts.
  unfoldable pub map_of : List (JsString × V) → JsMap V
  unfolding map_set_all map_set
  map_of es = map_set_all [] es

  pub map_get-map_set :
      (k j : JsString) (v : V) (m : JsMap V)
      → map_get j (map_set k v m) ≡ (if k === j then some v else map_get j m)
  unfolding map_get map_set
  map_get-map_set k j v [] = refl
  map_get-map_set k j v ((i, w) ∷ m) =
      ground (arith, ===_iff k j, ===_iff i k, ===_iff i j, map_get-map_set k j v m)

  pub map_get-map_delete :
      (k j : JsString) (m : JsMap V)
      → map_get j (map_delete k m) ≡ (if k === j then none else map_get j m)
  unfolding map_get map_delete
  map_get-map_delete k j [] = ground arith
  map_get-map_delete k j ((i, w) ∷ m) =
      ground (arith, ===_iff k j, ===_iff i k, ===_iff i j, map_get-map_delete k j m)

  pub length-map_delete-le : (k : JsString) (m : JsMap V) → length (map_delete k m) ≤ length m
  unfolding map_delete
  length-map_delete-le k [] = omega arith
  length-map_delete-le k ((i, w) ∷ m) = ground (arith, length-map_delete-le k m)

  pub length-map_delete-lt :
      (k : JsString) (m : JsMap V) {v : V}
      → map_get k m ≡ some v
      → length (map_delete k m) < length m
  unfolding map_get map_delete
  length-map_delete-lt k [] h = cc
  length-map_delete-lt k ((i, w) ∷ m) {v} h = elim (Bool-cases (i === k)) [
    | inl e ↦ simp e (omega (arith, length-map_delete-le k m))
    | inr e ↦ simp e (omega (arith, length-map_delete-lt k m {v = v} (simp e at h)))
  ]

  pub length-map_set :
      (k : JsString) (v : V) (m : JsMap V)
      → map_get k m ≡ none
      → length (map_set k v m) ≡ suc (length m)
  unfolding map_get map_set
  length-map_set k v [] h = refl
  length-map_set k v ((i, w) ∷ m) h = ground (arith, length-map_set k v m)

  -- No key stands twice.
  abbrev pub IsMap : JsMap V → Type ℓ
  IsMap [] = Unit
  IsMap ((k, v) ∷ m) = (map_get k m ≡ none) × IsMap m

  pub map_set-IsMap : (k : JsString) (v : V) (m : JsMap V) → IsMap m → IsMap (map_set k v m)
  unfolding map_set map_get
  map_set-IsMap k v [] h = (refl, tt)
  map_set-IsMap k v ((i, w) ∷ m) (fresh, h) = elim (Bool-cases (i === k)) [
    | inl e ↦ simp e (fresh, h)
    | inr e ↦
        simp e
          (ground (arith, map_get-map_set k i v m, ===_iff i k, ===_iff k i), map_set-IsMap k v m h)
  ]

  pub map_delete-IsMap : (k : JsString) (m : JsMap V) → IsMap m → IsMap (map_delete k m)
  unfolding map_delete
  map_delete-IsMap k [] h = tt
  map_delete-IsMap k ((i, w) ∷ m) (fresh, h) = elim (Bool-cases (i === k)) [
    | inl e ↦ simp e (map_delete-IsMap k m h)
    | inr e ↦ simp e (ground (arith, map_get-map_delete k i m), map_delete-IsMap k m h)
  ]

  -- In a map, an entry is what its key finds.
  pub map_get_of_entry :
      (m : JsMap V) (n : ℕ) (k : JsString) (v : V)
      → IsMap m
      → get_elem? m n ≡ some (k, v)
      → map_get k m ≡ some v
  unfolding map_get
  map_get_of_entry [] n k v h e = cc
  map_get_of_entry ((j, w) ∷ m) zero k v h e = ground (arith, ===_iff j k)
  map_get_of_entry ((j, w) ∷ m) (suc n) k v (fresh, h) e =
      ground (arith, ===_iff j k, map_get_of_entry m n k v h e)

  pub map_set-ne : (k : JsString) (v : V) (m : JsMap V) → map_set k v m ≢ []
  unfolding map_set
  map_set-ne k v [] = λ e. cc
  map_set-ne k v ((i, w) ∷ m) = ground arith

  -- Whether the map has the key.
  unfoldable pub map_has : JsString → JsMap V → Bool
  map_has k [] = false
  map_has k ((j, v) ∷ m) = j === k || map_has k m

  pub map_has-map_set :
      (k j : JsString) (v : V) (m : JsMap V) → map_has j (map_set k v m) ≡ (k === j || map_has j m)
  unfolding map_has map_set
  map_has-map_set k j v [] = refl
  map_has-map_set k j v ((i, w) ∷ m) =
      ground (arith, ===_iff k j, ===_iff i k, ===_iff i j, map_has-map_set k j v m)

  pub map_has-map_delete :
      (k j : JsString) (m : JsMap V)
      → map_has j (map_delete k m) ≡ (if k === j then false else map_has j m)
  unfolding map_has map_delete
  map_has-map_delete k j [] = ground arith
  map_has-map_delete k j ((i, w) ∷ m) =
      ground (arith, ===_iff k j, ===_iff i k, ===_iff i j, map_has-map_delete k j m)

  pub map_has_of_get :
      (k : JsString) (m : JsMap V) {v : V} → map_get k m ≡ some v → map_has k m ≡ true
  unfolding map_has map_get
  map_has_of_get k [] h = cc
  map_has_of_get k ((j, w) ∷ m) {v} h = elim (Bool-cases (j === k)) [
    | inl e ↦ rw e refl
    | inr e ↦ rw e (map_has_of_get k m {v = v} (rw e at h))
  ]

  pub map_has_of_none : (k : JsString) (m : JsMap V) → map_get k m ≡ none → map_has k m ≡ false
  unfolding map_has map_get
  map_has_of_none k [] h = refl
  map_has_of_none k ((j, w) ∷ m) h = elim (Bool-cases (j === k)) [
    | inl e ↦ absurd (none-ne_some (sym (rw e at h)))
    | inr e ↦ rw e (map_has_of_none k m (rw e at h))
  ]

  pub map_set_all-IsMap :
      (es : List (JsString × V)) (m : JsMap V) → IsMap m → IsMap (map_set_all m es)
  unfolding map_set_all
  map_set_all-IsMap [] m h = h
  map_set_all-IsMap ((k, v) ∷ es) m h = map_set_all-IsMap es (map_set k v m) (map_set-IsMap k v m h)

  pub map_of-IsMap : (es : List (JsString × V)) → IsMap (map_of es)
  unfolding map_of
  map_of-IsMap es = map_set_all-IsMap es [] tt

  pub map_has-map_set_all :
      (k : JsString) (es : List (JsString × V)) (m : JsMap V)
      → map_has k (map_set_all m es) ≡ (map_has k m || any (λ e. e.0 === k) es)
  unfolding map_set_all
  map_has-map_set_all k [] m = ground arith
  map_has-map_set_all k ((j, v) ∷ es) m =
      ground (arith, map_has-map_set_all k es (map_set j v m), map_has-map_set j k v m)

  -- The keys of a map differ from one that it does not have.
  pub map_get-none : (k : JsString) (m : JsMap V) → map_get k m ≡ none → All (λ e. e.0 ≢ k) m
  unfolding map_get
  map_get-none k [] h = tt
  map_get-none k ((j, w) ∷ m) h =
      (ground (arith, ===_iff j k), map_get-none k m (ground (arith, ===_iff j k)))

  -- Every entry is what its key finds.
  pub IsMap-entries : (m : JsMap V) → IsMap m → All (λ e. map_get e.0 m ≡ some e.1) m
  unfolding map_get
  IsMap-entries [] h = tt
  IsMap-entries ((k, v) ∷ m) (fresh, h) = (
    ground (arith, ===_refl k),
    All-zip_with (λ e ne at. ground (arith, ===_iff k e.0)) m (map_get-none k m fresh)
        (IsMap-entries m h),
  )
