-- ===== src/Prelude/Sets.antt =====
-- Laws of the sets of strings that are kept as lists of members.
use synchrono_city.Prelude.{
  ◌≡◌, refl, sym, ap, ◌∙◌, ◌++◌, true, false, ◌||◌, List, [], ◌∷◌, arith, Bool-cases, inl, inr,
  append_assoc, append-nil,
}
use synchrono_city.Prelude.Text.{JsString, ◌===◌, ===_iff, includes, add, add_all, dedupe}

pub includes-append :
    (xs ys : List JsString) (s : JsString)
    → includes (xs ++ ys) s ≡ (includes xs s || includes ys s)
unfolding includes
includes-append [] ys s = refl
includes-append (x ∷ xs) ys s = ground (arith, includes-append xs ys s)

pub includes-add :
    (xs : List JsString) (k s : JsString) → includes (add xs k) s ≡ (includes xs s || k === s)
unfolding add includes
includes-add xs k s = elim (Bool-cases (k === s)) [
  | inl same ↦
      let e : k ≡ s = (===_iff k s).0 same in
      ground (arith, includes-append xs (k ∷ []) s, ap (includes xs) e)
  | inr other ↦ ground (arith, includes-append xs (k ∷ []) s)
]

pub includes-add_all :
    (xs ys : List JsString) (s : JsString)
    → includes (add_all xs ys) s ≡ (includes xs s || includes ys s)
unfolding add_all includes
includes-add_all xs [] s = ground arith
includes-add_all xs (y ∷ ys) s =
    ground (arith, includes-add_all (add xs y) ys s, includes-add xs y s)

pub includes-dedupe : (xs : List JsString) (s : JsString) → includes (dedupe xs) s ≡ includes xs s
unfolding dedupe includes
includes-dedupe xs s = includes-add_all [] xs s

-- No member stands twice.
abbrev pub IsDistinct : List JsString → Type 0
IsDistinct [] = Unit
IsDistinct (x ∷ xs) = (includes xs x ≡ false) × IsDistinct xs

append-IsDistinct :
    (xs : List JsString) (k : JsString)
    → IsDistinct xs
    → includes xs k ≡ false
    → IsDistinct (xs ++ k ∷ [])
unfolding includes
append-IsDistinct [] k h new = (refl, tt)
append-IsDistinct (x ∷ xs) k (fresh, h) new = (
  ground (arith, includes-append xs (k ∷ []) x, ===_iff x k, ===_iff k x),
  append-IsDistinct xs k h (ground arith),
)

pub add-IsDistinct : (xs : List JsString) (k : JsString) → IsDistinct xs → IsDistinct (add xs k)
unfolding add
add-IsDistinct xs k h = elim (Bool-cases (includes xs k)) [
  | inl there ↦ rw there h
  | inr new ↦ rw new (append-IsDistinct xs k h new)
]

pub add_all-IsDistinct : (xs ys : List JsString) → IsDistinct xs → IsDistinct (add_all xs ys)
unfolding add_all
add_all-IsDistinct xs [] h = h
add_all-IsDistinct xs (y ∷ ys) h = add_all-IsDistinct (add xs y) ys (add-IsDistinct xs y h)

add_there : (xs : List JsString) (k : JsString) → includes xs k ≡ true → add xs k ≡ xs
unfolding add
add_there xs k h = rw h refl

add_new : (xs : List JsString) (k : JsString) → includes xs k ≡ false → add xs k ≡ xs ++ k ∷ []
unfolding add
add_new xs k h = rw h refl

-- The given members come first, in their order.
pub add_all-prefix : (xs ys : List JsString) → (more : List JsString) × (add_all xs ys ≡ xs ++ more)
unfolding add_all
add_all-prefix xs [] = ([], sym (append-nil xs))
add_all-prefix xs (y ∷ ys) = elim (Bool-cases (includes xs y)) [
  | inl there ↦
      let (more, e) = add_all-prefix (add xs y) ys in
      (more, e ∙ ap (λ (s : List JsString). s ++ more) (add_there xs y there))
  | inr new ↦
      let (more, e) = add_all-prefix (add xs y) ys in
      (
        y ∷ more,
        e
            ∙ ap (λ (s : List JsString). s ++ more) (add_new xs y new)
            ∙ append_assoc xs (y ∷ []) more,
      )
]
