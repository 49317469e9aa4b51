-- ===== src/Prelude/Lists.antt =====
-- Lists measured by native numbers, with the array methods that the client calls.
use Prim.Native.Nat.{ℕ, zero, suc, ◌+◌, ◌-◌, ◌≤◌, min}
use mathlib.Core.Path.{◌≡◌, refl, ap}
use mathlib.Core.Bool.{Bool, true, false, not, ◌&&◌, ◌||◌}
use mathlib.Core.Logic.{inl, inr, ◌≢◌}
use mathlib.Core.List.{List, [], ◌∷◌, ◌++◌, Perm, perm_middle}
use mathlib.Core.List.Perm
use mathlib.Core.Option
use mathlib.Core.Option.{Option, none, some}
use native.Mathlib.Omega.{arith}
use synchrono_city.Prelude.Tests.{if◌then◌else◌, Bool-cases}

pub none-ne_some {ℓ} : {A : Type ℓ} {a : A} → none ≢ some a
none-ne_some e = cc

pub some-injective {ℓ} : {A : Type ℓ} {a b : A} → some a ≡ some b → a ≡ b
some-injective h = cc

-- A chain of calls that may fail.
infixl 1 ◌>>=◌
abbrev pub ◌>>=◌ {ℓ κ} : {A : Type ℓ} {B : Type κ} → Option A → (A → Option B) → Option B
none >>= f = none
some a >>= f = f a

module _ {ℓ} {A : Type ℓ} where
  abbrev pub length : List A → ℕ
  length [] = 0
  length (x ∷ xs) = suc (length xs)

  abbrev pub head? : List A → Option A
  head? [] = none
  head? (x ∷ xs) = some x

  -- `xs.slice(0, n)`
  abbrev pub take : ℕ → List A → List A
  take zero xs = []
  take (suc n) [] = []
  take (suc n) (x ∷ xs) = x ∷ take n xs

  -- `xs.slice(n)`
  abbrev pub drop : ℕ → List A → List A
  drop zero xs = xs
  drop (suc n) [] = []
  drop (suc n) (x ∷ xs) = drop n xs

  -- `xs.filter(p)`
  abbrev pub filter : (A → Bool) → List A → List A
  filter p [] = []
  filter p (x ∷ xs) = let rest = filter p xs in if p x then x ∷ rest else rest

  -- `xs.find(p)`
  abbrev pub find? : (A → Bool) → List A → Option A
  find? p [] = none
  find? p (x ∷ xs) = if p x then some x else find? p xs

  -- `xs.some(p)`
  abbrev pub any : (A → Bool) → List A → Bool
  any p [] = false
  any p (x ∷ xs) = p x || any p xs

  abbrev pub all : (A → Bool) → List A → Bool
  all p [] = true
  all p (x ∷ xs) = p x && all p xs

  -- the elements that pass, counted
  abbrev pub count : (A → Bool) → List A → ℕ
  count p [] = 0
  count p (x ∷ xs) = (if p x then 1 else 0) + count p xs

  -- a write through a reference to the element at a position
  abbrev pub modify : ℕ → (A → A) → List A → List A
  modify i f [] = []
  modify zero f (x ∷ xs) = f x ∷ xs
  modify (suc i) f (x ∷ xs) = x ∷ modify i f xs

  abbrev pub get_elem? : List A → ℕ → Option A
  get_elem? [] i = none
  get_elem? (x ∷ xs) zero = some x
  get_elem? (x ∷ xs) (suc i) = get_elem? xs i

  abbrev pub remove_at : ℕ → List A → List A
  remove_at i [] = []
  remove_at zero (x ∷ xs) = xs
  remove_at (suc i) (x ∷ xs) = x ∷ remove_at i xs

  abbrev pub flatten : List (List A) → List A
  flatten [] = []
  flatten (x ∷ xs) = x ++ flatten xs

module _ {ℓ} {A : Type ℓ} where
  pub length-append : (xs ys : List A) → length (xs ++ ys) ≡ length xs + length ys
  length-append [] ys = omega arith
  length-append (x ∷ xs) ys = omega (arith, length-append xs ys)

  pub length-take-le : (n : ℕ) (xs : List A) → length (take n xs) ≤ n
  length-take-le zero xs = omega arith
  length-take-le (suc n) [] = omega arith
  length-take-le (suc n) (x ∷ xs) = omega (arith, length-take-le n xs)

  pub length-take : (n : ℕ) (xs : List A) → length (take n xs) ≡ min n (length xs)
  length-take zero xs = omega arith
  length-take (suc n) [] = omega arith
  length-take (suc n) (x ∷ xs) = omega (arith, length-take n xs)

  pub take-append-drop : (n : ℕ) (xs : List A) → take n xs ++ drop n xs ≡ xs
  take-append-drop zero xs = refl
  take-append-drop (suc n) [] = refl
  take-append-drop (suc n) (x ∷ xs) = ap (◌∷◌ x) (take-append-drop n xs)

  pub length-drop : (n : ℕ) (xs : List A) → length (drop n xs) ≡ length xs - n
  length-drop zero xs = omega arith
  length-drop (suc n) [] = omega arith
  length-drop (suc n) (x ∷ xs) = omega (arith, length-drop n xs)

  pub filter-append :
      (p : A → Bool) (xs ys : List A) → filter p (xs ++ ys) ≡ filter p xs ++ filter p ys
  filter-append p [] ys = refl
  filter-append p (x ∷ xs) ys = ground (arith, filter-append p xs ys)

  pub length-filter : (p : A → Bool) (xs : List A) → length (filter p xs) ≡ count p xs
  length-filter p [] = refl
  length-filter p (x ∷ xs) = ground (arith, length-filter p xs)

  pub count-append : (p : A → Bool) (xs ys : List A) → count p (xs ++ ys) ≡ count p xs + count p ys
  count-append p [] ys = omega arith
  count-append p (x ∷ xs) ys = omega (arith, count-append p xs ys)

  pub count-filter-le : (p q : A → Bool) (xs : List A) → count p (filter q xs) ≤ count p xs
  count-filter-le p q [] = omega arith
  count-filter-le p q (x ∷ xs) = ground (arith, count-filter-le p q xs)

  pub count-take-le : (p : A → Bool) (n : ℕ) (xs : List A) → count p (take n xs) ≤ count p xs
  count-take-le p zero xs = omega arith
  count-take-le p (suc n) [] = omega arith
  count-take-le p (suc n) (x ∷ xs) = omega (arith, count-take-le p n xs)

  pub get_elem?-modify_ne :
      (i j : ℕ) (f : A → A) (xs : List A) → i ≢ j → get_elem? (modify j f xs) i ≡ get_elem? xs i
  get_elem?-modify_ne i j f [] h = refl
  get_elem?-modify_ne zero zero f (x ∷ xs) h = absurd (h refl)
  get_elem?-modify_ne zero (suc j) f (x ∷ xs) h = refl
  get_elem?-modify_ne (suc i) zero f (x ∷ xs) h = refl
  get_elem?-modify_ne (suc i) (suc j) f (x ∷ xs) h = get_elem?-modify_ne i j f xs (omega arith)

  pub get_elem?-modify_self :
      (i : ℕ) (f : A → A) (xs : List A)
      → get_elem? (modify i f xs) i ≡ Option.map f (get_elem? xs i)
  get_elem?-modify_self i f [] = refl
  get_elem?-modify_self zero f (x ∷ xs) = refl
  get_elem?-modify_self (suc i) f (x ∷ xs) = get_elem?-modify_self i f xs

  pub get_elem?-append_left :
      (xs ys : List A) (i : ℕ) {x : A} → get_elem? xs i ≡ some x → get_elem? (xs ++ ys) i ≡ some x
  get_elem?-append_left [] ys i h = cc
  get_elem?-append_left (x ∷ xs) ys zero h = h
  get_elem?-append_left (x ∷ xs) ys (suc i) h = get_elem?-append_left xs ys i h

  pub get_elem?-append_last : (xs : List A) (x : A) → get_elem? (xs ++ x ∷ []) (length xs) ≡ some x
  get_elem?-append_last [] x = refl
  get_elem?-append_last (y ∷ xs) x = get_elem?-append_last xs x

  pub count-remove_at :
      (p : A → Bool) (k : ℕ) (xs : List A) {a : A}
      → get_elem? xs k ≡ some a
      → count p (remove_at k xs) + (if p a then 1 else 0) ≡ count p xs
  count-remove_at p k [] h = cc
  count-remove_at p zero (x ∷ xs) h = ground arith
  count-remove_at p (suc k) (x ∷ xs) h = omega (arith, count-remove_at p k xs h)

  pub count-modify :
      (p : A → Bool) (f : A → A)
      → ((a : A) → p (f a) ≡ p a)
      → (i : ℕ) (xs : List A) → count p (modify i f xs) ≡ count p xs
  count-modify p f same i [] = refl
  count-modify p f same zero (x ∷ xs) = rw (same x)
  count-modify p f same (suc i) (x ∷ xs) = omega (arith, count-modify p f same i xs)

  pub length-modify : (i : ℕ) (f : A → A) (xs : List A) → length (modify i f xs) ≡ length xs
  length-modify i f [] = refl
  length-modify zero f (x ∷ xs) = refl
  length-modify (suc i) f (x ∷ xs) = ap suc (length-modify i f xs)

  pub perm-flatten-cons :
      (x : A) (xs ys : List A) {zs : List A} → Perm (xs ++ ys) zs → Perm (xs ++ x ∷ ys) (x ∷ zs)
  perm-flatten-cons x xs ys p = Perm.trans (perm_middle xs ys) (Perm.cons x p)

-- `All P xs`: every element of `xs` satisfies `P`.
module _ {ℓ κ} {A : Type ℓ} (P : A → Type κ) where
  abbrev pub All : List A → Type κ
  All [] = Unit
  All (x ∷ xs) = P x × All xs

  pub All-append : (xs ys : List A) → All xs → All ys → All (xs ++ ys)
  All-append [] ys h k = k
  All-append (x ∷ xs) ys (p, h) k = (p, All-append xs ys h k)

  pub All-append_left : (xs ys : List A) → All (xs ++ ys) → All xs
  All-append_left [] ys h = tt
  All-append_left (x ∷ xs) ys (p, h) = (p, All-append_left xs ys h)

  pub All-append_right : (xs ys : List A) → All (xs ++ ys) → All ys
  All-append_right [] ys h = h
  All-append_right (x ∷ xs) ys (p, h) = All-append_right xs ys h

  pub All-take : (n : ℕ) (xs : List A) → All xs → All (take n xs)
  All-take zero xs h = tt
  All-take (suc n) [] h = tt
  All-take (suc n) (x ∷ xs) (p, h) = (p, All-take n xs h)

  pub All-drop : (n : ℕ) (xs : List A) → All xs → All (drop n xs)
  All-drop zero xs h = h
  All-drop (suc n) [] h = tt
  All-drop (suc n) (x ∷ xs) (p, h) = All-drop n xs h

  pub All-guard : (b : Bool) (xs : List A) → All xs → All (if b then xs else [])
  All-guard true xs h = h
  All-guard false xs h = tt

  pub All-intro : ((a : A) → P a) → (xs : List A) → All xs
  All-intro f [] = tt
  All-intro f (x ∷ xs) = (f x, All-intro f xs)

pub All-map {ℓ κ μ} :
    {A : Type ℓ} {P : A → Type κ} {Q : A → Type μ}
    → ((a : A) → P a → Q a)
    → (xs : List A) → All P xs
    → All Q xs
All-map f [] h = tt
All-map f (x ∷ xs) (p, h) = (f x p, All-map f xs h)

pub All-zip_with {ℓ κ μ ν} :
    {A : Type ℓ} {P : A → Type κ} {Q : A → Type μ} {R : A → Type ν}
    → ((a : A) → P a → Q a → R a)
    → (xs : List A) → All P xs
    → All Q xs
    → All R xs
All-zip_with f [] h k = tt
All-zip_with f (x ∷ xs) (p, h) (q, k) = (f x p q, All-zip_with f xs h k)

-- Where nothing is counted, every element fails the test.
pub count-zero {ℓ} :
    {A : Type ℓ} (p : A → Bool) (xs : List A) → count p xs ≡ 0 → All (λ a. p a ≡ false) xs
count-zero p [] h = tt
count-zero p (x ∷ xs) h = ground (arith, count-zero p xs)

-- What a filter lets through passes its test.
module _ {ℓ} {A : Type ℓ} (p : A → Bool) where
  pub filter-All : (xs : List A) → All (λ a. p a ≡ true) (filter p xs)
  filter-All [] = tt
  filter-All (x ∷ xs) = ground (arith, filter-All xs)

  pub filter_keeps-All {κ} : (P : A → Type κ) (xs : List A) → All P xs → All P (filter p xs)
  filter_keeps-All P [] h = tt
  filter_keeps-All P (x ∷ xs) (h, k) = ground (arith, filter_keeps-All P xs k)

  pub filter_of_All : (xs : List A) → All (λ a. p a ≡ true) xs → filter p xs ≡ xs
  filter_of_All [] h = refl
  filter_of_All (x ∷ xs) (h, k) = ground (arith, filter_of_All xs k)

  pub filter_of_none : (xs : List A) → All (λ a. p a ≡ false) xs → filter p xs ≡ []
  filter_of_none [] h = refl
  filter_of_none (x ∷ xs) (h, k) = ground (arith, filter_of_none xs k)

  -- Those that pass a second test, and then the others, are those that pass the first.
  pub filter-split :
      (q : A → Bool) (xs : List A)
      → Perm (filter (λ a. p a && q a) xs ++ filter (λ a. p a && not (q a)) xs) (filter p xs)
  filter-split q [] = Perm.rfl
  filter-split q (x ∷ xs) = elim (Bool-cases (p x)) [
    | inr out ↦ rw out (filter-split q xs)
    | inl inside ↦ elim (Bool-cases (q x)) [
      | inl same ↦ rw (inside, same) (Perm.cons x (filter-split q xs))
      | inr other ↦ rw (inside, other) (perm-flatten-cons x _ _ (filter-split q xs))
    ]
  ]

  -- Those that pass, and then the others, are all.
  pub filter-partition : (xs : List A) → Perm (filter p xs ++ filter (λ a. not (p a)) xs) xs
  filter-partition [] = Perm.rfl
  filter-partition (x ∷ xs) = elim (Bool-cases (p x)) [
    | inl same ↦ rw same (Perm.cons x (filter-partition xs))
    | inr other ↦ rw other (perm-flatten-cons x _ _ (filter-partition xs))
  ]
