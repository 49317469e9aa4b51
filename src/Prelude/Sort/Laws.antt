-- ===== src/Prelude/Sort/Laws.antt =====
-- The sort returns a sorted permutation that keeps the order of equal elements; comparators that
-- are built from comparators.
use mathlib.Core.List.{Perm}
use mathlib.Core.List.Perm
use synchrono_city.Prelude.{
  ◌≡◌, refl, inl, inr, Bool, true, false, List, [], ◌∷◌, arith, All, All-map, Bool-cases, filter,
  count, length, suc,
}
use synchrono_city.Prelude.Int.{ℤ, is_positive, one_sided}
use synchrono_city.Prelude.Sort.{insert, sort, Before, IsSorted, IsComparator, then_by}

module _ {ℓ} {A : Type ℓ} (cmp : A → A → ℤ) where
  insert-perm : (x : A) (ys : List A) → Perm (insert cmp x ys) (x ∷ ys)
  unfolding insert
  insert-perm x [] = Perm.rfl
  insert-perm x (y ∷ ys) = elim (Bool-cases (is_positive (cmp x y))) [
    | inl after ↦ rw after (Perm.trans (Perm.cons y (insert-perm x ys)) (Perm.swap x y ys))
    | inr before ↦ rw before Perm.rfl
  ]

  -- The sort loses and invents nothing.
  pub sort-perm : (xs : List A) → Perm (sort cmp xs) xs
  unfolding sort
  sort-perm [] = Perm.rfl
  sort-perm (x ∷ xs) = Perm.trans (insert-perm x (sort cmp xs)) (Perm.cons x (sort-perm xs))

module _ {ℓ κ} {A : Type ℓ} (P : A → Type κ) (cmp : A → A → ℤ) where
  insert-All : (x : A) (ys : List A) → P x → All P ys → All P (insert cmp x ys)
  unfolding insert
  insert-All x [] p h = (p, tt)
  insert-All x (y ∷ ys) p h = ground (arith, insert-All x ys p h.1)

  pub sort-All : (xs : List A) → All P xs → All P (sort cmp xs)
  unfolding sort
  sort-All [] h = tt
  sort-All (x ∷ xs) h = insert-All x (sort cmp xs) h.0 (sort-All xs h.1)

module _ {ℓ} {A : Type ℓ} (cmp : A → A → ℤ) (ok : IsComparator cmp) where
  total : (x y : A) → is_positive (cmp x y) ≡ true → Before cmp y x
  total x y h = ok.swap_ge y x (ground (arith, one_sided (cmp x y)))

  insert-IsSorted : (x : A) (ys : List A) → IsSorted cmp ys → IsSorted cmp (insert cmp x ys)
  unfolding insert
  insert-IsSorted x [] s = (tt, tt)
  insert-IsSorted x (y ∷ ys) (h, s) = elim (Bool-cases (is_positive (cmp x y))) [
    | inl after ↦
        rw after (insert-All (Before cmp y) cmp x ys (total x y after) h, insert-IsSorted x ys s)
    | inr before ↦ rw before (
        let le : Before cmp x y = ground arith in
        ((le, All-map (λ z b. ok.trans x y z le b) ys h), (h, s)))
  ]

  -- The result is ascending.
  pub sort-IsSorted : (xs : List A) → IsSorted cmp (sort cmp xs)
  unfolding sort
  sort-IsSorted [] = tt
  sort-IsSorted (x ∷ xs) = insert-IsSorted x (sort cmp xs) (sort-IsSorted xs)

-- Elements that a test selects and that all compare as equal keep their order.
module _ {ℓ} {A : Type ℓ} (cmp : A → A → ℤ) (p : A → Bool)
    (tied : (x y : A) → p x ≡ true → p y ≡ true → is_positive (cmp x y) ≡ false) where
  filter-insert : (x : A) (ys : List A) → filter p (insert cmp x ys) ≡ filter p (x ∷ ys)
  unfolding insert
  filter-insert x [] = refl
  filter-insert x (y ∷ ys) = ground (arith, filter-insert x ys, tied x y)

  pub filter-sort : (xs : List A) → filter p (sort cmp xs) ≡ filter p xs
  unfolding sort
  filter-sort [] = refl
  filter-sort (x ∷ xs) = ground (arith, filter-insert x (sort cmp xs), filter-sort xs)

-- Breaking ties of one comparator by another gives a comparator.
module _ {ℓ} {A : Type ℓ} (c d : A → A → ℤ) (hc : IsComparator c) (hd : IsComparator d) where
  pub then_by-IsComparator : IsComparator (then_by c d)
  then_by-IsComparator = record {
    swap_le = λ x y h.
        ground
          (arith, hc.swap_le x y, hc.swap_le y x, hc.swap_ge x y, hc.swap_ge y x, hd.swap_le x y);
    swap_ge = λ x y h.
        ground
          (arith, hc.swap_le x y, hc.swap_le y x, hc.swap_ge x y, hc.swap_ge y x, hd.swap_ge x y);
    trans = λ x y z h k. ground (
      arith,
      hc.trans x y z,
      hc.trans y z x,
      hc.trans z x y,
      hc.swap_le x z,
      hc.swap_ge x z,
      hc.swap_le z x,
      hc.swap_ge z x,
      hc.swap_le x y,
      hc.swap_ge x y,
      hc.swap_le y x,
      hc.swap_ge y x,
      hc.swap_le y z,
      hc.swap_ge y z,
      hc.swap_le z y,
      hc.swap_ge z y,
      hd.trans x y z,
    );
  }

-- Reading the elements through a function.
pub on-IsComparator {ℓ κ} :
    {A : Type ℓ} {B : Type κ} (f : A → B) (cmp : B → B → ℤ)
    → IsComparator cmp
    → IsComparator (λ x y. cmp (f x) (f y))
on-IsComparator f cmp ok = record {
  swap_le = λ x y. ok.swap_le (f x) (f y);
  swap_ge = λ x y. ok.swap_ge (f x) (f y);
  trans = λ x y z. ok.trans (f x) (f y) (f z);
}

-- Exchanging the arguments: the descending order.
pub flip-IsComparator {ℓ} :
    {A : Type ℓ} (cmp : A → A → ℤ) → IsComparator cmp → IsComparator (λ x y. cmp y x)
flip-IsComparator cmp ok = record {
  swap_le = λ x y. ok.swap_le y x;
  swap_ge = λ x y. ok.swap_ge y x;
  trans = λ x y z h k. ok.trans z y x k h;
}

module _ {ℓ} {A : Type ℓ} (cmp : A → A → ℤ) where
  length-insert : (x : A) (ys : List A) → length (insert cmp x ys) ≡ suc (length ys)
  unfolding insert
  length-insert x [] = refl
  length-insert x (y ∷ ys) = ground (arith, length-insert x ys)

  pub length-sort : (xs : List A) → length (sort cmp xs) ≡ length xs
  unfolding sort
  length-sort [] = refl
  length-sort (x ∷ xs) = omega (arith, length-insert x (sort cmp xs), length-sort xs)

-- A count of the elements does not see their order.
module _ {ℓ} {A : Type ℓ} (cmp : A → A → ℤ) (p : A → Bool) where
  count-insert : (x : A) (ys : List A) → count p (insert cmp x ys) ≡ count p (x ∷ ys)
  unfolding insert
  count-insert x [] = refl
  count-insert x (y ∷ ys) = ground (arith, count-insert x ys)

  pub count-sort : (xs : List A) → count p (sort cmp xs) ≡ count p xs
  unfolding sort
  count-sort [] = refl
  count-sort (x ∷ xs) = omega (arith, count-insert x (sort cmp xs), count-sort xs)
