-- ===== src/Prelude/Sort.antt =====
-- `Array.prototype.sort` with a comparator. ECMAScript fixes the result for a consistent comparator:
-- the stable ascending permutation. Insertion sort computes it, and is what the model runs.
pub mod Laws
use synchrono_city.Prelude.{ℕ, ◌≡◌, Bool, List, [], ◌∷◌, if◌then◌else◌, All}
use synchrono_city.Prelude.Int.{ℤ, pos_part, neg_part, is_positive, is_nonzero}

module _ {ℓ} {A : Type ℓ} (cmp : A → A → ℤ) where
  insert : A → List A → List A
  insert x [] = x ∷ []
  insert x (y ∷ ys) =
      let later = insert x ys in if is_positive (cmp x y) then y ∷ later else x ∷ y ∷ ys

  unfoldable pub sort : List A → List A
  unfolding insert
  sort [] = []
  sort (x ∷ xs) = insert x (sort xs)

  -- `cmp x y <= 0`
  abbrev pub Before : A → A → Type 0
  Before x y = pos_part (cmp x y) ≡ 0

  -- Every element stands before all later ones.
  abbrev pub IsSorted : List A → Type ℓ
  IsSorted [] = Unit
  IsSorted (x ∷ xs) = All (Before x) xs × IsSorted xs

  -- What ECMAScript asks of a comparator: swapping the arguments swaps the sign, and "not after" is
  -- transitive.
  pub record IsComparator : Type ℓ where
    pub swap_le : (x y : A) → pos_part (cmp x y) ≡ 0 → neg_part (cmp y x) ≡ 0
    pub swap_ge : (x y : A) → neg_part (cmp y x) ≡ 0 → pos_part (cmp x y) ≡ 0
    pub trans :
        (x y z : A) → pos_part (cmp x y) ≡ 0 → pos_part (cmp y z) ≡ 0 → pos_part (cmp x z) ≡ 0

-- `if (first !== 0) return first; return second;`
abbrev pub then_by {ℓ} : {A : Type ℓ} → (A → A → ℤ) → (A → A → ℤ) → A → A → ℤ
then_by first second x y = if is_nonzero (first x y) then first x y else second x y
