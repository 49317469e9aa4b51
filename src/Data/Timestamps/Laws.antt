-- ===== src/Data/Timestamps/Laws.antt =====
-- The comparators on timestamps of apps/web/src/data.ts are consistent, so the sorts by them are
-- defined by ECMAScript.
use synchrono_city.Prelude.{◌≡◌, refl, sym, fun_ext, Option, none, some, [], ◌∷◌, arith}
use mathlib.Core.Path.{subst}
use synchrono_city.Prelude.Int.{ℤ, pos, negsuc, ◌-ℤ◌, pos_part, neg_part}
use synchrono_city.Prelude.Text.{JsString}
use synchrono_city.Prelude.Runtime.{Runtime, HasLocaleOrder}
use synchrono_city.Prelude.Sort.{IsComparator, then_by}
use synchrono_city.Prelude.Sort.Laws.{then_by-IsComparator, on-IsComparator, flip-IsComparator}
use synchrono_city.Data.Timestamps.{
  parse_timestamp, compare_descending_timestamps, compare_ascending_timestamps,
}

-- An order that puts what is missing last.
missing_last {ℓ} : {A : Type ℓ} → (A → A → ℤ) → Option A → Option A → ℤ
missing_last cmp (some a) (some b) = cmp a b
missing_last cmp none (some b) = pos 1
missing_last cmp (some a) none = negsuc 0
missing_last cmp none none = pos 0

missing_last-IsComparator {ℓ} :
    {A : Type ℓ} (cmp : A → A → ℤ) → IsComparator cmp → IsComparator (missing_last cmp)
unfolding missing_last
missing_last-IsComparator {A} cmp ok = record { swap_le = le; swap_ge = ge; trans = tr }
  where
    le :
        (x y : Option A) → pos_part (missing_last cmp x y) ≡ 0 → neg_part (missing_last cmp y x) ≡ 0
    le (some a) (some b) h = ok.swap_le a b h
    le none (some b) h = absurd (omega arith)
    le (some a) none h = refl
    le none none h = refl

    ge :
        (x y : Option A) → neg_part (missing_last cmp y x) ≡ 0 → pos_part (missing_last cmp x y) ≡ 0
    ge (some a) (some b) h = ok.swap_ge a b h
    ge none (some b) h = absurd (omega arith)
    ge (some a) none h = refl
    ge none none h = refl

    tr :
        (x y z : Option A)
        → pos_part (missing_last cmp x y) ≡ 0
        → pos_part (missing_last cmp y z) ≡ 0
        → pos_part (missing_last cmp x z) ≡ 0
    tr (some a) (some b) (some c) h k = ok.trans a b c h k
    tr x y none h k = ground arith
    tr none (some b) (some c) h k = absurd (omega arith)
    tr none none (some c) h k = absurd (omega arith)
    tr (some a) none (some c) h k = absurd (omega arith)

minus-IsComparator : IsComparator ◌-ℤ◌
unfolding ◌-ℤ◌
minus-IsComparator = record {
  swap_le = λ a b h. ground arith;
  swap_ge = λ a b h. ground arith;
  trans = λ a b c h k. ground arith;
}

-- A string that is not empty.
key_of : Option JsString → Option JsString
key_of none = none
key_of (some []) = none
key_of (some (c ∷ s)) = some (c ∷ s)

module _ (rt : Runtime) (ok : HasLocaleOrder rt) where
  descending : Option JsString → Option JsString → ℤ
  descending =
      then_by (λ l r. missing_last (λ a b. b -ℤ a) (parse_timestamp rt l) (parse_timestamp rt r))
        (λ l r. missing_last (λ a b. rt.locale_compare b a) (key_of l) (key_of r))

  descending_lem : (l r : Option JsString) → compare_descending_timestamps rt l r ≡ descending l r
  unfolding descending compare_descending_timestamps missing_last key_of
  descending_lem none none = refl
  descending_lem none (some []) = refl
  descending_lem none (some (d ∷ t)) = ground arith
  descending_lem (some []) none = refl
  descending_lem (some []) (some []) = refl
  descending_lem (some []) (some (d ∷ t)) = ground arith
  descending_lem (some (c ∷ s)) none = ground arith
  descending_lem (some (c ∷ s)) (some []) = ground arith
  descending_lem (some (c ∷ s)) (some (d ∷ t)) = ground arith

  -- Descending timestamps, unparsable ones last, are a consistent order.
  pub compare_descending_timestamps-IsComparator : IsComparator (compare_descending_timestamps rt)
  unfolding descending
  compare_descending_timestamps-IsComparator =
      subst IsComparator (sym (fun_ext λ l. fun_ext λ r. descending_lem l r)) (
        then_by-IsComparator _ _
          (on-IsComparator (parse_timestamp rt) (missing_last (λ a b. b -ℤ a))
            (missing_last-IsComparator (λ a b. b -ℤ a) (flip-IsComparator ◌-ℤ◌ minus-IsComparator)))
          (on-IsComparator key_of (missing_last (λ a b. rt.locale_compare b a)) (
            missing_last-IsComparator (λ a b. rt.locale_compare b a)
              (flip-IsComparator rt.locale_compare ok))))

  ascending : Option JsString → Option JsString → ℤ
  ascending =
      then_by (λ l r. missing_last ◌-ℤ◌ (parse_timestamp rt l) (parse_timestamp rt r))
        (λ l r. missing_last rt.locale_compare (key_of l) (key_of r))

  ascending_lem : (l r : Option JsString) → compare_ascending_timestamps rt l r ≡ ascending l r
  unfolding ascending compare_ascending_timestamps missing_last key_of
  ascending_lem none none = refl
  ascending_lem none (some []) = refl
  ascending_lem none (some (d ∷ t)) = ground arith
  ascending_lem (some []) none = refl
  ascending_lem (some []) (some []) = refl
  ascending_lem (some []) (some (d ∷ t)) = ground arith
  ascending_lem (some (c ∷ s)) none = ground arith
  ascending_lem (some (c ∷ s)) (some []) = ground arith
  ascending_lem (some (c ∷ s)) (some (d ∷ t)) = ground arith

  -- Ascending timestamps, unparsable ones last, are a consistent order.
  pub compare_ascending_timestamps-IsComparator : IsComparator (compare_ascending_timestamps rt)
  unfolding ascending
  compare_ascending_timestamps-IsComparator =
      subst IsComparator (sym (fun_ext λ l. fun_ext λ r. ascending_lem l r)) (
        then_by-IsComparator _ _
          (on-IsComparator (parse_timestamp rt) (missing_last ◌-ℤ◌)
            (missing_last-IsComparator ◌-ℤ◌ minus-IsComparator))
          (on-IsComparator key_of (missing_last rt.locale_compare)
            (missing_last-IsComparator rt.locale_compare ok)))
