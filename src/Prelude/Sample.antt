-- ===== src/Prelude/Sample.antt =====
-- A concrete runtime for tests: ASCII case, dates that are decimal milliseconds, and the order of
-- code units.
use synchrono_city.Prelude.{
  ℕ, ◌+◌, ◌-◌, ◌*◌, ◌≡◌, refl, Bool, ◌&&◌, Option, none, some, [], ◌∷◌, map, arith, leb, ◌==◌,
  if◌then◌else◌,
}
use synchrono_city.Prelude.Int.{ℤ, pos, negsuc, sub_ℕ, pos_part, neg_part}
use synchrono_city.Prelude.Text.{JsString}
use synchrono_city.Prelude.Runtime.{Runtime, HasLocaleOrder}

abbrev lower : ℕ → ℕ
lower c = if leb 65 c && leb c 90 then c + 32 else c

abbrev is_digit : ℕ → Bool
is_digit c = leb 48 c && leb c 57

read_from : ℕ → JsString → Option ℤ
read_from n [] = some (pos n)
read_from n (c ∷ s) =
    let rest = read_from (n * 10 + (c - 48)) s in if is_digit c then rest else none

read_date : JsString → Option ℤ
read_date [] = none
read_date (c ∷ s) = read_from 0 (c ∷ s)

compare_units : JsString → JsString → ℤ
compare_units [] [] = pos 0
compare_units [] (d ∷ t) = negsuc 0
compare_units (c ∷ s) [] = pos 1
compare_units (c ∷ s) (d ∷ t) = let rest = compare_units s t in if c == d then rest else sub_ℕ c d

unfoldable pub sample_runtime : Runtime
unfolding read_date read_from compare_units
sample_runtime = record {
  to_lower_case = map lower;
  date_parse = read_date;
  locale_compare = compare_units;
}

units_swap : (s t : JsString) → pos_part (compare_units s t) ≡ neg_part (compare_units t s)
unfolding compare_units
units_swap [] [] = refl
units_swap [] (d ∷ t) = refl
units_swap (c ∷ s) [] = refl
units_swap (c ∷ s) (d ∷ t) = ground (arith, units_swap s t)

units_trans :
    (s t u : JsString)
    → pos_part (compare_units s t) ≡ 0
    → pos_part (compare_units t u) ≡ 0
    → pos_part (compare_units s u) ≡ 0
unfolding compare_units
units_trans [] t [] h k = refl
units_trans [] t (e ∷ u) h k = refl
units_trans (c ∷ s) [] u h k = absurd (omega arith)
units_trans (c ∷ s) (d ∷ t) [] h k = absurd (omega arith)
units_trans (c ∷ s) (d ∷ t) (e ∷ u) h k = ground (arith, units_trans s t u)

pub sample-HasLocaleOrder : HasLocaleOrder sample_runtime
unfolding sample_runtime
sample-HasLocaleOrder = record {
  swap_le = λ s t h. omega (arith, units_swap s t);
  swap_ge = λ s t h. omega (arith, units_swap s t);
  trans = units_trans;
}
