-- ===== src/Data/Timestamps.antt =====
-- apps/web/src/data.ts: timestamps and the two comparators on them.
pub mod Laws
use synchrono_city.Prelude.{
  ℕ, ◌≡◌, refl, Bool, true, false, ◌&&◌, Option, none, some, List, [], ◌∷◌, arith, if◌then◌else◌,
  Bool-cases, inl, inr,
}
use synchrono_city.Prelude.Int.{ℤ, pos, negsuc, ◌-ℤ◌, -ℤ_parts, pos_part, neg_part, is_nonzero}
use synchrono_city.Prelude.Text.{JsString, truthy, truthy?}
use synchrono_city.Prelude.Runtime.{Runtime, HasLocaleOrder}
use synchrono_city.Prelude.Sort.{IsComparator, then_by}
use synchrono_city.Prelude.Sort.Laws.{then_by-IsComparator, on-IsComparator, flip-IsComparator}

-- The times of the comparators: `first` for what stands before all, by the difference of the times;
-- those that do not parse come last, and `ties` decides the rest.
abbrev pub by_time : Option ℤ → Option ℤ → ℤ → ℤ → ℤ
by_time (some l) (some r) difference ties = if is_nonzero difference then difference else ties
by_time none (some r) difference ties = pos 1
by_time (some l) none difference ties = negsuc 0
by_time none none difference ties = ties

-- `right - left` of two times, where there are two
abbrev pub difference : Option ℤ → Option ℤ → ℤ
difference (some a) (some b) = a -ℤ b
difference none b = pos 0
difference (some a) none = pos 0

abbrev text_of : Option JsString → JsString
text_of none = []
text_of (some s) = s

module _ (rt : Runtime) where
  unfoldable pub parse_timestamp : Option JsString → Option ℤ
  parse_timestamp none = none
  parse_timestamp (some value) = if truthy value then rt.date_parse value else none

  -- `left.localeCompare(right)`, where both strings are truthy; otherwise the truthy one first or
  -- last, as `one` and `other` say.
  by_text : Option JsString → Option JsString → ℤ → ℤ → ℤ → ℤ
  by_text left right both only_left only_right =
      if truthy? left && truthy? right
      then both
      else if truthy? right
      then only_right
      else if truthy? left
      then only_left
      else pos 0

  unfoldable pub compare_descending_timestamps : Option JsString → Option JsString → ℤ
  unfolding parse_timestamp by_text
  compare_descending_timestamps left right =
      by_time (parse_timestamp left) (parse_timestamp right)
        (difference (parse_timestamp right) (parse_timestamp left))
        (by_text left right (rt.locale_compare (text_of right) (text_of left)) (negsuc 0) (pos 1))

  unfoldable pub compare_ascending_timestamps : Option JsString → Option JsString → ℤ
  unfolding parse_timestamp by_text
  compare_ascending_timestamps left right =
      by_time (parse_timestamp left) (parse_timestamp right)
        (difference (parse_timestamp left) (parse_timestamp right))
        (by_text left right (rt.locale_compare (text_of left) (text_of right)) (negsuc 0) (pos 1))
