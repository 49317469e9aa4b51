-- ===== src/Prelude/Runtime.antt =====
-- What the client asks of the browser's JavaScript engine and what depends on its Unicode tables,
-- its locale or its date parser. It is a parameter of the model.
use synchrono_city.Prelude.{Option}
use synchrono_city.Prelude.Int.{ℤ}
use synchrono_city.Prelude.Text.{JsString}
use synchrono_city.Prelude.Sort.{IsComparator}

pub record Runtime : Type 0 where
  -- `s.toLowerCase()`
  pub to_lower_case : JsString → JsString
  -- `Date.parse(s)`, with `none` for `NaN`
  pub date_parse : JsString → Option ℤ
  -- `s.localeCompare(t)`
  pub locale_compare : JsString → JsString → ℤ

-- ECMA-402: `localeCompare` is a consistent comparator on the set of all strings.
abbrev pub HasLocaleOrder : Runtime → Type 0
HasLocaleOrder rt = IsComparator rt.locale_compare
