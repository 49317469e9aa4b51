-- ===== src/Social/Values.antt =====
-- apps/web/src/social-payload.ts: values of type `unknown`, and what is read out of them.
use synchrono_city.Prelude.{
  Bool, true, false, ◌&&◌, Option, none, some, or_else, List, [], ◌∷◌, ◌++◌, if◌then◌else◌,
}
use Prim.Native.String.{String}
use synchrono_city.Prelude.Int.{ℤ, pos, is_positive, is_nonzero}
use synchrono_city.Prelude.Text.{JsString, codes, ◌===◌, trim, truthy}
use synchrono_city.Data.Types.{GeoNoteReaction}

-- A value of type `unknown`. A number is finite, NaN or infinite
-- (`infinite true` is positive); an object has its own properties in order.
mutual
  pub data JsValue : Type 0 where
    undefined null nan : JsValue
    infinite : Bool → JsValue
    boolean : Bool → JsValue
    number : ℤ → JsValue
    string : JsString → JsValue
    array : Elements → JsValue
    object : Properties → JsValue

  pub data Elements : Type 0 where
    end : Elements
    element : JsValue → Elements → Elements

  pub data Properties : Type 0 where
    bare : Properties
    property : JsString → JsValue → Properties → Properties

unfoldable pub property_of : Properties → JsString → Option JsValue
property_of bare key = none
property_of (property k v ps) key =
    let rest = property_of ps key in if k === key then some v else rest

-- `if (value)`
abbrev pub is_truthy : JsValue → Bool
is_truthy undefined = false
is_truthy null = false
is_truthy nan = false
is_truthy (infinite positive) = true
is_truthy (boolean b) = b
is_truthy (number n) = is_nonzero n
is_truthy (string s) = truthy s
is_truthy (array es) = true
is_truthy (object ps) = true

unfoldable pub as_string : JsValue → JsString
as_string (string s) = s
as_string _ = []

unfoldable pub strings_of : Elements → List JsString
strings_of end = []
strings_of (element (string s) es) = s ∷ strings_of es
strings_of (element _ es) = strings_of es

unfoldable pub as_string_array : JsValue → List JsString
as_string_array (array es) = strings_of es
as_string_array _ = []

unfoldable pub as_boolean : JsValue → Bool
as_boolean (boolean b) = b
as_boolean _ = false

unfoldable pub as_number : JsValue → ℤ
as_number (number n) = n
as_number _ = pos 0

unfoldable pub as_optional_number : JsValue → Option ℤ
as_optional_number (number n) = some n
as_optional_number _ = none

-- The first of the keys that is in the record: `key in record`, so also one whose value is
-- `undefined`. Arrays have no property of these names.
unfoldable pub pick_from : Properties → List JsString → JsValue
unfolding property_of
pick_from ps [] = undefined
pick_from ps (k ∷ ks) = or_else (property_of ps k) (pick_from ps ks)

unfoldable pub pick_value : JsValue → List JsString → JsValue
unfolding pick_from
pick_value (object ps) keys = pick_from ps keys
pick_value _ keys = undefined

-- One key, or two spellings of it.
abbrev pub pick : JsValue → String → JsValue
pick v a = pick_value v (codes a ∷ [])

abbrev pub pick_either : JsValue → String → String → JsValue
pick_either v a b = pick_value v (codes a ∷ codes b ∷ [])

-- `value ? asString(value) : undefined`
unfoldable pub optional_string : JsValue → Option JsString
optional_string v = if is_truthy v then some (as_string v) else none

-- `value || undefined` on strings
abbrev pub or_undefined : JsString → Option JsString
or_undefined [] = none
or_undefined (c ∷ s) = some (c ∷ s)

-- `value.length > 0 ? value : undefined`
abbrev pub nonempty_or_undefined {ℓ} : {A : Type ℓ} → List A → Option (List A)
nonempty_or_undefined [] = none
nonempty_or_undefined (x ∷ xs) = some (x ∷ xs)

abbrev pub is_object : JsValue → Bool
is_object (array es) = true
is_object (object ps) = true
is_object _ = false

-- What one entry adds to the reactions.
unfoldable pub as_reaction : JsValue → List GeoNoteReaction
as_reaction entry =
    let emoji = trim (as_string (pick entry "emoji")) in
    let count = as_number (pick entry "count") in
    if is_object entry && truthy emoji && is_positive count
    then record { emoji = emoji; count = count } ∷ []
    else []

unfoldable pub reactions_of : Elements → List GeoNoteReaction
unfolding as_reaction
reactions_of end = []
reactions_of (element v es) = as_reaction v ++ reactions_of es

unfoldable pub as_reaction_array : JsValue → Option (List GeoNoteReaction)
unfolding reactions_of
as_reaction_array (array es) = nonempty_or_undefined (reactions_of es)
as_reaction_array _ = none
