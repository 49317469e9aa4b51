-- ===== src/Prelude/Text.antt =====
-- JavaScript strings: lists of UTF-16 code units, with the methods that the client calls and that
-- do not depend on Unicode tables or on the locale.
use Prim.Native.Char.{code}
use Prim.Native.String.{String}
use synchrono_city.Prelude.{
  ℕ, ◌≡◌, refl, ◌↔◌, Bool, true, false, ◌&&◌, ◌||◌, List, [], ◌∷◌, ◌++◌, arith, leb, ◌==◌, ==_iff,
  if◌then◌else◌, Option, none, some,
}

abbrev pub JsString : Type 0
JsString = List ℕ

-- A literal of the source; none of them leaves the basic plane.
abbrev pub codes : String → JsString
codes String.[] = []
codes (String.◌∷◌ c s) = code c ∷ codes s

infix 50 ◌===◌
unfoldable pub ◌===◌ : JsString → JsString → Bool
[] === [] = true
[] === (d ∷ t) = false
(c ∷ s) === [] = false
(c ∷ s) === (d ∷ t) = c == d && s === t

pub ===_refl : (s : JsString) → (s === s) ≡ true
unfolding ◌===◌
===_refl [] = refl
===_refl (c ∷ s) = ground (arith, ===_refl s)

===_sound : (s t : JsString) → (s === t) ≡ true → s ≡ t
unfolding ◌===◌
===_sound [] [] h = refl
===_sound [] (d ∷ t) h = cc
===_sound (c ∷ s) [] h = cc
===_sound (c ∷ s) (d ∷ t) h = ground (arith, ==_iff c d, ===_sound s t)

pub ===_iff : (s t : JsString) → ((s === t) ≡ true) ↔ (s ≡ t)
===_iff s t = (===_sound s t, λ e. rw e (===_refl t))

-- A string as a condition: the empty string is falsy.
abbrev pub truthy : JsString → Bool
truthy [] = false
truthy (c ∷ s) = true

-- An optional string as a condition.
abbrev pub truthy? : Option JsString → Bool
truthy? none = false
truthy? (some s) = truthy s

-- `a || b` on strings
abbrev pub or_string : JsString → JsString → JsString
or_string [] t = t
or_string (c ∷ s) t = c ∷ s

-- White space and line terminators of ECMAScript.
unfoldable pub is_space : ℕ → Bool
is_space c =
    (leb 9 c && leb c 13)
    || c == 32
    || c == 160
    || c == 0x1680
    || (leb 0x2000 c && leb c 0x200a)
    || c == 0x2028
    || c == 0x2029
    || c == 0x202f
    || c == 0x205f
    || c == 0x3000
    || c == 0xfeff

unfoldable pub trim_start : JsString → JsString
unfolding is_space
trim_start [] = []
trim_start (c ∷ s) = if is_space c then trim_start s else c ∷ s

-- A character is dropped if it is a space and nothing is left behind it.
abbrev close_end : ℕ → JsString → JsString
close_end c [] = if is_space c then [] else c ∷ []
close_end c (d ∷ s) = c ∷ d ∷ s

unfoldable pub trim_end : JsString → JsString
unfolding is_space
trim_end [] = []
trim_end (c ∷ s) = close_end c (trim_end s)

-- `s.trim()`
unfoldable pub trim : JsString → JsString
unfolding trim_start trim_end
trim s = trim_end (trim_start s)

-- `parts.join(separator)`
unfoldable pub join : JsString → List JsString → JsString
join separator [] = []
join separator (x ∷ []) = x
join separator (x ∷ y ∷ xs) = x ++ separator ++ join separator (y ∷ xs)

-- `xs.includes(s)`, and `has` of a set that is kept as its list of members
unfoldable pub includes : List JsString → JsString → Bool
includes [] s = false
includes (x ∷ xs) s = x === s || includes xs s

-- `set.add(s)`: a new member goes to the end.
unfoldable pub add : List JsString → JsString → List JsString
unfolding includes
add xs s = if includes xs s then xs else xs ++ s ∷ []

-- `for (const x of xs) { if (!seen.includes(x)) seen.push(x); }`
unfoldable pub add_all : List JsString → List JsString → List JsString
unfolding add
add_all seen [] = seen
add_all seen (x ∷ xs) = add_all (add seen x) xs

-- `Array.from(new Set(xs))`
unfoldable pub dedupe : List JsString → List JsString
unfolding add_all add
dedupe xs = add_all [] xs
