-- ===== src/NostrUtils.antt =====
-- apps/web/src/nostr-utils.ts: public keys as hexadecimal digits and as `npub` strings. Bech32 is
-- the package @scure/base, a parameter.
pub mod Laws
mod Tests
use mathlib.Core.Option
use synchrono_city.Prelude.{
  ◌/◌, ◌%◌, ℕ, ◌+◌, ◌*◌, ◌-◌, Bool, true, false, ◌&&◌, ◌||◌, Option, none, some, List, [], ◌∷◌, leb,
  ◌==◌, length, all, if◌then◌else◌,
}
use synchrono_city.Prelude.Text.{JsString, codes, trim, ◌===◌}
use synchrono_city.Prelude.Runtime.{Runtime}

-- `bech32.encode(prefix, bech32.toWords(bytes), 1000)`
pub record Bech32 : Type 0 where
  pub encode : JsString → List ℕ → JsString
  -- `bech32.decode(value, 1000)` with `bech32.fromWords`: the prefix and the bytes, `none` if it
  -- throws
  pub decode : JsString → Option (JsString × List ℕ)

-- `[0-9a-f]` with the flag `i`
abbrev pub is_hex_digit : ℕ → Bool
is_hex_digit c = (leb 48 c && leb c 57) || (leb 97 c && leb c 102) || (leb 65 c && leb c 70)

unfoldable pub is_valid_hex : JsString → Bool
is_valid_hex value = length value == 64 && all is_hex_digit value

-- The value of a digit in `Number.parseInt(…, 16)`.
abbrev pub hex_value : ℕ → ℕ
hex_value c = if leb c 57 then c - 48 else if leb c 70 then c - 55 else c - 87

abbrev pub parse_bytes : JsString → List ℕ
parse_bytes [] = []
parse_bytes (c ∷ []) = hex_value c ∷ []
parse_bytes (c ∷ d ∷ s) = (16 * hex_value c + hex_value d) ∷ parse_bytes s

-- A digit of `byte.toString(16)`.
abbrev pub hex_digit : ℕ → ℕ
hex_digit d = if leb d 9 then d + 48 else d + 87

-- A byte is below 256: `padStart(2, "0")` gives it two digits.
unfoldable pub bytes_to_hex : List ℕ → JsString
bytes_to_hex [] = []
bytes_to_hex (b ∷ bs) = hex_digit (b / 16) ∷ hex_digit (b % 16) ∷ bytes_to_hex bs

-- `none`: another prefix, for which the error is thrown
abbrev pub with_prefix : JsString → Option (JsString × List ℕ) → Option (List ℕ)
with_prefix prefix none = none
with_prefix prefix (some (found, bytes)) = if found === prefix then some bytes else none

abbrev pub starts_with : JsString → JsString → Bool
starts_with s [] = true
starts_with [] (d ∷ t) = false
starts_with (c ∷ s) (d ∷ t) = c == d && starts_with s t

module _ (rt : Runtime) (bech32 : Bech32) where
  -- `none`: the error is thrown
  unfoldable pub hex_to_bytes : JsString → Option (List ℕ)
  hex_to_bytes value =
      let normalized = rt.to_lower_case (trim value) in
      if is_valid_hex normalized then some (parse_bytes normalized) else none

  abbrev encode_npub : Option (List ℕ) → Option JsString
  encode_npub none = none
  encode_npub (some bytes) = some (bech32.encode (codes "npub") bytes)

  -- `none`: the error of `hexToBytes` is thrown
  unfoldable pub normalize_public_key_npub : JsString → Option JsString
  normalize_public_key_npub pubkey =
      let normalized = rt.to_lower_case (trim pubkey) in
      if starts_with normalized (codes "npub1")
      then some normalized
      else if is_valid_hex normalized
      then encode_npub (hex_to_bytes normalized)
      else some (trim pubkey)

  unfoldable pub decode_nostr_bech32 : JsString → JsString → Option (List ℕ)
  decode_nostr_bech32 prefix value = with_prefix prefix (bech32.decode value)

  -- `none` is `null`
  unfoldable pub normalize_public_key_hex : JsString → Option JsString
  unfolding decode_nostr_bech32
  normalize_public_key_hex pubkey =
      let normalized = rt.to_lower_case (trim pubkey) in
      if is_valid_hex normalized
      then some normalized
      else if starts_with normalized (codes "npub1")
      then Option.map bytes_to_hex (decode_nostr_bech32 (codes "npub") normalized)
      else none
