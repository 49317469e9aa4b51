-- ===== src/NostrUtils/Laws.antt =====
-- Public keys of apps/web/src/nostr-utils.ts: hexadecimal digits, bytes and `npub` strings.
use mathlib.Core.Path.{subst}
use synchrono_city.Prelude.{
  ℕ, zero, suc, ◌+◌, ◌*◌, ◌/◌, ◌%◌, ◌<◌, ◌≡◌, refl, sym, ap, ◌∙◌, Bool, true, false, ◌&&◌, ◌||◌,
  some, [], ◌∷◌, ◌++◌, arith, leb, length, all, All, All-map,
}
use synchrono_city.Prelude.Text.{JsString, codes, trim, trim_start, trim_end, is_space, ◌===◌}
use synchrono_city.Prelude.Runtime.{Runtime}
use synchrono_city.NostrUtils.{
  Bech32, is_hex_digit, is_valid_hex, hex_value, hex_digit, parse_bytes, bytes_to_hex, starts_with,
  hex_to_bytes, normalize_public_key_npub, normalize_public_key_hex, decode_nostr_bech32,
}

-- A digit without capitals.
abbrev pub is_lower_digit : ℕ → Bool
is_lower_digit c = (leb 48 c && leb c 57) || (leb 97 c && leb c 102)

hex_value_bound : (c : ℕ) → is_lower_digit c ≡ true → hex_value c < 16
hex_value_bound c h = ground arith

hex_digit-hex_value : (c : ℕ) → is_lower_digit c ≡ true → hex_digit (hex_value c) ≡ c
hex_digit-hex_value c h = ground arith

byte_parts : (a b : ℕ) → b < 16 → ((16 * a + b) / 16 ≡ a) × ((16 * a + b) % 16 ≡ b)
byte_parts a b h = (omega arith, omega arith)

abbrev halves : ℕ → ℕ
halves zero = 0
halves (suc zero) = 0
halves (suc (suc n)) = suc (halves n)

abbrev is_even : ℕ → Bool
is_even zero = true
is_even (suc zero) = false
is_even (suc (suc n)) = is_even n

bytes_to_hex-parse_bytes :
    (s : JsString)
    → is_even (length s) ≡ true
    → All (λ c. is_lower_digit c ≡ true) s
    → bytes_to_hex (parse_bytes s) ≡ s
unfolding bytes_to_hex
bytes_to_hex-parse_bytes [] e h = refl
bytes_to_hex-parse_bytes (c ∷ []) e h = cc
bytes_to_hex-parse_bytes (c ∷ d ∷ s) e (hc, (hd, h)) =
    let (q, r) = byte_parts (hex_value c) (hex_value d) (hex_value_bound d hd) in
    rw (q, r, hex_digit-hex_value c hc, hex_digit-hex_value d hd, bytes_to_hex-parse_bytes s e h)
      refl

-- A digit or a small letter.
abbrev pub is_lower_alnum : ℕ → Bool
is_lower_alnum c = (leb 48 c && leb c 57) || (leb 97 c && leb c 122)

abbrev pub IsPlain : JsString → Type 0
IsPlain s = All (λ c. is_lower_alnum c ≡ true) s

-- 32 bytes, as digits without capitals.
abbrev pub IsKey : JsString → Type 0
IsKey k = (length k ≡ 64) × All (λ c. is_lower_digit c ≡ true) k

-- ECMAScript: `toLowerCase` leaves digits and small letters as they are.
abbrev pub KeepsLower : Runtime → Type 0
KeepsLower rt = (s : JsString) → IsPlain s → rt.to_lower_case s ≡ s

-- BIP 173: an encoded key is the prefix, a 1, and more digits and small letters; it decodes to what
-- was encoded.
pub record IsBech32 (b : Bech32) : Type 0 where
  pub text :
      (k : JsString)
      → IsKey k
      → (rest : JsString) × (b.encode (codes "npub") (parse_bytes k) ≡ codes "npub1" ++ rest)
        × IsPlain rest
  pub decode_encode :
      (k : JsString)
      → IsKey k
      → b.decode (b.encode (codes "npub") (parse_bytes k)) ≡ some (codes "npub", parse_bytes k)

trim_start_plain : (s : JsString) → IsPlain s → trim_start s ≡ s
unfolding trim_start is_space
trim_start_plain [] h = refl
trim_start_plain (c ∷ s) (h, hs) = ground arith

trim_end_plain : (s : JsString) → IsPlain s → trim_end s ≡ s
unfolding trim_end is_space
trim_end_plain [] h = refl
trim_end_plain (c ∷ []) (h, hs) = ground arith
trim_end_plain (c ∷ d ∷ s) (h, hs) = rw (trim_end_plain (d ∷ s) hs) refl

lower_trim :
    (rt : Runtime) → KeepsLower rt → (s : JsString) → IsPlain s → rt.to_lower_case (trim s) ≡ s
unfolding trim
lower_trim rt keeps s h =
    ap rt.to_lower_case (ap trim_end (trim_start_plain s h) ∙ trim_end_plain s h) ∙ keeps s h

digit-IsPlain : (s : JsString) → All (λ c. is_lower_digit c ≡ true) s → IsPlain s
digit-IsPlain s h = All-map (λ c d. ground arith) s h

all_hex : (s : JsString) → All (λ c. is_lower_digit c ≡ true) s → all is_hex_digit s ≡ true
all_hex [] h = refl
all_hex (c ∷ s) (h, hs) = ground (arith, all_hex s hs)

not_npub :
    (s : JsString) → All (λ c. is_lower_digit c ≡ true) s → starts_with s (codes "npub1") ≡ false
not_npub [] h = refl
not_npub (c ∷ s) (h, hs) = ground arith

module _ (rt : Runtime) (b : Bech32) (keeps : KeepsLower rt) (ok : IsBech32 b) where
  npub_of_key :
      (k : JsString)
      → length k ≡ 64
      → All (λ c. is_lower_digit c ≡ true) k
      → normalize_public_key_npub rt b k ≡ some (b.encode (codes "npub") (parse_bytes k))
  unfolding normalize_public_key_npub hex_to_bytes is_valid_hex
  npub_of_key k n h =
      rw
        (
          lower_trim rt keeps k (digit-IsPlain k h),
          lower_trim rt keeps k (digit-IsPlain k h),
          not_npub k h,
          n,
          all_hex k h,
        )
        refl

  npub-IsPlain : (k : JsString) → IsKey k → IsPlain (b.encode (codes "npub") (parse_bytes k))
  npub-IsPlain k key =
      let (rest, e, h) = ok.text k key in
      subst IsPlain (sym e) (refl, (refl, (refl, (refl, (refl, h)))))

  npub_not_hex :
      (k : JsString) → IsKey k → is_valid_hex (b.encode (codes "npub") (parse_bytes k)) ≡ false
  unfolding is_valid_hex
  npub_not_hex k key =
      let (rest, e, h) = ok.text k key in subst (λ s. is_valid_hex s ≡ false) (sym e) (ground arith)

  npub-prefix :
      (k : JsString)
      → IsKey k
      → starts_with (b.encode (codes "npub") (parse_bytes k)) (codes "npub1") ≡ true
  npub-prefix k key =
      let (rest, e, h) = ok.text k key in
      subst (λ s. starts_with s (codes "npub1") ≡ true) (sym e) refl

  key_of_npub :
      (k : JsString)
      → IsKey k
      → normalize_public_key_hex rt b (b.encode (codes "npub") (parse_bytes k))
        ≡ some (bytes_to_hex (parse_bytes k))
  unfolding normalize_public_key_hex decode_nostr_bech32 ◌===◌
  key_of_npub k key =
      rw
        (
          lower_trim rt keeps (b.encode (codes "npub") (parse_bytes k)) (npub-IsPlain k key),
          npub_not_hex k key,
          npub-prefix k key,
          ok.decode_encode k key,
        )
        refl

  npub_of_npub :
      (k : JsString)
      → IsKey k
      → normalize_public_key_npub rt b (b.encode (codes "npub") (parse_bytes k))
        ≡ some (b.encode (codes "npub") (parse_bytes k))
  unfolding normalize_public_key_npub
  npub_of_npub k key =
      rw
        (
          lower_trim rt keeps (b.encode (codes "npub") (parse_bytes k)) (npub-IsPlain k key),
          npub-prefix k key,
        )
        refl

  -- A public key of 64 hexadecimal digits without capitals becomes an `npub` string, which stays as
  -- it is if it is normalized again, and which becomes the same digits again.
  pub normalize_public_key_lem :
      (k : JsString)
      → length k ≡ 64
      → All (λ c. is_lower_digit c ≡ true) k
      → (npub : JsString) × (normalize_public_key_npub rt b k ≡ some npub)
        × (normalize_public_key_npub rt b npub ≡ some npub)
        × (normalize_public_key_hex rt b npub ≡ some k)
  normalize_public_key_lem k n h = (
    b.encode (codes "npub") (parse_bytes k),
    npub_of_key k n h,
    npub_of_npub k (n, h),
    key_of_npub k (n, h) ∙ ap some (bytes_to_hex-parse_bytes k (ap is_even n) h),
  )
