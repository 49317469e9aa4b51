-- ===== src/NostrUtils/Tests.antt =====
-- The theorem on apps/web/src/nostr-utils.ts at a concrete key, with a simple code in place of
-- Bech32: a byte is that many letters "a" and a "b".
use synchrono_city.Prelude.{
  ℕ, zero, suc, ◌+◌, ◌≡◌, refl, ap, true, some, List, [], ◌∷◌, ◌++◌, arith, ◌==◌, all, drop,
  if◌then◌else◌, All,
}
use synchrono_city.Prelude.Text.{JsString, codes}
use synchrono_city.Prelude.Sample.{sample_runtime}
use synchrono_city.NostrUtils.{
  Bech32, parse_bytes, normalize_public_key_npub, normalize_public_key_hex,
}
use synchrono_city.NostrUtils.Laws.{
  is_lower_digit, IsPlain, KeepsLower, IsBech32, normalize_public_key_lem,
}

abbrev letters : ℕ → JsString → JsString
letters zero s = 98 ∷ s
letters (suc n) s = 97 ∷ letters n s

abbrev write : List ℕ → JsString
write [] = []
write (b ∷ bs) = letters b (write bs)

abbrev read : ℕ → JsString → List ℕ
read n [] = []
read n (c ∷ s) =
    let closed = read 0 s in let counted = read (suc n) s in if c == 98 then n ∷ closed else counted

abbrev sample_bech32 : Bech32
sample_bech32 = record {
  encode = λ prefix bytes. prefix ++ 49 ∷ write bytes;
  decode = λ value. some (codes "npub", read 0 (drop 5 value));
}

letters-IsPlain : (n : ℕ) (s : JsString) → IsPlain s → IsPlain (letters n s)
letters-IsPlain zero s h = (refl, h)
letters-IsPlain (suc n) s h = (refl, letters-IsPlain n s h)

write-IsPlain : (bs : List ℕ) → IsPlain (write bs)
write-IsPlain [] = tt
write-IsPlain (b ∷ bs) = letters-IsPlain b (write bs) (write-IsPlain bs)

read-letters : (m n : ℕ) (s : JsString) → read m (letters n s) ≡ (m + n) ∷ read 0 s
read-letters m zero s = ground arith
read-letters m (suc n) s = ground (arith, read-letters (suc m) n s)

read-write : (bs : List ℕ) → read 0 (write bs) ≡ bs
read-write [] = refl
read-write (b ∷ bs) = ground (arith, read-letters 0 b (write bs), read-write bs)

sample-IsBech32 : IsBech32 sample_bech32
sample-IsBech32 = record {
  text = λ k h. (write (parse_bytes k), refl, write-IsPlain (parse_bytes k));
  decode_encode = λ k h. ap (λ (bs : List ℕ). some (codes "npub", bs)) (read-write (parse_bytes k));
}

sample-KeepsLower : KeepsLower sample_runtime
unfolding sample_runtime
sample-KeepsLower [] h = refl
sample-KeepsLower (c ∷ s) (h, hs) = ground (arith, sample-KeepsLower s hs)

digits : (s : JsString) → all is_lower_digit s ≡ true → All (λ c. is_lower_digit c ≡ true) s
digits [] h = tt
digits (c ∷ s) h = (ground arith, digits s (ground arith))

abbrev key : JsString
key = codes "00ff0123456789abcdef0123456789abcdef0123456789abcdef0123456789ab"

normalize_public_key_example :
    (npub : JsString) × (normalize_public_key_npub sample_runtime sample_bech32 key ≡ some npub)
    × (normalize_public_key_npub sample_runtime sample_bech32 npub ≡ some npub)
    × (normalize_public_key_hex sample_runtime sample_bech32 npub ≡ some key)
normalize_public_key_example =
    normalize_public_key_lem sample_runtime sample_bech32 sample-KeepsLower sample-IsBech32 key refl
      (digits key refl)
