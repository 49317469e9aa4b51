-- ===== src/Keys/Keyring/Laws/Operations.antt =====
-- The operations on the keyring of apps/web/src/key-manager.ts.
use synchrono_city.Prelude.{
  ◌≡◌, refl, sym, ap, ◌∙◌, Bool, true, false, not, ◌||◌, Option, none, some, List, [], ◌∷◌, map,
  filter, find?, any, arith, if◌then◌else◌, Bool-cases, inl, inr, All, filter_keeps-All,
}
use synchrono_city.Prelude.Text.{JsString, ◌===◌, ===_refl, truthy, includes}
use mathlib.Core.Path.{subst}
use synchrono_city.Prelude.Sets.{IsDistinct}
use synchrono_city.Keys.Keyring.{
  LocalKeyVerificationType, LocalKeyVerificationRecord, LocalKeyMaterial, LocalKeyring,
  normalize_keyring, has_npub, added_to, add_key_to_keyring, remove_key_from_keyring,
  set_active_key_in_keyring, verify, set_key_verification,
}
use synchrono_city.Keys.Keyring.Laws.{
  npub, HasPrivate, IsActive, IsValid, first_key-IsActive, normalize_keyring-IsValid,
}

-- What a search by public key says of the public keys.
abbrev Answers : JsString → List LocalKeyMaterial → Option LocalKeyMaterial → Type 0
Answers k keys none = includes (map npub keys) k ≡ false
Answers k keys (some existing) = includes (map npub keys) existing.public_key_npub ≡ true

later_Answers :
    (k : JsString) (key : LocalKeyMaterial) (keys : List LocalKeyMaterial)
    (found : Option LocalKeyMaterial)
    → (key.public_key_npub === k) ≡ false
    → Answers k keys found
    → Answers k (key ∷ keys) found
unfolding includes
later_Answers k key keys none other h = ground arith
later_Answers k key keys (some existing) other h = ground arith

pub find?-Answers :
    (k : JsString) (keys : List LocalKeyMaterial) → Answers k keys (find? (has_npub k) keys)
unfolding includes
find?-Answers k [] = refl
find?-Answers k (key ∷ keys) = elim (Bool-cases (key.public_key_npub === k)) [
  | inl here ↦ rw here (ground (arith, ===_refl key.public_key_npub))
  | inr later ↦
      rw later (later_Answers k key keys (find? (has_npub k) keys) later (find?-Answers k keys))
]

pub added_to-IsValid :
    (keys : List LocalKeyMaterial) (key : LocalKeyMaterial) (found : Option LocalKeyMaterial)
    → IsDistinct (map npub keys)
    → All HasPrivate keys
    → HasPrivate key
    → Answers key.public_key_npub keys found
    → IsValid (added_to keys key found).keyring
unfolding includes
added_to-IsValid keys key none d p q h =
    ((h, d), (q, p), ground (arith, ===_refl key.public_key_npub))
added_to-IsValid keys key (some existing) d p q h = (d, p, h)

filter-fresh :
    (f : LocalKeyMaterial → Bool) (k : JsString) (keys : List LocalKeyMaterial)
    → includes (map npub keys) k ≡ false
    → includes (map npub (filter f keys)) k ≡ false
unfolding includes
filter-fresh f k [] h = refl
filter-fresh f k (key ∷ keys) h = ground (arith, filter-fresh f k keys)

filter-IsDistinct :
    (f : LocalKeyMaterial → Bool) (keys : List LocalKeyMaterial)
    → IsDistinct (map npub keys)
    → IsDistinct (map npub (filter f keys))
filter-IsDistinct f [] d = tt
filter-IsDistinct f (key ∷ keys) (fresh, d) = elim (Bool-cases (f key)) [
  | inl kept ↦ rw kept (filter-fresh f key.public_key_npub keys fresh, filter-IsDistinct f keys d)
  | inr dropped ↦ rw dropped (filter-IsDistinct f keys d)
]

any-includes :
    (k : JsString) (keys : List LocalKeyMaterial)
    → any (has_npub k) keys ≡ includes (map npub keys) k
unfolding includes
any-includes k [] = refl
any-includes k (key ∷ keys) =
    ap (λ (b : Bool). key.public_key_npub === k || b) (any-includes k keys)

module _ (k : JsString) (t : LocalKeyVerificationType) (v : Option LocalKeyVerificationRecord) where
  abbrev verify_at : LocalKeyMaterial → LocalKeyMaterial
  verify_at key = if has_npub k key then verify t v key else key

  verify-same :
      (key : LocalKeyMaterial)
      → (npub (verify_at key) ≡ npub key) × ((verify_at key).private_key_hex ≡ key.private_key_hex)
  verify-same key = elim (Bool-cases (key.public_key_npub === k)) [
    | inl here ↦ rw here (refl, refl)
    | inr other ↦ rw other (refl, refl)
  ]

  npubs-verify : (keys : List LocalKeyMaterial) → map npub (map verify_at keys) ≡ map npub keys
  npubs-verify [] = refl
  npubs-verify (key ∷ keys) =
      ap (λ (n : JsString). n ∷ map npub (map verify_at keys)) (verify-same key).0
      ∙ ap (◌∷◌ (npub key)) (npubs-verify keys)

  verify-HasPrivate :
      (keys : List LocalKeyMaterial) → All HasPrivate keys → All HasPrivate (map verify_at keys)
  verify-HasPrivate [] h = tt
  verify-HasPrivate (key ∷ keys) (p, h) =
      (ap truthy (verify-same key).1 ∙ p, verify-HasPrivate keys h)

  verify-IsActive :
      (active : Option JsString) (keys : List LocalKeyMaterial)
      → IsActive active keys
      → IsActive active (map verify_at keys)
  verify-IsActive none keys h = ap (map verify_at) h
  verify-IsActive (some active) keys h =
      ap (λ (ns : List JsString). includes ns active) (npubs-verify keys) ∙ h

-- Whatever keyring they are given, adding a key that has its private key, removing a key, choosing the
-- active key and noting a verification leave a keyring with no public key twice, only keys with their
-- private keys, and one of them as the active key, or none if there are no keys.
pub operations-IsValid :
    (keyring : LocalKeyring) (key : LocalKeyMaterial) (k : JsString) (t : LocalKeyVerificationType)
    (v : Option LocalKeyVerificationRecord)
    → HasPrivate key
    → IsValid (add_key_to_keyring keyring key).keyring
      × IsValid (remove_key_from_keyring keyring k)
      × IsValid (set_active_key_in_keyring keyring k)
      × IsValid (set_key_verification keyring k t v)
unfolding add_key_to_keyring remove_key_from_keyring set_active_key_in_keyring set_key_verification
operations-IsValid keyring key k t v q =
    let normalized = normalize_keyring keyring in
    let keys = normalized.keys in
    let (d, p, a) = normalize_keyring-IsValid keyring in
    let keep : LocalKeyMaterial → Bool = λ other. not (has_npub k other) in
    (
      added_to-IsValid keys key (find? (has_npub key.public_key_npub) keys) d p q
          (find?-Answers key.public_key_npub keys),
      (
        filter-IsDistinct keep keys d,
        filter_keeps-All keep HasPrivate keys p,
        first_key-IsActive (filter keep keys),
      ),
      elim (Bool-cases (any (has_npub k) keys)) [
        | inl there ↦ rw there (d, p, sym (any-includes k keys) ∙ there)
        | inr gone ↦ rw gone (d, p, a)
      ],
      (
        subst IsDistinct (sym (npubs-verify k t v keys)) d,
        verify-HasPrivate k t v keys p,
        verify-IsActive k t v normalized.active_public_key_npub keys a,
      ),
    )
