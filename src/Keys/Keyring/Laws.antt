-- ===== src/Keys/Keyring/Laws.antt =====
-- The keyring of apps/web/src/key-manager.ts.
pub mod Operations
pub mod Active
use synchrono_city.Prelude.{
  ◌≡◌, ◌⊎◌, refl, sym, ap, ◌∙◌, Bool, true, false, not, ◌&&◌, ◌||◌, Option, none, some, or_else,
  List, [], ◌∷◌, map, filter, find?, any, arith, if◌then◌else◌, Bool-cases, inl, inr, All,
  filter_keeps-All,
}
use synchrono_city.Prelude.Text.{JsString, ◌===◌, ===_iff, ===_refl, truthy, includes}
use synchrono_city.Prelude.Sets.{IsDistinct}
use synchrono_city.Prelude.Maps.{
  JsMap, map_get, map_set, map_has, IsMap, map_set-IsMap, map_has_of_none,
}
use synchrono_city.Prelude.Keyed.{IsKeyed, map_set-IsKeyed, includes-keys, keys-IsDistinct}
use synchrono_city.Keys.Keyring.{
  LocalKeyVerificationType, LocalKeyVerificationRecord, LocalKeyMaterial, LocalKeyring, dedupe_keys,
  first_key, active_or_first, normalize_keyring, has_npub, AddedKey, added_to, add_key_to_keyring,
  remove_key_from_keyring, set_active_key_in_keyring, active_key_of, get_active_local_key, verify,
  set_key_verification,
}

abbrev pub npub : LocalKeyMaterial → JsString
npub key = key.public_key_npub

abbrev pub HasPrivate : LocalKeyMaterial → Type 0
HasPrivate key = truthy key.private_key_hex ≡ true

-- The active key is one of the keys, and there is none only if there are no keys.
abbrev pub IsActive : Option JsString → List LocalKeyMaterial → Type 0
IsActive none keys = keys ≡ []
IsActive (some active) keys = includes (map npub keys) active ≡ true

-- No public key stands twice, every key has its private key, and the active key is there.
abbrev pub IsValid : LocalKeyring → Type 0
IsValid keyring =
    IsDistinct (map npub keyring.keys)
    × All HasPrivate keyring.keys
    × IsActive keyring.active_public_key_npub keyring.keys

-- What the loop of `normalizeKeyring` keeps of its map.
abbrev IsDeduped : JsMap LocalKeyMaterial → Type 0
IsDeduped m = IsMap m × IsKeyed npub m × All (λ e. HasPrivate e.1) m

map_set-HasPrivate :
    (k : JsString) (key : LocalKeyMaterial) (m : JsMap LocalKeyMaterial)
    → HasPrivate key
    → All (λ e. HasPrivate e.1) m
    → All (λ e. HasPrivate e.1) (map_set k key m)
unfolding map_set
map_set-HasPrivate k key [] p h = (p, tt)
map_set-HasPrivate k key ((j, other) ∷ m) p (q, h) = elim (Bool-cases (j === k)) [
  | inl same ↦ rw same (p, h)
  | inr apart ↦ rw apart (q, map_set-HasPrivate k key m p h)
]

dedupe_keys-IsDeduped :
    (keys : List LocalKeyMaterial) (m : JsMap LocalKeyMaterial)
    → IsDeduped m
    → IsDeduped (dedupe_keys keys m)
unfolding dedupe_keys
dedupe_keys-IsDeduped [] m h = h
dedupe_keys-IsDeduped (key ∷ keys) m (h, s, p) = elim (Bool-cases (truthy key.private_key_hex)) [
  | inr none_there ↦ rw none_there (dedupe_keys-IsDeduped keys m (h, s, p))
  | inl there ↦ rw there (
      dedupe_keys-IsDeduped keys (map_set key.public_key_npub key m) (
        map_set-IsMap key.public_key_npub key m h,
        map_set-IsKeyed npub key.public_key_npub key m refl s,
        map_set-HasPrivate key.public_key_npub key m there p,
      ))
]

values-HasPrivate :
    (m : JsMap LocalKeyMaterial) → All (λ e. HasPrivate e.1) m → All HasPrivate (map (λ e. e.1) m)
values-HasPrivate [] h = tt
values-HasPrivate (e ∷ m) (p, h) = (p, values-HasPrivate m h)

first_key-IsActive : (keys : List LocalKeyMaterial) → IsActive (first_key keys) keys
unfolding includes
first_key-IsActive [] = refl
first_key-IsActive (key ∷ keys) = ground (arith, ===_refl key.public_key_npub)

active_or_first-IsActive :
    (active : Option JsString) (m : JsMap LocalKeyMaterial)
    → IsKeyed npub m
    → IsActive (active_or_first active m (map (λ e. e.1) m)) (map (λ e. e.1) m)
active_or_first-IsActive none m s = first_key-IsActive (map (λ e. e.1) m)
active_or_first-IsActive (some active) m s = elim (Bool-cases (truthy active && map_has active m)) [
  | inl there ↦ rw there (includes-keys npub active m s ∙ ground arith)
  | inr gone ↦ rw gone (first_key-IsActive (map (λ e. e.1) m))
]

-- Whatever keyring is given, its normal form has no public key twice, only keys with their private
-- keys, and one of them as the active key, or none if there are no keys.
pub normalize_keyring-IsValid : (keyring : LocalKeyring) → IsValid (normalize_keyring keyring)
unfolding normalize_keyring
normalize_keyring-IsValid keyring =
    let (h, s, p) = dedupe_keys-IsDeduped keyring.keys [] (tt, tt, tt) in
    let m = dedupe_keys keyring.keys [] in
    (
      keys-IsDistinct npub m h s,
      values-HasPrivate m p,
      active_or_first-IsActive keyring.active_public_key_npub m s,
    )
