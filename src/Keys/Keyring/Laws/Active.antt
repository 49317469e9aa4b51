-- ===== src/Keys/Keyring/Laws/Active.antt =====
-- The active key of the keyring of apps/web/src/key-manager.ts.
use synchrono_city.Prelude.{
  ◌≡◌, refl, sym, ap, ◌∙◌, Bool, true, false, ◌&&◌, ◌||◌, Option, none, some, List, [], ◌∷◌, ◌++◌,
  map, find?, arith, Bool-cases, inl, inr, All, append_assoc, append-nil, some-injective,
  none-ne_some,
}
use synchrono_city.Prelude.Text.{JsString, ◌===◌, ===_iff, ===_refl, truthy, includes}
use synchrono_city.Prelude.Sets.{IsDistinct}
use synchrono_city.Prelude.Maps.{JsMap, map_set, map_has, map_has-map_set}
use synchrono_city.Keys.Keyring.{
  LocalKeyMaterial, LocalKeyring, dedupe_keys, normalize_keyring, has_npub, added_to,
  add_key_to_keyring, active_key_of, get_active_local_key,
}
use synchrono_city.Keys.Keyring.Laws.{npub, HasPrivate, IsValid, normalize_keyring-IsValid}
use synchrono_city.Keys.Keyring.Laws.Operations.{added_to-IsValid, find?-Answers}

abbrev pair : LocalKeyMaterial → JsString × LocalKeyMaterial
pair key = (key.public_key_npub, key)

map_set_fresh :
    (k : JsString) (key : LocalKeyMaterial) (m : JsMap LocalKeyMaterial)
    → map_has k m ≡ false
    → map_set k key m ≡ m ++ (k, key) ∷ []
unfolding map_has map_set
map_set_fresh k key [] h = refl
map_set_fresh k key ((j, v) ∷ m) h = elim (Bool-cases (j === k)) [
  | inl same ↦ absurd (ground arith)
  | inr other ↦ rw other (ap (◌∷◌ (j, v)) (map_set_fresh k key m (ground arith)))
]

abbrev IsFresh : JsMap LocalKeyMaterial → LocalKeyMaterial → Type 0
IsFresh m key = map_has key.public_key_npub m ≡ false

still-IsFresh :
    (key : LocalKeyMaterial) (m : JsMap LocalKeyMaterial) (keys : List LocalKeyMaterial)
    → includes (map npub keys) key.public_key_npub ≡ false
    → All (IsFresh m) keys
    → All (IsFresh (map_set key.public_key_npub key m)) keys
unfolding includes
still-IsFresh key m [] h f = tt
still-IsFresh key m (other ∷ keys) h (new, f) = (
  ground (
    arith,
    map_has-map_set key.public_key_npub other.public_key_npub key m,
    ===_iff key.public_key_npub other.public_key_npub,
    ===_iff other.public_key_npub key.public_key_npub,
  ),
  still-IsFresh key m keys (ground arith) f,
)

dedupe_keys_fresh :
    (keys : List LocalKeyMaterial) (m : JsMap LocalKeyMaterial)
    → IsDistinct (map npub keys)
    → All HasPrivate keys
    → All (IsFresh m) keys
    → dedupe_keys keys m ≡ m ++ map pair keys
unfolding dedupe_keys
dedupe_keys_fresh [] m d p f = sym (append-nil m)
dedupe_keys_fresh (key ∷ keys) m (n, d) (q, p) (new, f) = rw q (
    dedupe_keys_fresh keys (map_set key.public_key_npub key m) d p (still-IsFresh key m keys n f)
    ∙ ap (λ (e : JsMap LocalKeyMaterial). e ++ map pair keys)
        (map_set_fresh key.public_key_npub key m new)
    ∙ append_assoc m (pair key ∷ []) (map pair keys))

values-pairs : (keys : List LocalKeyMaterial) → map (λ e. e.1) (map pair keys) ≡ keys
values-pairs [] = refl
values-pairs (key ∷ keys) = ap (◌∷◌ key) (values-pairs keys)

has-pairs :
    (k : JsString) (keys : List LocalKeyMaterial)
    → map_has k (map pair keys) ≡ includes (map npub keys) k
unfolding map_has includes
has-pairs k [] = refl
has-pairs k (key ∷ keys) = ap (λ (b : Bool). key.public_key_npub === k || b) (has-pairs k keys)

all-IsFresh : (keys : List LocalKeyMaterial) → All (IsFresh []) keys
unfolding map_has
all-IsFresh [] = tt
all-IsFresh (key ∷ keys) = (refl, all-IsFresh keys)

-- A keyring in normal form with an active key that is not the empty string is its own normal form.
pub normalize_keyring_idem :
    (active : JsString) (keys : List LocalKeyMaterial)
    → truthy active ≡ true
    → IsValid (record { active_public_key_npub = some active; keys = keys })
    → normalize_keyring (record { active_public_key_npub = some active; keys = keys })
      ≡ record { active_public_key_npub = some active; keys = keys }
unfolding normalize_keyring
normalize_keyring_idem active keys t (d, p, a) =
    let e = dedupe_keys_fresh keys [] d p (all-IsFresh keys) in
    let there : (truthy active && map_has active (map pair keys)) ≡ true =
      ground (arith, has-pairs active keys) in
    rw e (
      rw there (
        ap
          (λ (ks : List LocalKeyMaterial). record {
            active_public_key_npub = some active;
            keys = ks;
          })
          (values-pairs keys)))

find_found :
    (k : JsString) (keys : List LocalKeyMaterial) (existing : LocalKeyMaterial)
    → find? (has_npub k) keys ≡ some existing
    → existing.public_key_npub ≡ k
find_found k [] existing h = absurd (none-ne_some h)
find_found k (key ∷ keys) existing h = elim (Bool-cases (key.public_key_npub === k)) [
  | inl here ↦
      ap npub (sym (some-injective (rw here at h))) ∙ (===_iff key.public_key_npub k).0 here
  | inr later ↦ find_found k keys existing (rw later at h)
]

-- The active key of a keyring in normal form is the one that its public key finds.
get_active_of_normal :
    (active : JsString) (keys : List LocalKeyMaterial)
    → truthy active ≡ true
    → IsValid (record { active_public_key_npub = some active; keys = keys })
    → get_active_local_key (record { active_public_key_npub = some active; keys = keys })
      ≡ find? (has_npub active) keys
unfolding get_active_local_key
get_active_of_normal active keys t v =
    ap (λ (r : LocalKeyring). active_key_of r.active_public_key_npub r.keys)
      (normalize_keyring_idem active keys t v)

get_active-added_to :
    (keys : List LocalKeyMaterial) (key : LocalKeyMaterial) (found : Option LocalKeyMaterial)
    → truthy key.public_key_npub ≡ true
    → find? (has_npub key.public_key_npub) keys ≡ found
    → IsValid (added_to keys key found).keyring
    → get_active_local_key (added_to keys key found).keyring
      ≡ some (added_to keys key found).active_key
get_active-added_to keys key none t e v =
    get_active_of_normal key.public_key_npub (key ∷ keys) t v
    ∙ rw (===_refl key.public_key_npub) refl
get_active-added_to keys key (some existing) t e v =
    let same = find_found key.public_key_npub keys existing e in
    get_active_of_normal existing.public_key_npub keys (ap truthy same ∙ t) v
    ∙ ap (λ (k : JsString). find? (has_npub k) keys) same
    ∙ e

-- After a key with a private and a public key was added to any keyring, the active key is the key that
-- the addition names: the one that was in the keyring with its public key, and otherwise the new one.
pub get_active-add_key_to_keyring :
    (keyring : LocalKeyring) (key : LocalKeyMaterial)
    → HasPrivate key
    → truthy key.public_key_npub ≡ true
    → get_active_local_key (add_key_to_keyring keyring key).keyring
      ≡ some (add_key_to_keyring keyring key).active_key
unfolding add_key_to_keyring
get_active-add_key_to_keyring keyring key q t =
    let keys = (normalize_keyring keyring).keys in
    let (d, p, a) = normalize_keyring-IsValid keyring in
    let found = find? (has_npub key.public_key_npub) keys in
    get_active-added_to keys key found t refl
      (added_to-IsValid keys key found d p q (find?-Answers key.public_key_npub keys))
