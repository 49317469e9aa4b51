-- ===== src/Keys/Tests.antt =====
-- The theorems on apps/web/src/key-manager.ts at a concrete keyring.
use synchrono_city.Prelude.{◌≡◌, refl, none, some, [], ◌∷◌}
use synchrono_city.Prelude.Text.{JsString, codes}
use synchrono_city.Keys.Keyring.{
  imported, oauth, verified, LocalKeyVerificationRecord, LocalKeyMaterial, LocalKeyring,
  add_key_to_keyring, remove_key_from_keyring, set_active_key_in_keyring, get_active_local_key,
  set_key_verification,
}
use synchrono_city.Keys.Keyring.Laws.{IsValid}
use synchrono_city.Keys.Keyring.Laws.Operations.{operations-IsValid}
use synchrono_city.Keys.Keyring.Laws.Active.{get_active-add_key_to_keyring}

abbrev key_of : JsString → LocalKeyMaterial
key_of npub = record {
  id = npub;
  source = imported;
  created_at = codes "1970";
  public_key_hex = npub;
  public_key_npub = npub;
  private_key_hex = codes "01";
  private_key_nsec = codes "nsec";
  verifications = none;
}

abbrev keyring : LocalKeyring
keyring = record {
  active_public_key_npub = some (codes "z");
  keys = key_of (codes "a") ∷ key_of (codes "b") ∷ key_of (codes "a") ∷ [];
}

abbrev proof : LocalKeyVerificationRecord
proof = record {
  status = verified;
  proof_value = none;
  checked_at = codes "1970";
  verified_at = none;
  metadata = none;
}

operations-IsValid_example :
    IsValid (add_key_to_keyring keyring (key_of (codes "c"))).keyring
    × IsValid (remove_key_from_keyring keyring (codes "a"))
    × IsValid (set_active_key_in_keyring keyring (codes "a"))
    × IsValid (set_key_verification keyring (codes "a") oauth (some proof))
operations-IsValid_example =
    operations-IsValid keyring (key_of (codes "c")) (codes "a") oauth (some proof) refl

get_active-add_key_to_keyring_example :
    get_active_local_key (add_key_to_keyring keyring (key_of (codes "b"))).keyring
    ≡ some (add_key_to_keyring keyring (key_of (codes "b"))).active_key
get_active-add_key_to_keyring_example =
    get_active-add_key_to_keyring keyring (key_of (codes "b")) refl refl
