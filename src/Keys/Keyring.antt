-- ===== src/Keys/Keyring.antt =====
-- apps/web/src/key-manager.ts: the keyring and its operations, and how keys are made.
pub mod Laws
use mathlib.Core.Option
use synchrono_city.Prelude.{
  ℕ, Bool, true, false, not, ◌&&◌, Option, none, some, or_else, List, [], ◌∷◌, map, filter, find?,
  any, head?, length, ◌==◌, if◌then◌else◌, ◌>>=◌,
}
use synchrono_city.Prelude.Text.{JsString, codes, ◌===◌, trim, truthy}
use synchrono_city.Prelude.Maps.{JsMap, map_has, map_set}
use synchrono_city.Prelude.Runtime.{Runtime}
use synchrono_city.NostrUtils.{
  Bech32, is_valid_hex, starts_with, bytes_to_hex, hex_to_bytes, decode_nostr_bech32,
}

pub data LocalKeySource : Type 0 where
  generated imported : LocalKeySource

pub data LocalKeyVerificationType : Type 0 where
  oauth social : LocalKeyVerificationType

pub data VerificationStatus : Type 0 where
  verified missing : VerificationStatus

pub record LocalKeyVerificationRecord : Type 0 where
  pub status : VerificationStatus
  pub proof_value : Option JsString
  pub checked_at : JsString
  pub verified_at : Option JsString
  pub metadata : Option (JsMap JsString)

-- `Partial<Record<LocalKeyVerificationType, LocalKeyVerificationRecord>>`
pub record Verifications : Type 0 where
  pub of_oauth : Option LocalKeyVerificationRecord
  pub of_social : Option LocalKeyVerificationRecord

pub record LocalKeyMaterial : Type 0 where
  pub id : JsString
  pub source : LocalKeySource
  pub created_at : JsString
  pub public_key_hex : JsString
  pub public_key_npub : JsString
  pub private_key_hex : JsString
  pub private_key_nsec : JsString
  pub verifications : Option Verifications

pub record LocalKeyring : Type 0 where
  pub active_public_key_npub : Option JsString
  pub keys : List LocalKeyMaterial

unfoldable pub create_empty_local_keyring : LocalKeyring
create_empty_local_keyring = record { active_public_key_npub = none; keys = [] }

-- The loop of `normalizeKeyring`.
unfoldable pub dedupe_keys : List LocalKeyMaterial → JsMap LocalKeyMaterial → JsMap LocalKeyMaterial
dedupe_keys [] deduped = deduped
dedupe_keys (key ∷ keys) deduped =
    dedupe_keys keys
      (if truthy key.private_key_hex then map_set key.public_key_npub key deduped else deduped)

-- `keys[0]?.publicKeyNpub ?? null`
abbrev pub first_key : List LocalKeyMaterial → Option JsString
first_key [] = none
first_key (key ∷ keys) = some key.public_key_npub

abbrev pub active_or_first :
    Option JsString → JsMap LocalKeyMaterial → List LocalKeyMaterial → Option JsString
active_or_first none deduped keys = first_key keys
active_or_first (some active) deduped keys =
    if truthy active && map_has active deduped then some active else first_key keys

unfoldable pub normalize_keyring : LocalKeyring → LocalKeyring
unfolding dedupe_keys
normalize_keyring keyring =
    let deduped = dedupe_keys keyring.keys [] in
    let keys = map (λ e. e.1) deduped in
    record {
      active_public_key_npub = active_or_first keyring.active_public_key_npub deduped keys;
      keys = keys;
    }

abbrev pub has_npub : JsString → LocalKeyMaterial → Bool
has_npub npub key = key.public_key_npub === npub

-- The keyring, the active key, and whether the key was added.
pub record AddedKey : Type 0 where
  pub keyring : LocalKeyring
  pub active_key : LocalKeyMaterial
  pub added : Bool

abbrev pub added_to : List LocalKeyMaterial → LocalKeyMaterial → Option LocalKeyMaterial → AddedKey
added_to keys key none = record {
  keyring = record { active_public_key_npub = some key.public_key_npub; keys = key ∷ keys };
  active_key = key;
  added = true;
}
added_to keys key (some existing) = record {
  keyring = record { active_public_key_npub = some existing.public_key_npub; keys = keys };
  active_key = existing;
  added = false;
}

unfoldable pub add_key_to_keyring : LocalKeyring → LocalKeyMaterial → AddedKey
unfolding normalize_keyring
add_key_to_keyring keyring key =
    let keys = (normalize_keyring keyring).keys in
    added_to keys key (find? (has_npub key.public_key_npub) keys)

unfoldable pub remove_key_from_keyring : LocalKeyring → JsString → LocalKeyring
unfolding normalize_keyring
remove_key_from_keyring keyring npub =
    let remaining = filter (λ key. not (has_npub npub key)) (normalize_keyring keyring).keys in
    record { active_public_key_npub = first_key remaining; keys = remaining }

unfoldable pub set_active_key_in_keyring : LocalKeyring → JsString → LocalKeyring
unfolding normalize_keyring
set_active_key_in_keyring keyring npub =
    let normalized = normalize_keyring keyring in
    if any (has_npub npub) normalized.keys
    then record normalized { active_public_key_npub = some npub }
    else normalized

-- A key's `publicKeyNpub` is a string, and differs from `null`.
abbrev pub active_key_of : Option JsString → List LocalKeyMaterial → Option LocalKeyMaterial
active_key_of none keys = none
active_key_of (some active) keys = find? (has_npub active) keys

unfoldable pub get_active_local_key : LocalKeyring → Option LocalKeyMaterial
unfolding normalize_keyring
get_active_local_key keyring =
    let normalized = normalize_keyring keyring in
    active_key_of normalized.active_public_key_npub normalized.keys

abbrev pub no_verifications : Verifications
no_verifications = record { of_oauth = none; of_social = none }

-- A write of the property, or its deletion.
abbrev pub with_verification :
    LocalKeyVerificationType → Option LocalKeyVerificationRecord → Verifications → Verifications
with_verification oauth verification vs = record vs { of_oauth = verification }
with_verification social verification vs = record vs { of_social = verification }

-- `Object.keys(next).length > 0 ? next : undefined`
abbrev pub some_verification :
    Option LocalKeyVerificationRecord → Option LocalKeyVerificationRecord → Option Verifications
some_verification none none = none
some_verification o s = some (record { of_oauth = o; of_social = s })

abbrev pub verify :
    LocalKeyVerificationType
    → Option LocalKeyVerificationRecord
    → LocalKeyMaterial
    → LocalKeyMaterial
verify proof_type verification key =
    let next =
      with_verification proof_type verification (or_else key.verifications no_verifications) in
    record key { verifications = some_verification next.of_oauth next.of_social }

unfoldable pub set_key_verification :
    LocalKeyring
    → JsString
    → LocalKeyVerificationType
    → Option LocalKeyVerificationRecord
    → LocalKeyring
unfolding normalize_keyring
set_key_verification keyring npub proof_type verification =
    let normalized = normalize_keyring keyring in
    record normalized {
      keys =
          map (λ key. if has_npub npub key then verify proof_type verification key else key)
            normalized.keys;
    }

-- `get_public_key` is the package @noble/curves, `now` is `new Date().toISOString()`; `none` stands for
-- an error that is thrown.
module _ (rt : Runtime) (bech32 : Bech32) (get_public_key : List ℕ → Option (List ℕ)) where
  abbrev pub key_material : List ℕ → LocalKeySource → JsString → List ℕ → LocalKeyMaterial
  key_material private_key source now public_key = record {
    id = bech32.encode (codes "npub") public_key;
    source = source;
    created_at = now;
    public_key_hex = bytes_to_hex public_key;
    public_key_npub = bech32.encode (codes "npub") public_key;
    private_key_hex = bytes_to_hex private_key;
    private_key_nsec = bech32.encode (codes "nsec") private_key;
    verifications = none;
  }

  unfoldable pub create_local_key_material :
      List ℕ → LocalKeySource → JsString → Option LocalKeyMaterial
  create_local_key_material private_key source now =
      if length private_key == 32
      then Option.map (key_material private_key source now) (get_public_key private_key)
      else none

  unfoldable pub import_local_key_material : JsString → JsString → Option LocalKeyMaterial
  unfolding create_local_key_material
  import_local_key_material input now =
      if is_valid_hex (trim input)
      then (hex_to_bytes rt bech32 (trim input) >>= λ bytes.
          create_local_key_material bytes imported now)
      else if starts_with (rt.to_lower_case (trim input)) (codes "nsec1")
      then (decode_nostr_bech32 rt bech32 (codes "nsec") (trim input) >>= λ bytes.
          create_local_key_material bytes imported now)
      else none
