-- ===== src/Keys/Stored.antt =====
-- apps/web/src/key-manager.ts: the keyring that is read from the browser's storage. With it
-- `isEncryptedData` of apps/web/src/crypto.ts.
use synchrono_city.Prelude.{
  ℕ, suc, ◌==◌, Bool, false, Option, none, some, or_else, List, [], ◌∷◌, if◌then◌else◌, ◌>>=◌,
}
use synchrono_city.Prelude.Text.{JsString, codes, ◌===◌, truthy}
use synchrono_city.Prelude.Maps.{JsMap, map_set}
use synchrono_city.Social.Values.{
  JsValue, undefined, boolean, number, string, array, object, Elements, end, element, Properties,
  bare, property, property_of, nonempty_or_undefined,
}
use synchrono_city.Data.Story.{digits}
use synchrono_city.Prelude.Int.{pos}
use synchrono_city.Keys.Keyring.{
  LocalKeySource, generated, imported, VerificationStatus, verified, missing,
  LocalKeyVerificationRecord, Verifications, LocalKeyMaterial, some_verification,
}

-- The version is always 1.
pub record EncryptedData : Type 0 where
  pub salt : JsString
  pub iv : JsString
  pub ciphertext : JsString

pub record EncryptedKeyEntry : Type 0 where
  pub id : JsString
  pub source : LocalKeySource
  pub created_at : JsString
  pub public_key_hex : JsString
  pub public_key_npub : JsString
  pub verifications : Option Verifications
  pub encrypted_private_key_hex : EncryptedData
  pub encrypted_private_key_nsec : EncryptedData

pub data StoredKey : Type 0 where
  plain : LocalKeyMaterial → StoredKey
  encrypted : EncryptedKeyEntry → StoredKey

pub record StoredKeyring : Type 0 where
  pub active_public_key_npub : Option JsString
  pub keys : List StoredKey
  pub is_encrypted : Bool

-- `typeof record[key] === "string" ? record[key] : …`
abbrev pub string_at : Properties → JsString → Option JsString
string_at ps key = elim (property_of ps key) [
  | none ↦ none
  | some (string s) ↦ some s
  | some _ ↦ none
]

abbrev pub value_at : Properties → JsString → JsValue
value_at ps key = or_else (property_of ps key) undefined

-- The entries whose value is a string; a key that comes again is overwritten.
unfoldable pub string_entries : Properties → JsMap JsString → JsMap JsString
string_entries bare entries = entries
string_entries (property k (string s) ps) entries = string_entries ps (map_set k s entries)
string_entries (property k _ ps) entries = string_entries ps entries

-- An array has its indices as keys.
abbrev pub index_entries : ℕ → Elements → JsMap JsString
index_entries n end = []
index_entries n (element (string s) es) = (digits n n, s) ∷ index_entries (suc n) es
index_entries n (element _ es) = index_entries (suc n) es

unfoldable pub normalize_string_record : JsValue → Option (JsMap JsString)
unfolding string_entries
normalize_string_record (object ps) = nonempty_or_undefined (string_entries ps [])
normalize_string_record (array es) = nonempty_or_undefined (index_entries 0 es)
normalize_string_record _ = none

abbrev pub is_one : Option JsValue → Bool
is_one (some (number (pos n))) = n == 1
is_one _ = false

-- The data, if the value passes the test.
unfoldable pub is_encrypted_data : JsValue → Option EncryptedData
is_encrypted_data (object ps) = do
  salt ← string_at ps (codes "salt")
  iv ← string_at ps (codes "iv")
  ciphertext ← string_at ps (codes "ciphertext")
  if is_one (property_of ps (codes "v"))
      then some (record { salt = salt; iv = iv; ciphertext = ciphertext })
      else none
is_encrypted_data _ = none

abbrev pub status_of : Option JsString → Option VerificationStatus
status_of none = none
status_of (some s) =
    if s === codes "verified"
    then some verified
    else if s === codes "missing"
    then some missing
    else none

abbrev pub nonempty : Option JsString → Option JsString
nonempty none = none
nonempty (some s) = if truthy s then some s else none

-- The body of the loop over the proof types.
abbrev pub verification_of : JsValue → Option LocalKeyVerificationRecord
verification_of (object ps) = do
  status ← status_of (string_at ps (codes "status"))
  checked_at ← nonempty (string_at ps (codes "checkedAt"))
  some (record {
    status = status;
    proof_value = string_at ps (codes "proofValue");
    checked_at = checked_at;
    verified_at = string_at ps (codes "verifiedAt");
    metadata = normalize_string_record (value_at ps (codes "metadata"));
  })
verification_of _ = none

unfoldable pub normalize_stored_verifications : JsValue → Option Verifications
unfolding normalize_string_record
normalize_stored_verifications (object ps) =
    some_verification (verification_of (value_at ps (codes "oauth")))
      (verification_of (value_at ps (codes "social")))
normalize_stored_verifications _ = none

-- `now` is `new Date().toISOString()`.
module _ (now : JsString) where
  abbrev pub source_of : Option JsString → LocalKeySource
  source_of none = imported
  source_of (some s) = if s === codes "generated" then generated else imported

  abbrev pub encrypted_key :
      Properties → JsString → JsString → EncryptedData → EncryptedData → StoredKey
  encrypted_key ps hex npub hex_data nsec_data = encrypted (record {
    id = or_else (string_at ps (codes "id")) npub;
    source = source_of (string_at ps (codes "source"));
    created_at = or_else (string_at ps (codes "createdAt")) now;
    public_key_hex = hex;
    public_key_npub = npub;
    verifications = normalize_stored_verifications (value_at ps (codes "verifications"));
    encrypted_private_key_hex = hex_data;
    encrypted_private_key_nsec = nsec_data;
  })

  abbrev pub plain_key : Properties → JsString → JsString → Option StoredKey
  plain_key ps hex npub = do
    private_key_hex ← string_at ps (codes "privateKeyHex")
    private_key_nsec ← string_at ps (codes "privateKeyNsec")
    some (
        plain (record {
          id = or_else (string_at ps (codes "id")) npub;
          source = source_of (string_at ps (codes "source"));
          created_at = or_else (string_at ps (codes "createdAt")) now;
          public_key_hex = hex;
          public_key_npub = npub;
          private_key_hex = private_key_hex;
          private_key_nsec = private_key_nsec;
          verifications = normalize_stored_verifications (value_at ps (codes "verifications"));
        }))

  -- An entry is encrypted if both private keys are.
  abbrev pub stored_key_of :
      Properties
      → JsString
      → JsString
      → Option EncryptedData
      → Option EncryptedData
      → Option StoredKey
  stored_key_of ps hex npub (some hex_data) (some nsec_data) =
      some (encrypted_key ps hex npub hex_data nsec_data)
  stored_key_of ps hex npub _ _ = plain_key ps hex npub

  unfoldable pub normalize_stored_key : JsValue → Option StoredKey
  unfolding normalize_stored_verifications is_encrypted_data
  normalize_stored_key (object ps) = string_at ps (codes "publicKeyHex") >>= λ hex.
      string_at ps (codes "publicKeyNpub") >>= λ npub.
      stored_key_of ps hex npub (is_encrypted_data (value_at ps (codes "encryptedPrivateKeyHex")))
        (is_encrypted_data (value_at ps (codes "encryptedPrivateKeyNsec")))
  normalize_stored_key _ = none

  abbrev pub npub_of : StoredKey → JsString
  npub_of (plain key) = key.public_key_npub
  npub_of (encrypted key) = key.public_key_npub

  abbrev pub stored_keys : Elements → List StoredKey
  stored_keys end = []
  stored_keys (element v es) = elim (normalize_stored_key v) [
    | none ↦ stored_keys es
    | some key ↦ key ∷ stored_keys es
  ]

  abbrev pub is_true : Option JsValue → Bool
  is_true (some (boolean b)) = b
  is_true _ = false

  -- The single key of the old format.
  abbrev pub legacy_keyring : Option StoredKey → StoredKeyring
  legacy_keyring none = record { active_public_key_npub = none; keys = []; is_encrypted = false }
  legacy_keyring (some key) = record {
    active_public_key_npub = some (npub_of key);
    keys = key ∷ [];
    is_encrypted = false;
  }

  abbrev pub keyring_of : Properties → Option JsValue → StoredKeyring
  keyring_of ps (some (array es)) = record {
    active_public_key_npub = string_at ps (codes "activePublicKeyNpub");
    keys = stored_keys es;
    is_encrypted = is_true (property_of ps (codes "encrypted"));
  }
  keyring_of ps _ = legacy_keyring (normalize_stored_key (object ps))

  unfoldable pub normalize_stored_keyring : JsValue → StoredKeyring
  unfolding normalize_stored_key
  normalize_stored_keyring (object ps) = keyring_of ps (property_of ps (codes "keys"))
  normalize_stored_keyring _ = record {
    active_public_key_npub = none;
    keys = [];
    is_encrypted = false;
  }
