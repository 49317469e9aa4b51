-- ===== src/Nostr/Platform.antt =====
-- What nostr.ts asks of the browser and of packages. It is a parameter of the model.
use synchrono_city.Prelude.{ℕ, List, Option}
use synchrono_city.Prelude.Int.{ℤ}
use synchrono_city.Prelude.Text.{JsString}
use synchrono_city.Prelude.Runtime.{Runtime}
use synchrono_city.NostrUtils.{Bech32}
use synchrono_city.Social.Values.{JsValue}

pub record Platform : Type 0 where
  pub runtime : Runtime
  pub bech32 : Bech32
  -- `JSON.parse(s)`, `none` if it throws
  pub json_parse : JsString → Option JsValue
  -- `new Date(ms).toISOString()`, `none` if it throws
  pub to_iso_string : ℤ → Option JsString
  -- `new URL(s)`: its protocol and its `toString()`, `none` if it throws
  pub parse_url : JsString → Option (JsString × JsString)
  -- `JSON.stringify(v)`
  pub json_stringify : JsValue → JsString

-- What is asked of `crypto.subtle` and of the package @noble/curves; `none` if it throws.
pub record Signer : Type 0 where
  -- `crypto.subtle.digest("SHA-256", new TextEncoder().encode(s))`
  pub sha256 : JsString → List ℕ
  -- `schnorr.getPublicKey(secretKey)`
  pub get_public_key : List ℕ → Option (List ℕ)
  -- `schnorr.sign(message, secretKey)`
  pub sign : List ℕ → List ℕ → Option (List ℕ)
