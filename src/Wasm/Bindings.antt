-- ===== src/Wasm/Bindings.antt =====
-- cmd/wasm/main.go: the functions over keys, items and TOTP secrets. The base64 encoding, JSON on items
-- and the TOTP generator are parameters. `random` is what `rand.Read` gave.
pub mod Sound
pub mod Device
use go_vault.Prelude.{Option, none, some, [], Bytes, codes}
use go_vault.Primitives.{Primitives, KdfParams}
use go_vault.Crypto.Kdf.{derive_master_key, stretch_master_key}
use go_vault.Crypto.Keys.{derive_auth_hash}
use go_vault.Crypto.Aead.{drawn, wrap_key, unwrap_key}
use go_vault.Crypto.Item.{
  Item, ItemJson, encrypt_item, decrypt_item, wrap_totp_secret, unwrap_totp_secret,
}
use go_vault.Crypto.Text.{normalize_email}
use go_vault.Wasm.Outcome.{Outcome, returns, panics, ◌>>=◌, or_panic}

abbrev pub present {ℓ} : {A : Type ℓ} → Option A → Outcome A
present none = panics
present (some a) = returns a

-- totp.Generate with an issuer and an account: the secret and the URL.
unfoldable pub generate_totp_secret :
    (Bytes → Bytes → Option (Bytes × Bytes)) → Bytes → Bytes → Option (Bytes × Bytes)
generate_totp_secret generate issuer account_name = generate issuer account_name

unfoldable pub js_generate_totp_secret :
    (Bytes → Bytes → Option (Bytes × Bytes)) → Bytes → Outcome (Bytes × Bytes)
unfolding generate_totp_secret
js_generate_totp_secret generate email =
    present (generate_totp_secret generate (codes "Secure Vault") email)

module _ (p : Primitives) where
  abbrev pub decode_b64 : Bytes → Outcome Bytes
  decode_b64 s = present (p.base64_decode s)

  abbrev pub parse_kdf : Bytes → Outcome KdfParams
  parse_kdf s = present (p.kdf_of_json s)

  module _ (encode : Bytes → Bytes) where
    unfoldable pub js_derive_master_key : Bytes → Bytes → Bytes → Outcome Bytes
    unfolding derive_master_key normalize_email
    js_derive_master_key password email kdf = do
      params ← parse_kdf kdf
      key ← or_panic (derive_master_key p password (normalize_email p email) params)
      returns (encode key)

    unfoldable pub js_derive_auth_hash : Bytes → Bytes → Bytes → Outcome Bytes
    unfolding derive_auth_hash
    js_derive_auth_hash master_key_b64 password kdf = do
      master_key ← decode_b64 master_key_b64
      params ← parse_kdf kdf
      hash ← or_panic (derive_auth_hash p master_key password params)
      returns (encode hash)

    unfoldable pub js_stretch_master_key : Bytes → Outcome (Bytes × Bytes)
    unfolding stretch_master_key
    js_stretch_master_key master_key_b64 = do
      master_key ← decode_b64 master_key_b64
      keys ← or_panic (stretch_master_key p master_key)
      returns (encode keys.0, encode keys.1)

    unfoldable pub js_new_vault_key : Option Bytes → Outcome Bytes
    js_new_vault_key random = do key ← or_panic (drawn random); returns (encode key)

    unfoldable pub js_wrap_vault_key : Option Bytes → Bytes → Bytes → Outcome Bytes
    unfolding wrap_key
    js_wrap_vault_key random vault_key_b64 enc_key_b64 = do
      vault_key ← decode_b64 vault_key_b64
      enc_key ← decode_b64 enc_key_b64
      wrapped ← or_panic (wrap_key p random enc_key vault_key [])
      returns (encode wrapped)

    unfoldable pub js_unwrap_vault_key : Bytes → Bytes → Outcome Bytes
    unfolding unwrap_key
    js_unwrap_vault_key wrapped_b64 enc_key_b64 = do
      wrapped ← decode_b64 wrapped_b64
      enc_key ← decode_b64 enc_key_b64
      vault_key ← or_panic (unwrap_key p enc_key wrapped [])
      returns (encode vault_key)

    unfoldable pub js_wrap_totp_secret : Option Bytes → Bytes → Bytes → Outcome Bytes
    unfolding wrap_totp_secret
    js_wrap_totp_secret random secret vault_key_b64 = do
      vault_key ← decode_b64 vault_key_b64
      wrapped ← or_panic (wrap_totp_secret p random vault_key secret)
      returns (encode wrapped)

    module _ (json : ItemJson) where
      unfoldable pub js_seal_item : Option Bytes → Bytes → Bytes → Outcome Bytes
      unfolding encrypt_item
      js_seal_item random item_json vault_key_b64 = do
        item ← present (json.unmarshal item_json)
        vault_key ← decode_b64 vault_key_b64
        ciphertext ← or_panic (encrypt_item p json random vault_key (some item) [])
        returns (encode ciphertext)

  unfoldable pub js_unwrap_totp_secret : Bytes → Bytes → Outcome Bytes
  unfolding unwrap_totp_secret
  js_unwrap_totp_secret wrapped_b64 vault_key_b64 = do
    wrapped ← decode_b64 wrapped_b64
    vault_key ← decode_b64 vault_key_b64
    or_panic (unwrap_totp_secret p vault_key wrapped)

  module _ (json : ItemJson) where
    unfoldable pub js_open_item : Bytes → Bytes → Outcome Bytes
    unfolding decrypt_item
    js_open_item ciphertext_b64 vault_key_b64 = do
      ciphertext ← decode_b64 ciphertext_b64
      vault_key ← decode_b64 vault_key_b64
      item ← or_panic (decrypt_item p json vault_key ciphertext [])
      returns (json.marshal item)
