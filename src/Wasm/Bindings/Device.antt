-- ===== src/Wasm/Bindings/Device.antt =====
-- Two devices of one user, over cmd/wasm/main.go: the first makes the keys and seals an item, the second
-- derives the keys again and opens it.
use go_vault.Prelude.{◌≡◌, refl, false, some, Bytes, length}
use go_vault.Errors.{ok}
use go_vault.Primitives.{Primitives, KdfParams}
use go_vault.Crypto.Kdf.{is_empty, validate}
use go_vault.Crypto.Keys.{vault_key_size_bytes}
use go_vault.Crypto.Aead.{nonce_size_bytes, key_size}
use go_vault.Crypto.Item.{Item, ItemJson}
use go_vault.Crypto.Text.{normalize_email}
use go_vault.Wasm.Outcome.{Outcome, returns, ◌>>=◌}
use go_vault.Wasm.Bindings.{
  js_derive_master_key, js_stretch_master_key, js_new_vault_key, js_wrap_vault_key,
  js_unwrap_vault_key, js_seal_item, js_open_item, js_wrap_totp_secret, js_unwrap_totp_secret,
}
use go_vault.Wasm.Bindings.Sound.{
  Sound, js_derive_master_key-returns, js_stretch_master_key-returns, wraps, seals_item, wraps_totp,
}

-- The random bytes of the first device: the vault key and the nonces.
pub record Draws : Type 0 where
  pub vault_key : Bytes
  pub wrap_nonce : Bytes
  pub item_nonce : Bytes
  pub totp_nonce : Bytes

abbrev pub Sized : Draws → Type 0
Sized d =
    (length d.vault_key ≡ vault_key_size_bytes)
    × (length d.wrap_nonce ≡ nonce_size_bytes)
    × (length d.item_nonce ≡ nonce_size_bytes)
    × (length d.totp_nonce ≡ nonce_size_bytes)

-- What the server keeps.
pub record Stored : Type 0 where
  pub wrapped_key : Bytes
  pub sealed_item : Bytes
  pub sealed_totp : Bytes

module _ (p : Primitives) (encode : Bytes → Bytes) (json : ItemJson) where
  -- The key that wraps the vault key, from what the user types.
  abbrev pub enc_key_of : Bytes → Bytes → Bytes → Outcome Bytes
  enc_key_of password email kdf = do
    master ← js_derive_master_key p encode password email kdf
    keys ← js_stretch_master_key p encode master
    returns keys.0

  abbrev pub first_device : Draws → Bytes → Bytes → Bytes → Bytes → Bytes → Outcome Stored
  first_device d password email kdf item_json secret = do
    enc_key ← enc_key_of password email kdf
    vault_key ← js_new_vault_key p encode (some d.vault_key)
    wrapped ← js_wrap_vault_key p encode (some d.wrap_nonce) vault_key enc_key
    sealed ← js_seal_item p encode json (some d.item_nonce) item_json vault_key
    totp ← js_wrap_totp_secret p encode (some d.totp_nonce) secret vault_key
    returns (record { wrapped_key = wrapped; sealed_item = sealed; sealed_totp = totp })

  -- The item and the TOTP secret.
  abbrev pub second_device : Bytes → Bytes → Bytes → Stored → Outcome (Bytes × Bytes)
  second_device password email kdf stored = do
    enc_key ← enc_key_of password email kdf
    vault_key ← js_unwrap_vault_key p encode stored.wrapped_key enc_key
    item ← js_open_item p json stored.sealed_item vault_key
    secret ← js_unwrap_totp_secret p stored.sealed_totp vault_key
    returns (item, secret)

  module _ (sound : Sound p encode json) where
    enc_key_of-returns :
        (password email kdf : Bytes) (params : KdfParams)
        → is_empty password ≡ false
        → is_empty (normalize_email p email) ≡ false
        → p.kdf_of_json kdf ≡ some params
        → validate params ≡ ok tt
        → (key : Bytes) × (enc_key_of password email kdf ≡ returns (encode key))
          × (length key ≡ key_size)
    enc_key_of-returns password email kdf params pw em parsed valid =
        let (master, derived, size) =
          js_derive_master_key-returns p encode json sound password email kdf params pw em parsed
            valid in
        let (enc, mac, stretched, enc_size) =
          js_stretch_master_key-returns p encode json sound master size in
        (enc, rw (derived, stretched) refl, enc_size)

-- A second device opens what the first one stored. Given a password, an e-mail that is not blank, valid
-- KDF parameters and random bytes of the drawn sizes, the first device succeeds. Then the second one,
-- with the same password and parameters and the e-mail in any spelling that normalises alike, gets back
-- the item and the TOTP secret. The cipher opens what it sealed, the encodings read back what they wrote,
-- and Argon2id and HKDF give as many bytes as are asked for.
pub second_device-first_device :
    (p : Primitives) (encode : Bytes → Bytes) (json : ItemJson) (d : Draws)
    (password email email' kdf secret : Bytes) (params : KdfParams) (item : Item)
    → Sound p encode json
    → Sized d
    → is_empty password ≡ false
    → is_empty (normalize_email p email) ≡ false
    → normalize_email p email' ≡ normalize_email p email
    → p.kdf_of_json kdf ≡ some params
    → validate params ≡ ok tt
    → (first_device p encode json d password email kdf (json.marshal item) secret >>= λ stored.
        second_device p encode json password email' kdf stored)
      ≡ returns (json.marshal item, secret)
unfolding js_new_vault_key js_derive_master_key
second_device-first_device p encode json d password email email' kdf secret params item sound
      (vault_size, wrap_size, item_size, totp_size) pw em same parsed valid =
    let (key, derived, key_sized) =
      enc_key_of-returns p encode json sound password email kdf params pw em parsed valid in
    let again : enc_key_of p encode json password email' kdf ≡ returns (encode key) =
      cc (derived, same) in
    let wrapped = wraps p encode json sound d.wrap_nonce key wrap_size key_sized d.vault_key in
    let sealed_item =
      seals_item p encode json sound d.item_nonce d.vault_key item_size vault_size item in
    let sealed_totp =
      wraps_totp p encode json sound d.totp_nonce d.vault_key totp_size vault_size secret in
    rw
      (
        derived, wrapped.0, sealed_item.0, sealed_totp.0, again, wrapped.1, sealed_item.1,
        sealed_totp.1,
      )
      refl
