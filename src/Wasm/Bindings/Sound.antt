-- ===== src/Wasm/Bindings/Sound.antt =====
-- The functions of cmd/wasm/main.go give what was put in: derivation, wrapping and sealing, if the
-- libraries that they call do what is documented.
use go_vault.Prelude.{ℕ, suc, ◌∷◌, ◌<◌, ◌≡◌, refl, false, [], some, arith, Bytes, length}
use go_vault.Errors.{ok}
use go_vault.Primitives.{Primitives, KdfParams}
use go_vault.Crypto.Kdf.{
  is_empty, validate, derive_master_key, stretch_master_key, hkdf_expand, hkdf_info_enc,
  hkdf_info_mac, master_key_size_bytes,
}
use go_vault.Crypto.Aead.{nonce_size_bytes, key_size, wrap_key, unwrap_key, seal, open_blob}
use go_vault.Crypto.Aead.RoundTrip.{OpensItsSeals, ReadsBack, blob, seal-blob, open_blob-blob}
use go_vault.Crypto.Item.{
  Item, ItemJson, encrypt_item, decrypt_item, wrap_totp_secret, unwrap_totp_secret, totp_aad,
}
use go_vault.Crypto.Text.{normalize_email}
use go_vault.Wasm.Outcome.{returns}
use go_vault.Wasm.Bindings.{
  js_derive_master_key, js_stretch_master_key, js_wrap_vault_key, js_unwrap_vault_key, js_seal_item,
  js_open_item, js_wrap_totp_secret, js_unwrap_totp_secret,
}

-- What the encodings and the functions of x/crypto are relied on for.
pub record Sound (p : Primitives) (encode : Bytes → Bytes) (json : ItemJson) : Type 0 where
  pub opens : OpensItsSeals p
  pub reads : ReadsBack json
  pub decodes : (b : Bytes) → p.base64_decode (encode b) ≡ some b
  -- argon2.IDKey and HKDF give as many bytes as are asked for, HKDF up to 255 blocks of 32 bytes.
  pub argon2id-length : (pw salt : Bytes) (i m t n : ℕ) → length (p.argon2id pw salt i m t n) ≡ n
  pub hkdf-length :
      (secret info : Bytes) (n : ℕ)
      → n < 8161
      → (out : Bytes) × (p.hkdf_expand secret info n ≡ some out) × (length out ≡ n)

nonempty_of_length : (b : Bytes) (n : ℕ) → length b ≡ suc n → is_empty b ≡ false
nonempty_of_length [] n h = absurd (omega arith)
nonempty_of_length (x ∷ b) n h = refl

module _ (p : Primitives) (encode : Bytes → Bytes) (json : ItemJson)
    (sound : Sound p encode json) where
  pub js_derive_master_key-returns :
      (password email kdf : Bytes) (params : KdfParams)
      → is_empty password ≡ false
      → is_empty (normalize_email p email) ≡ false
      → p.kdf_of_json kdf ≡ some params
      → validate params ≡ ok tt
      → (master : Bytes) × (js_derive_master_key p encode password email kdf
          ≡ returns (encode master))
        × (length master ≡ master_key_size_bytes)
  unfolding js_derive_master_key derive_master_key
  js_derive_master_key-returns password email kdf params pw em parsed valid = (
    p.argon2id password (normalize_email p email) params.iterations params.memory_kib
        params.parallelism master_key_size_bytes,
    ground (arith, parsed, pw, em, valid),
    sound.argon2id-length _ _ _ _ _ _,
  )

  pub js_stretch_master_key-returns :
      (master : Bytes)
      → length master ≡ master_key_size_bytes
      → (enc mac : Bytes) × (js_stretch_master_key p encode (encode master)
          ≡ returns (encode enc, encode mac))
        × (length enc ≡ key_size)
  unfolding js_stretch_master_key stretch_master_key hkdf_expand
  js_stretch_master_key-returns master sized =
      let (enc, has_enc, enc_size) = sound.hkdf-length master hkdf_info_enc 32 (omega arith) in
      let (mac, has_mac, mac_size) = sound.hkdf-length master hkdf_info_mac 32 (omega arith) in
      (
        enc,
        mac,
        ground (arith, sound.decodes master, nonempty_of_length master 31 sized, has_enc, has_mac),
        enc_size,
      )

  module _ (nonce key : Bytes) (drawn : length nonce ≡ nonce_size_bytes)
      (sized : length key ≡ key_size) where
    abbrev sealed : Bytes → Bytes → Bytes
    sealed text aad = blob p sound.opens nonce key drawn sized text aad

    seals : (text aad : Bytes) → seal p (some nonce) key text aad ≡ ok (sealed text aad)
    seals text aad = seal-blob p sound.opens nonce key drawn sized text aad

    opens : (text aad : Bytes) → open_blob p key (sealed text aad) aad ≡ ok text
    opens text aad = open_blob-blob p sound.opens nonce key drawn sized text aad

    pub wraps :
        (vault_key : Bytes)
        → (js_wrap_vault_key p encode (some nonce) (encode vault_key) (encode key)
            ≡ returns (encode (sealed vault_key [])))
          × (js_unwrap_vault_key p encode (encode (sealed vault_key [])) (encode key)
              ≡ returns (encode vault_key))
    unfolding js_wrap_vault_key js_unwrap_vault_key wrap_key unwrap_key
    wraps vault_key = (
      rw (sound.decodes vault_key, sound.decodes key, seals vault_key []) refl,
      rw (sound.decodes (sealed vault_key []), sound.decodes key, opens vault_key []) refl,
    )

    pub seals_item :
        (item : Item)
        → (js_seal_item p encode json (some nonce) (json.marshal item) (encode key)
            ≡ returns (encode (sealed (json.marshal item) [])))
          × (js_open_item p json (encode (sealed (json.marshal item) [])) (encode key)
              ≡ returns (json.marshal item))
    unfolding js_seal_item js_open_item encrypt_item decrypt_item
    seals_item item =
        let text : Bytes = json.marshal item in
        (
          rw (sound.reads item, sound.decodes key, seals text []) refl,
          rw (sound.decodes (sealed text []), sound.decodes key, opens text [], sound.reads item)
              refl,
        )

    pub wraps_totp :
        (secret : Bytes)
        → (js_wrap_totp_secret p encode (some nonce) secret (encode key)
            ≡ returns (encode (sealed secret totp_aad)))
          × (js_unwrap_totp_secret p (encode (sealed secret totp_aad)) (encode key)
              ≡ returns secret)
    unfolding js_wrap_totp_secret js_unwrap_totp_secret wrap_totp_secret unwrap_totp_secret
    wraps_totp secret = (
      rw (sound.decodes key, seals secret totp_aad) refl,
      rw (sound.decodes (sealed secret totp_aad), sound.decodes key, opens secret totp_aad) refl,
    )
