-- ===== src/Crypto/Aead/RoundTrip.antt =====
-- What is sealed can be opened, internal/crypto/aead.go, item.go and totp_wrap.go, if the cipher opens
-- what it sealed.
use go_vault.Prelude.{
  ℕ, zero, suc, ◌≡◌, refl, [], ◌∷◌, ◌++◌, some, arith, Bytes, take, drop, length, length-append, ap,
}
use go_vault.Errors.{ok, ◌>>=◌}
use go_vault.Primitives.{Primitives}
use go_vault.Crypto.Aead.{nonce_size_bytes, key_size, seal, open_blob, wrap_key, unwrap_key}
use go_vault.Crypto.Item.{
  totp_aad, Item, ItemJson, encrypt_item, decrypt_item, wrap_totp_secret, unwrap_totp_secret,
}

-- cipher.AEAD: Open of what Seal made, under the same key, nonce and additional data, is the text.
abbrev pub OpensItsSeals : Primitives → Type 0
OpensItsSeals p =
    (key nonce text aad : Bytes)
    → p.aead_open key nonce (p.aead_seal key nonce text aad) aad ≡ some text

-- json.Unmarshal: it reads back what Marshal wrote.
abbrev pub ReadsBack : ItemJson → Type 0
ReadsBack json = (item : Item) → json.unmarshal (json.marshal item) ≡ some item

take-append : (xs ys : Bytes) (n : ℕ) → length xs ≡ n → take n (xs ++ ys) ≡ xs
take-append [] ys zero h = refl
take-append [] ys (suc n) h = cc
take-append (x ∷ xs) ys zero h = cc
take-append (x ∷ xs) ys (suc n) h = ap (λ t. x ∷ t) (take-append xs ys n (omega arith))

drop-append : (xs ys : Bytes) (n : ℕ) → length xs ≡ n → drop n (xs ++ ys) ≡ ys
drop-append [] ys zero h = refl
drop-append [] ys (suc n) h = cc
drop-append (x ∷ xs) ys zero h = cc
drop-append (x ∷ xs) ys (suc n) h = drop-append xs ys n (omega arith)

module _ (p : Primitives) (opens : OpensItsSeals p) (nonce key : Bytes)
    (drawn : length nonce ≡ nonce_size_bytes) (sized : length key ≡ key_size) where
  -- The blob that `seal` makes.
  abbrev pub blob : Bytes → Bytes → Bytes
  blob text aad = nonce ++ p.aead_seal key nonce text aad

  pub seal-blob : (text aad : Bytes) → seal p (some nonce) key text aad ≡ ok (blob text aad)
  unfolding seal
  seal-blob text aad = ground arith

  pub open_blob-blob : (text aad : Bytes) → open_blob p key (blob text aad) aad ≡ ok text
  unfolding open_blob
  open_blob-blob text aad =
      let sealed : Bytes = p.aead_seal key nonce text aad in
      ground (
        arith,
        take-append nonce sealed nonce_size_bytes drawn,
        drop-append nonce sealed nonce_size_bytes drawn,
        length-append nonce sealed,
        opens key nonce text aad,
      )

  open-seal :
      (text aad : Bytes)
      → (seal p (some nonce) key text aad >>= λ blob. open_blob p key blob aad) ≡ ok text
  open-seal text aad = rw (seal-blob text aad) (open_blob-blob text aad)

-- With a key of 32 bytes and a nonce of 24 drawn, sealing succeeds and what was sealed is opened by the
-- same key: a wrapped vault key, a wrapped TOTP secret and an encrypted item all come back. The cipher
-- opens what it sealed, and JSON reads back the item that it wrote.
pub seals_open :
    (p : Primitives) (json : ItemJson) (nonce key vault_key secret aad : Bytes) (item : Item)
    → OpensItsSeals p
    → ReadsBack json
    → length nonce ≡ nonce_size_bytes
    → length key ≡ key_size
    → ((wrap_key p (some nonce) key vault_key aad >>= λ blob. unwrap_key p key blob aad)
        ≡ ok vault_key)
      × ((wrap_totp_secret p (some nonce) key secret >>= λ blob. unwrap_totp_secret p key blob)
          ≡ ok secret)
      × ((encrypt_item p json (some nonce) key (some item) aad >>= λ blob.
            decrypt_item p json key blob aad)
          ≡ ok item)
unfolding wrap_key unwrap_key wrap_totp_secret unwrap_totp_secret encrypt_item decrypt_item
seals_open p json nonce key vault_key secret aad item opens reads drawn sized = (
  open-seal p opens nonce key drawn sized vault_key aad,
  open-seal p opens nonce key drawn sized secret totp_aad,
  ground (arith, open-seal p opens nonce key drawn sized (json.marshal item) aad, reads item),
)
