-- ===== src/Crypto/Aead.antt =====
-- internal/crypto/aead.go: blobs of a nonce, a ciphertext and a tag. The nonce of `seal` is the
-- random bytes that it drew.
pub mod RoundTrip
use go_vault.Prelude.{
  ℕ, not, ◌++◌, Option, none, some, if◌then◌else◌, Bytes, ◌==◌, ltb, length, take, drop,
}
use go_vault.Errors.{
  Error, invalid_key_size, ciphertext_too_short, open_failed, no_entropy, Result, ok, err, ◌>>=◌,
  ◌>>◌,
}
use go_vault.Primitives.{Primitives}
use go_vault.Crypto.Kdf.{unless}

-- chacha20poly1305.NonceSizeX and KeySize
abbrev pub nonce_size_bytes : ℕ
nonce_size_bytes = 24

abbrev pub key_size : ℕ
key_size = 32

unfoldable pub new_aead : Bytes → Result (Unit {0})
new_aead key = unless (not (length key == key_size)) invalid_key_size

-- What `rand.Read` gave.
abbrev pub drawn : Option Bytes → Result Bytes
drawn none = err no_entropy
drawn (some b) = ok b

abbrev pub or_open_failed : Option Bytes → Result Bytes
or_open_failed none = err open_failed
or_open_failed (some b) = ok b

module _ (p : Primitives) where
  unfoldable pub seal : Option Bytes → Bytes → Bytes → Bytes → Result Bytes
  unfolding new_aead
  seal random key plaintext aad = do
    new_aead key
    nonce ← drawn random
    ok (nonce ++ p.aead_seal key nonce plaintext aad)

  unfoldable pub open_blob : Bytes → Bytes → Bytes → Result Bytes
  unfolding new_aead
  open_blob key blob aad = do
    new_aead key
    unless (ltb (length blob) nonce_size_bytes) ciphertext_too_short
    or_open_failed (p.aead_open key (take nonce_size_bytes blob) (drop nonce_size_bytes blob) aad)

  unfoldable pub wrap_key : Option Bytes → Bytes → Bytes → Bytes → Result Bytes
  unfolding seal
  wrap_key random wrapping_key vault_key aad = seal random wrapping_key vault_key aad

  unfoldable pub unwrap_key : Bytes → Bytes → Bytes → Result Bytes
  unfolding open_blob
  unwrap_key wrapping_key protected_key aad = open_blob wrapping_key protected_key aad
