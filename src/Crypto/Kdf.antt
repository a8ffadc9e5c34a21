-- ===== src/Crypto/Kdf.antt =====
-- internal/crypto/crypto.go: Argon2id for the master key, HKDF for its two subkeys.
use go_vault.Prelude.{
  ℕ, ◌*◌, Bool, true, false, ◌||◌, [], ◌∷◌, none, some, if◌then◌else◌, Bytes, codes, ◌==◌,
}
use go_vault.Errors.{
  Error, empty_password, empty_salt, empty_master_key, invalid_kdf_params, hkdf_failed, Result, ok,
  err, ◌>>=◌, ◌>>◌,
}
use go_vault.Primitives.{Primitives, KdfParams}

abbrev pub argon2_version : ℕ
argon2_version = 0x13

abbrev pub master_key_size_bytes : ℕ
master_key_size_bytes = 32

abbrev pub stretched_key_size_bytes : ℕ
stretched_key_size_bytes = 32

abbrev pub hkdf_info_enc : Bytes
hkdf_info_enc = codes "secure-vault:v1:enc"

abbrev pub hkdf_info_mac : Bytes
hkdf_info_mac = codes "secure-vault:v1:mac"

abbrev pub default_kdf_params : KdfParams
default_kdf_params = record {
  type = codes "argon2id";
  version = argon2_version;
  memory_kib = 64 * 1024;
  iterations = 3;
  parallelism = 1;
}

-- `len(b) == 0`
abbrev pub is_empty : Bytes → Bool
is_empty [] = true
is_empty (c ∷ cs) = false

abbrev pub unless : Bool → Error → Result (Unit {0})
unless c e = if c then err e else ok tt

unfoldable pub validate : KdfParams → Result (Unit {0})
validate params =
    unless (params.memory_kib == 0 || params.iterations == 0 || params.parallelism == 0)
      invalid_kdf_params

module _ (p : Primitives) where
  unfoldable pub derive_master_key : Bytes → Bytes → KdfParams → Result Bytes
  unfolding validate
  derive_master_key password salt params = do
    unless (is_empty password) empty_password
    unless (is_empty salt) empty_salt
    validate params
    ok (
        p.argon2id password salt params.iterations params.memory_kib params.parallelism
          master_key_size_bytes)

  -- hkdfExpand: reading past the limit of HKDF is the only failure.
  unfoldable pub hkdf_expand : Bytes → Bytes → ℕ → Result Bytes
  hkdf_expand secret info size = elim (p.hkdf_expand secret info size) [
    | none ↦ err hkdf_failed
    | some out ↦ ok out
  ]

  -- The encryption key and the MAC key.
  unfoldable pub stretch_master_key : Bytes → Result (Bytes × Bytes)
  unfolding hkdf_expand
  stretch_master_key master_key = do
    unless (is_empty master_key) empty_master_key
    enc_key ← hkdf_expand master_key hkdf_info_enc stretched_key_size_bytes
    mac_key ← hkdf_expand master_key hkdf_info_mac stretched_key_size_bytes
    ok (enc_key, mac_key)
