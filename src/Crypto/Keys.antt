-- ===== src/Crypto/Keys.antt =====
-- internal/crypto/keys.go: the auth hashes and the random keys and salts.
use go_vault.Prelude.{ℕ, ◌*◌, Bytes, codes}
use go_vault.Errors.{
  empty_master_key, empty_password, empty_auth_hash, empty_salt, Result, ok, ◌>>◌,
}
use go_vault.Primitives.{Primitives, KdfParams}
use go_vault.Storage.Db.{Query, random_bytes}
use go_vault.Crypto.Kdf.{argon2_version, is_empty, unless, validate}

abbrev pub vault_key_size_bytes : ℕ
vault_key_size_bytes = 32

abbrev pub auth_hash_size_bytes : ℕ
auth_hash_size_bytes = 32

abbrev pub server_salt_size_bytes : ℕ
server_salt_size_bytes = 16

abbrev pub default_server_auth_params : KdfParams
default_server_auth_params = record {
  type = codes "argon2id";
  version = argon2_version;
  memory_kib = 19 * 1024;
  iterations = 2;
  parallelism = 1;
}

module _ (p : Primitives) where
  unfoldable pub derive_auth_hash : Bytes → Bytes → KdfParams → Result Bytes
  unfolding validate
  derive_auth_hash master_key password params = do
    unless (is_empty master_key) empty_master_key
    unless (is_empty password) empty_password
    validate params
    ok (
        p.argon2id master_key password params.iterations params.memory_kib params.parallelism
          auth_hash_size_bytes)

  unfoldable pub derive_server_auth_hash : Bytes → Bytes → KdfParams → Result Bytes
  unfolding validate
  derive_server_auth_hash client_auth_hash salt params = do
    unless (is_empty client_auth_hash) empty_auth_hash
    unless (is_empty salt) empty_salt
    validate params
    ok (
        p.argon2id client_auth_hash salt params.iterations params.memory_kib params.parallelism
          auth_hash_size_bytes)

unfoldable pub new_vault_key : Query Bytes
unfolding random_bytes
new_vault_key = random_bytes vault_key_size_bytes

unfoldable pub new_server_salt : Query Bytes
unfolding random_bytes
new_server_salt = random_bytes server_salt_size_bytes
