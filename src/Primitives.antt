-- ===== src/Primitives.antt =====
-- What the program takes from elsewhere, as parameters: hashes, key derivation, ciphers, encodings
-- and the tables of Unicode. The hexadecimal encoding is written out.
use go_vault.Prelude.{ℕ, ◌+◌, ◌-◌, ◌/◌, ◌%◌, Bool, [], ◌∷◌, Option, Bytes, ltb, if◌then◌else◌}

-- gen.KDFParams and crypto.KDFParams.
pub record KdfParams : Type 0 where
  pub type : Bytes
  pub version : ℕ
  pub memory_kib : ℕ
  pub iterations : ℕ
  pub parallelism : ℕ

pub record Primitives : Type 0 where
  -- crypto/sha256
  pub sha256 : Bytes → Bytes
  -- argon2.IDKey: password, salt, iterations, memory, parallelism, size
  pub argon2id : Bytes → Bytes → ℕ → ℕ → ℕ → ℕ → Bytes
  -- hkdf with SHA-256, no salt: secret, info, size
  pub hkdf_expand : Bytes → Bytes → ℕ → Option Bytes
  -- XChaCha20-Poly1305: key, nonce, text, additional data
  pub aead_seal : Bytes → Bytes → Bytes → Bytes → Bytes
  pub aead_open : Bytes → Bytes → Bytes → Bytes → Option Bytes
  -- base64.StdEncoding.DecodeString
  pub base64_decode : Bytes → Option Bytes
  -- base32 with and without padding: whether the text decodes
  pub base32_decodes : Bytes → Bool
  pub base32_raw_decodes : Bytes → Bool
  -- encoding/json on KdfParams
  pub kdf_to_json : KdfParams → Bytes
  pub kdf_of_json : Bytes → Option KdfParams
  -- the tables of package unicode
  pub to_lower : ℕ → ℕ
  pub to_upper : ℕ → ℕ
  pub is_space : ℕ → Bool
  -- totp.Validate: code, secret, time
  pub totp_validate : Bytes → Bytes → ℕ → Bool
  -- net.SplitHostPort, the host; net.ParseIP
  pub split_host_port : Bytes → Option Bytes
  pub parse_ip : Bytes → Option Bytes

-- encoding/hex
unfoldable pub hex_digit : ℕ → ℕ
hex_digit d = if ltb d 10 then b'0' + d else b'a' + (d - 10)

unfoldable pub hex_encode : Bytes → Bytes
unfolding hex_digit
hex_encode [] = []
hex_encode (b ∷ bs) = hex_digit (b / 16) ∷ hex_digit (b % 16) ∷ hex_encode bs
