-- ===== src/Mfa.antt =====
-- internal/mfa/totp.go: TOTP checks and recovery codes.
use go_vault.Prelude.{
  ℕ, zero, suc, Bool, false, ◌||◌, List, [], ◌∷◌, ◌++◌, map, if◌then◌else◌, Bytes, bytes_eq, take,
  drop,
}
use go_vault.Primitives.{Primitives, hex_encode}
use go_vault.Storage.Db.{Query, ◌>>=◌, pure, random_bytes}
use go_vault.Crypto.Kdf.{is_empty}
use go_vault.Crypto.Text.{trim_space, upper, remove_dashes}

abbrev pub recovery_code_count : ℕ
recovery_code_count = 10

module _ (p : Primitives) where
  -- The time is that of `totp.Validate`'s clock reading.
  unfoldable pub validate_totp : ℕ → Bytes → Bytes → Bool
  unfolding trim_space upper
  validate_totp now secret code =
      let secret' = trim_space p (upper p secret) in
      let code' = trim_space p code in
      if is_empty secret' || is_empty code'
      then false
      else if p.base32_decodes secret' || p.base32_raw_decodes secret'
      then p.totp_validate code' secret' now
      else false

  unfoldable pub hash_recovery_code : Bytes → Bytes
  unfolding trim_space upper remove_dashes
  hash_recovery_code code = p.sha256 (upper p (remove_dashes (trim_space p code)))

  -- The comparison takes constant time, which a value does not show.
  unfoldable pub verify_recovery_code : Bytes → Bytes → Bool
  unfolding hash_recovery_code
  verify_recovery_code code stored_hash = bytes_eq (hash_recovery_code code) stored_hash

  -- Four random bytes as XXXX-XXXX.
  abbrev pub format_code : Bytes → Bytes
  format_code b = let raw = upper p (hex_encode b) in take 4 raw ++ b'-' ∷ drop 4 raw

  unfoldable pub random_recovery_code : Query Bytes
  unfolding random_bytes upper hex_encode
  random_recovery_code = do b ← random_bytes 4; pure (format_code b)

  unfoldable pub draw_codes : ℕ → Query (List Bytes)
  unfolding random_recovery_code
  draw_codes zero = pure []
  draw_codes (suc n) = do c ← random_recovery_code; cs ← draw_codes n; pure (c ∷ cs)

  -- The codes and their hashes.
  unfoldable pub generate_recovery_codes : Query (List Bytes × List Bytes)
  unfolding draw_codes hash_recovery_code
  generate_recovery_codes = do
    codes ← draw_codes recovery_code_count
    pure (codes, map hash_recovery_code codes)
