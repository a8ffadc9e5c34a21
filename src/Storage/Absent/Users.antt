-- ===== src/Storage/Absent/Users.antt =====
-- The statements on the table users, where a user is absent.
use go_vault.Prelude.{ℕ, refl, true, false, not, none, some, arith, Bytes, ◌==◌}
use go_vault.Storage.Db.{User, statement, random_bytes}
use go_vault.Storage.Users.{create_user, update_user_auth_credentials, delete_user_rows}
use go_vault.Storage.Mfa
use go_vault.Storage.Keeps.{Keeps}
use go_vault.Storage.Absent.{IsAbsent, absent_append, absent_update, absent_filter}

module _ (id : ℕ) where
  pub statement-IsAbsent : Keeps (IsAbsent id) statement
  unfolding statement
  statement-IsAbsent = record { at = λ db h. record { given = h.given; absent = h.absent } }

  pub random_bytes-IsAbsent : (size : ℕ) → Keeps (IsAbsent id) (random_bytes size)
  unfolding random_bytes
  random_bytes-IsAbsent size = record { at = λ db h. ground (arith, h.given, h.absent) }

  pub create_user-IsAbsent :
      (email kdf hash salt key : Bytes) → Keeps (IsAbsent id) (create_user email kdf hash salt key)
  unfolding create_user
  create_user-IsAbsent email kdf hash salt key = record {
    at = λ db h.
        let row : User = record {
          id = db.next_id;
          email = email;
          kdf_params = kdf;
          auth_hash = hash;
          auth_hash_salt = salt;
          protected_symmetric_key = key;
          totp_enabled = false;
          protected_totp_secret = none;
          created_at = db.now;
        } in
        ground (arith, h.given, h.absent, absent_append id db.users row h.given h.absent);
  }

  pub update_user-IsAbsent :
      (k : ℕ) (hash salt kdf key : Bytes)
      → Keeps (IsAbsent id) (update_user_auth_credentials k hash salt kdf key)
  unfolding update_user_auth_credentials
  update_user-IsAbsent k hash salt kdf key = record {
    at = λ db h.
        let f : User → User = λ u. record u {
          auth_hash = hash;
          auth_hash_salt = salt;
          kdf_params = kdf;
          protected_symmetric_key = key;
        } in
        ground (arith, h.given, h.absent, absent_update id k f (λ u. refl) db.users);
  }

  pub delete_user-IsAbsent : (k : ℕ) → Keeps (IsAbsent id) (delete_user_rows k)
  unfolding delete_user_rows
  delete_user-IsAbsent k = record {
    at =
        λ db h. ground (arith, h.given, h.absent, absent_filter id (λ u. not (u.id == k)) db.users);
  }

  pub enable_totp-IsAbsent :
      (k : ℕ) (secret : Bytes) → Keeps (IsAbsent id) (Mfa.enable_user_totp k secret)
  unfolding Mfa.enable_user_totp
  enable_totp-IsAbsent k secret = record {
    at = λ db h.
        let f : User → User =
          λ u. record u { totp_enabled = true; protected_totp_secret = some secret } in
        ground (arith, h.given, h.absent, absent_update id k f (λ u. refl) db.users);
  }

  pub disable_totp-IsAbsent : (k : ℕ) → Keeps (IsAbsent id) (Mfa.disable_user_totp k)
  unfolding Mfa.disable_user_totp
  disable_totp-IsAbsent k = record {
    at = λ db h.
        let f : User → User =
          λ u. record u { totp_enabled = false; protected_totp_secret = none } in
        ground (arith, h.given, h.absent, absent_update id k f (λ u. refl) db.users);
  }
