-- ===== src/Storage/Users.antt =====
-- internal/storage/users.go over internal/storage/sqlcgen/users.sql.go. The struct User and the row
-- that it is copied from have the same fields, and are one record here.
use go_vault.Prelude.{
  ℕ, Bool, true, false, not, List, [], ◌∷◌, ◌++◌, Option, none, some, if◌then◌else◌, Bytes, ◌==◌,
  bytes_eq, find, filter, update_where, length,
}
use go_vault.Errors.{not_found, unique_violation}
use go_vault.Storage.Db.{
  User, AuditEvent, Db, Query, ◌>>=◌, ◌>>◌, pure, fail, gets, one, modify, guard, statement,
  or_not_found, fresh_id,
}

-- The queries.

abbrev pub user_by_id : ℕ → List User → Option User
user_by_id id = find (λ u. u.id == id)

abbrev pub user_by_email : Bytes → List User → Option User
user_by_email email = find (λ u. bytes_eq u.email email)

unfoldable pub get_user_by_id : ℕ → Query User
unfolding statement
get_user_by_id id = do statement; row ← gets (λ db. user_by_id id db.users); one row

unfoldable pub get_user_by_email : Bytes → Query User
unfolding statement
get_user_by_email email = do statement; row ← gets (λ db. user_by_email email db.users); one row

abbrev pub is_free : Option User → Bool
is_free none = true
is_free (some u) = false

-- The column `email` is UNIQUE.
unfoldable pub create_user : Bytes → Bytes → Bytes → Bytes → Bytes → Query User
unfolding statement
create_user email kdf_params auth_hash auth_hash_salt protected_symmetric_key = do
  statement
  row ← gets (λ db. user_by_email email db.users)
  guard (is_free row) unique_violation
  id ← fresh_id
  now ← gets (λ db. db.now)
  let user = new_user id email kdf_params auth_hash auth_hash_salt protected_symmetric_key now
  modify (λ db. record db { users = db.users ++ user ∷ [] })
  pure user
  where
    new_user : ℕ → Bytes → Bytes → Bytes → Bytes → Bytes → ℕ → User
    new_user id email kdf_params auth_hash auth_hash_salt protected_symmetric_key now = record {
      id = id;
      email = email;
      kdf_params = kdf_params;
      auth_hash = auth_hash;
      auth_hash_salt = auth_hash_salt;
      protected_symmetric_key = protected_symmetric_key;
      totp_enabled = false;
      protected_totp_secret = none;
      created_at = now;
    }

-- UPDATE users SET … WHERE id = $1
abbrev pub change_user : ℕ → (User → User) → Query User
change_user id f = do
  row ← gets (λ db. user_by_id id db.users)
  user ← one row
  modify (λ db. record db { users = update_where (λ u. u.id == id) f db.users })
  pure (f user)

unfoldable pub update_user_protected_key : ℕ → Bytes → Query User
unfolding statement
update_user_protected_key id new_key = do
  statement
  change_user id (λ u. record u { protected_symmetric_key = new_key })

unfoldable pub update_user_auth_credentials : ℕ → Bytes → Bytes → Bytes → Bytes → Query User
unfolding statement
update_user_auth_credentials id auth_hash auth_hash_salt kdf_params key = do
  statement
  change_user id (λ u. record u {
    auth_hash = auth_hash;
    auth_hash_salt = auth_hash_salt;
    kdf_params = kdf_params;
    protected_symmetric_key = key;
  })

abbrev pub forget_user : ℕ → AuditEvent → AuditEvent
forget_user id ev = record ev {
  user_id = elim ev.user_id [ none ↦ none | some uid ↦ if uid == id then none else some uid ];
}

-- ON DELETE CASCADE on every table but audit_events, which has ON DELETE SET NULL.
abbrev pub cascade : ℕ → Db → Db
cascade id db = record db {
  users = filter (λ u. not (u.id == id)) db.users;
  sessions = filter (λ s. not (s.user_id == id)) db.sessions;
  items = filter (λ i. not (i.user_id == id)) db.items;
  recovery_codes = filter (λ c. not (c.user_id == id)) db.recovery_codes;
  challenges = filter (λ c. not (c.user_id == id)) db.challenges;
  devices = filter (λ d. not (d.user_id == id)) db.devices;
  audit_events = update_where (λ ev. true) (forget_user id) db.audit_events;
}

unfoldable pub delete_user_rows : ℕ → Query ℕ
unfolding statement
delete_user_rows id = do
  statement
  n ← gets (λ db. length (filter (λ u. u.id == id) db.users))
  modify (cascade id)
  pure n

-- The repository.

unfoldable pub get_by_id : ℕ → Query User
unfolding get_user_by_id
get_by_id id = or_not_found (get_user_by_id id)

unfoldable pub get_by_email : Bytes → Query User
unfolding get_user_by_email
get_by_email email = or_not_found (get_user_by_email email)

unfoldable pub create : Bytes → Bytes → Bytes → Bytes → Bytes → Query User
unfolding create_user
create email kdf_params auth_hash auth_hash_salt protected_symmetric_key =
    create_user email kdf_params auth_hash auth_hash_salt protected_symmetric_key

unfoldable pub update_protected_key : ℕ → Bytes → Query User
unfolding update_user_protected_key
update_protected_key id new_key = or_not_found (update_user_protected_key id new_key)

unfoldable pub update_auth_credentials : ℕ → Bytes → Bytes → Bytes → Bytes → Query User
unfolding update_user_auth_credentials
update_auth_credentials id new_auth_hash new_auth_hash_salt new_kdf_params new_protected_key =
    or_not_found (
      update_user_auth_credentials id new_auth_hash new_auth_hash_salt new_kdf_params
        new_protected_key)

unfoldable pub delete_user : ℕ → Query (Unit {0})
unfolding delete_user_rows
delete_user id = do n ← delete_user_rows id; if n == 0 then fail not_found else pure tt
