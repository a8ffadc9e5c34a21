-- ===== src/Storage/Absent.antt =====
-- A user id that was given out and that no user has: no statement of internal/storage/sqlcgen brings it
-- back, since gen_random_uuid() does not repeat its values.
pub mod Users
pub mod Rows
pub mod Mfa
pub mod Closed
use go_vault.Prelude.{
  ℕ, suc, ◌<◌, ◌≡◌, refl, Bool, true, false, not, List, [], ◌∷◌, ◌++◌, Option, none, some, arith,
  Bytes, ◌==◌, ==_iff, find, filter, update_where,
}
use go_vault.Errors.{Error, Result, ok, err}
use go_vault.Storage.Db.{
  User, EventType, Metadata, Db, Query, ◌>>◌, statement, random_bytes, user_exists,
}
use go_vault.Storage.Users.{create_user, update_user_auth_credentials, delete_user_rows}
use go_vault.Storage.Sessions.{
  create_session_pair, rotate_session_tokens, delete_session_by_access_hash,
  delete_all_sessions_for_user,
}
use go_vault.Storage.Items.{create_item, update_item, delete_item}
use go_vault.Storage.Audit.{append_audit_event, insert_device_hash}
use go_vault.Storage.Keeps.{Keeps, kept_then, kept_pure}

pub record IsAbsent (id : ℕ) (db : Db) : Type 0 where
  pub given : id < db.next_id
  pub absent : user_exists db.users id ≡ false

pub absent_append :
    (id : ℕ) (users : List User) (u : User)
    → id < u.id
    → user_exists users id ≡ false
    → user_exists (users ++ u ∷ []) id ≡ false
absent_append id [] u h e = ground (arith, ==_iff u.id id)
absent_append id (v ∷ users) u h e = ground (arith, absent_append id users u h)

pub absent_update :
    (id k : ℕ) (f : User → User) (keeps : (u : User) → (f u).id ≡ u.id) (users : List User)
    → user_exists users id ≡ false
    → user_exists (update_where (λ u. u.id == k) f users) id ≡ false
absent_update id k f keeps [] e = e
absent_update id k f keeps (v ∷ users) e = ground (arith, keeps v, absent_update id k f keeps users)

pub absent_filter :
    (id : ℕ) (p : User → Bool) (users : List User)
    → user_exists users id ≡ false
    → user_exists (filter p users) id ≡ false
absent_filter id p [] e = e
absent_filter id p (v ∷ users) e = ground (arith, absent_filter id p users)
