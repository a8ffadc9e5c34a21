-- ===== src/Storage/Sessions.antt =====
-- internal/storage/sessions.go over internal/storage/sqlcgen/sessions.sql.go. The struct Session and
-- its row are one record.
pub mod Unique
pub mod Rotate
use go_vault.Prelude.{
  ℕ, suc, Bool, true, false, not, ◌&&◌, ◌||◌, List, [], ◌∷◌, ◌++◌, Option, none, some,
  if◌then◌else◌, Bytes, ◌==◌, bytes_eq, find, filter, update_where, ℤ,
}
use go_vault.Errors.{unique_violation, foreign_key_violation}
use go_vault.Storage.Db.{
  Session, Db, Query, ◌>>=◌, ◌>>◌, pure, gets, one, modify, guard, statement, or_not_found,
  fresh_id, user_exists,
}

abbrev pub by_access : Bytes → List Session → Option Session
by_access hash = find (λ s. bytes_eq s.access_token_hash hash)

abbrev pub by_refresh : Bytes → List Session → Option Session
by_refresh hash = find (λ s. bytes_eq s.refresh_token_hash hash)

abbrev pub by_id : ℕ → List Session → Option Session
by_id id = find (λ s. s.id == id)

-- Both hash columns are UNIQUE.
abbrev pub is_absent : Option Session → Bool
is_absent none = true
is_absent (some s) = false

abbrev pub both_free : Bytes → Bytes → List Session → Bool
both_free access refresh rows =
    is_absent (by_access access rows) && is_absent (by_refresh refresh rows)

abbrev pub tokens : Bytes → ℤ → Bytes → ℤ → Session → Session
tokens access access_expires refresh refresh_expires s = record s {
  access_token_hash = access;
  access_expires_at = access_expires;
  refresh_token_hash = refresh;
  refresh_expires_at = refresh_expires;
}

unfoldable pub create_session_pair : ℕ → Bytes → ℤ → Bytes → ℤ → Query Session
unfolding statement
create_session_pair user_id access access_expires refresh refresh_expires = do
  statement
  users ← gets (λ db. db.users)
  guard (user_exists users user_id) foreign_key_violation
  rows ← gets (λ db. db.sessions)
  guard (both_free access refresh rows) unique_violation
  id ← fresh_id
  now ← gets (λ db. db.now)
  let row = new_row id now
  modify (λ db. record db { sessions = db.sessions ++ row ∷ [] })
  pure row
  where
    new_row : ℕ → ℕ → Session
    new_row id now = record {
      id = id;
      user_id = user_id;
      access_token_hash = access;
      access_expires_at = access_expires;
      refresh_token_hash = refresh;
      refresh_expires_at = refresh_expires;
      created_at = now;
    }

unfoldable pub get_session_by_access_hash : Bytes → Query Session
unfolding statement
get_session_by_access_hash hash = do
  statement
  row ← gets (λ db. by_access hash db.sessions)
  one row

unfoldable pub get_session_by_refresh_hash : Bytes → Query Session
unfolding statement
get_session_by_refresh_hash hash = do
  statement
  row ← gets (λ db. by_refresh hash db.sessions)
  one row

-- A row may keep its own hashes; another row's are refused.
unfoldable pub rotate_session_tokens : ℕ → Bytes → ℤ → Bytes → ℤ → Query Session
unfolding statement
rotate_session_tokens id access access_expires refresh refresh_expires = do
  statement
  rows ← gets (λ db. db.sessions)
  s ← one (by_id id rows)
  guard (both_free access refresh (filter (λ r. not (r.id == id)) rows)) unique_violation
  modify (λ db. record db {
    sessions =
        update_where (λ r. r.id == id) (tokens access access_expires refresh refresh_expires)
          db.sessions;
  })
  pure (tokens access access_expires refresh refresh_expires s)

unfoldable pub delete_session_by_access_hash : Bytes → Query (Unit {0})
unfolding statement
delete_session_by_access_hash hash = do
  statement
  modify (λ db. record db {
    sessions = filter (λ s. not (bytes_eq s.access_token_hash hash)) db.sessions;
  })

unfoldable pub delete_session_by_refresh_hash : Bytes → Query (Unit {0})
unfolding statement
delete_session_by_refresh_hash hash = do
  statement
  modify (λ db. record db {
    sessions = filter (λ s. not (bytes_eq s.refresh_token_hash hash)) db.sessions;
  })

unfoldable pub delete_all_sessions_for_user : ℕ → Query (Unit {0})
unfolding statement
delete_all_sessions_for_user user_id = do
  statement
  modify (λ db. record db { sessions = filter (λ s. not (s.user_id == user_id)) db.sessions })

-- The repository.

unfoldable pub create_pair : ℕ → Bytes → ℤ → Bytes → ℤ → Query Session
unfolding create_session_pair
create_pair user_id access access_expires refresh refresh_expires =
    create_session_pair user_id access access_expires refresh refresh_expires

unfoldable pub get_by_access_hash : Bytes → Query Session
unfolding get_session_by_access_hash
get_by_access_hash hash = or_not_found (get_session_by_access_hash hash)

unfoldable pub get_by_refresh_hash : Bytes → Query Session
unfolding get_session_by_refresh_hash
get_by_refresh_hash hash = or_not_found (get_session_by_refresh_hash hash)

-- No mapNotFound: a row that is gone gives pgx.ErrNoRows.
unfoldable pub rotate_tokens : ℕ → Bytes → ℤ → Bytes → ℤ → Query Session
unfolding rotate_session_tokens
rotate_tokens id access access_expires refresh refresh_expires =
    rotate_session_tokens id access access_expires refresh refresh_expires

unfoldable pub delete_by_access_hash : Bytes → Query (Unit {0})
unfolding delete_session_by_access_hash
delete_by_access_hash hash = delete_session_by_access_hash hash

unfoldable pub delete_by_refresh_hash : Bytes → Query (Unit {0})
unfolding delete_session_by_refresh_hash
delete_by_refresh_hash hash = delete_session_by_refresh_hash hash

unfoldable pub delete_all_for_user : ℕ → Query (Unit {0})
unfolding delete_all_sessions_for_user
delete_all_for_user user_id = delete_all_sessions_for_user user_id
