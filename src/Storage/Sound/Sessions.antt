-- ===== src/Storage/Sound/Sessions.antt =====
-- The statements of internal/storage/sqlcgen/sessions.sql.go against the constraints of db/schema.sql.
use go_vault.Prelude.{
  ℕ, suc, ◌≡◌, refl, Bool, true, not, [], ◌∷◌, ◌++◌, arith, Bytes, ◌==◌, bytes_eq, filter,
  update_where, ℤ,
}
use go_vault.Storage.Db.{Session, Db, user_exists}
use go_vault.Storage.Sessions.{
  tokens, both_free, create_session_pair, rotate_session_tokens, delete_session_by_access_hash,
  delete_all_sessions_for_user,
}
use go_vault.Storage.Sessions.Unique.{Distinct-update_column}
use go_vault.Storage.Keeps.{Keeps}
use go_vault.Storage.Rows.{Distinct-append, Distinct-filter, swap_bytes}
use go_vault.Storage.Sound.{
  table_append, table_filter, table_update, same_access, same_refresh, IsSound,
}
use go_vault.Storage.Sound.Changes.{with_sessions}
use go_vault.Storage.Sound.Statements.{same}

filters_sessions :
    (db : Db) (queries : ℕ) (p : Session → Bool)
    → IsSound db
    → IsSound (record db { sessions = filter p db.sessions; queries = queries })
filters_sessions db queries p s =
    with_sessions db queries db.next_id (omega arith) s (filter p db.sessions)
      (table_filter db.users p (λ x e h. h) s.sessions)
      (Distinct-filter same_access (λ u v h. swap_bytes _ _ h) p db.sessions s.access)
      (Distinct-filter same_refresh (λ u v h. swap_bytes _ _ h) p db.sessions s.refresh)

adds_session :
    (db : Db) (queries : ℕ) (x : Session)
    → x.id ≡ db.next_id
    → user_exists db.users x.user_id ≡ true
    → both_free x.access_token_hash x.refresh_token_hash db.sessions ≡ true
    → IsSound db
    → IsSound (record db {
      sessions = db.sessions ++ x ∷ [];
      queries = queries;
      next_id = suc db.next_id;
    })
adds_session db queries x e h free s =
    with_sessions db queries (suc db.next_id) (omega arith) s (db.sessions ++ x ∷ [])
      (table_append x e h s.sessions)
      (Distinct-append same_access (λ u v h. swap_bytes _ _ h) db.sessions x (ground arith)
        s.access)
      (Distinct-append same_refresh (λ u v h. swap_bytes _ _ h) db.sessions x (ground arith)
        s.refresh)

rotates_session :
    (db : Db) (queries id : ℕ) (a : Bytes) (at : ℤ) (r : Bytes) (rt : ℤ)
    → both_free a r (filter (λ x. not (x.id == id)) db.sessions) ≡ true
    → IsSound db
    → IsSound (record db {
      sessions = update_where (λ x. x.id == id) (tokens a at r rt) db.sessions;
      queries = queries;
    })
rotates_session db queries id a at r rt free s =
    with_sessions db queries db.next_id (omega arith) s
      (update_where (λ x. x.id == id) (tokens a at r rt) db.sessions)
      (table_update (λ x. x.id == id) (tokens a at r rt) (λ x. refl) (λ x. refl) s.sessions)
      (Distinct-update_column (λ x. x.access_token_hash) (tokens a at r rt) a id (λ x. refl)
        db.sessions s.sessions.ids (ground arith) s.access)
      (Distinct-update_column (λ x. x.refresh_token_hash) (tokens a at r rt) r id (λ x. refl)
        db.sessions s.sessions.ids (ground arith) s.refresh)

pub create_session_pair-IsSound :
    (id : ℕ) (a : Bytes) (at : ℤ) (r : Bytes) (rt : ℤ)
    → Keeps IsSound (create_session_pair id a at r rt)
unfolding create_session_pair
create_session_pair-IsSound id a at r rt = record {
  at = λ db s.
      let row : Session = record {
        id = db.next_id;
        user_id = id;
        access_token_hash = a;
        access_expires_at = at;
        refresh_token_hash = r;
        refresh_expires_at = rt;
        created_at = db.now;
      } in
      ground (arith, same db (suc db.queries) s, adds_session db (suc db.queries) row refl, s);
}

pub rotate_session_tokens-IsSound :
    (id : ℕ) (a : Bytes) (at : ℤ) (r : Bytes) (rt : ℤ)
    → Keeps IsSound (rotate_session_tokens id a at r rt)
unfolding rotate_session_tokens
rotate_session_tokens-IsSound id a at r rt = record {
  at = λ db s.
      ground
        (arith, same db (suc db.queries) s, rotates_session db (suc db.queries) id a at r rt, s);
}

pub delete_by_access-IsSound : (hash : Bytes) → Keeps IsSound (delete_session_by_access_hash hash)
unfolding delete_session_by_access_hash
delete_by_access-IsSound hash = record {
  at = λ db s. ground (
    arith,
    same db (suc db.queries) s,
    filters_sessions db (suc db.queries) (λ x. not (bytes_eq x.access_token_hash hash)) s,
  );
}

pub delete_all_sessions-IsSound : (id : ℕ) → Keeps IsSound (delete_all_sessions_for_user id)
unfolding delete_all_sessions_for_user
delete_all_sessions-IsSound id = record {
  at = λ db s. ground (
    arith,
    same db (suc db.queries) s,
    filters_sessions db (suc db.queries) (λ x. not (x.user_id == id)) s,
  );
}
