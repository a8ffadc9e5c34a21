-- ===== src/Storage/Sound/Users.antt =====
-- What the statements of internal/storage/sqlcgen/users.sql.go do to the tables.
use go_vault.Prelude.{
  ℕ, suc, ◌≡◌, refl, true, not, List, [], ◌∷◌, ◌++◌, Option, none, some, if◌then◌else◌, arith, ◌==◌,
  filter, update_where,
}
use go_vault.Storage.Db.{User, Db, user_exists}
use go_vault.Storage.Users.{user_by_email, forget_user, cascade}
use go_vault.Storage.Audit.{may_refer}
use go_vault.Storage.Rows.{
  Every-filter, Every-implies, Distinct-append, Distinct-filter, Distinct-update, swap_bytes,
}
use go_vault.Storage.Sound.{
  IsTable, Includes, Includes-append, Includes-update, user_exists-filter, table_later, table_users,
  table_append, table_filter, table_change, table_update, same_email, same_access, same_refresh,
  same_token, is_valid, has_user, IsSound,
}

module _ (db : Db) (queries : ℕ) where
  pub adds_user :
      (u : User)
      → u.id ≡ db.next_id
      → user_by_email u.email db.users ≡ none
      → IsSound db
      → IsSound
          (record db { users = db.users ++ u ∷ []; queries = queries; next_id = suc db.next_id })
  adds_user u e free s = record {
    users = table_append u e refl (table_users users' inc s.users);
    emails = Distinct-append same_email (λ u v h. swap_bytes _ _ h) db.users u free s.emails;
    sessions = table_later (suc db.next_id) (omega arith) (table_users users' inc s.sessions);
    access = s.access;
    refresh = s.refresh;
    items = table_later (suc db.next_id) (omega arith) (table_users users' inc s.items);
    valid = s.valid;
    codes = table_later (suc db.next_id) (omega arith) (table_users users' inc s.codes);
    challenges = table_later (suc db.next_id) (omega arith) (table_users users' inc s.challenges);
    tokens = s.tokens;
    events = table_later (suc db.next_id) (omega arith) (table_users users' inc s.events);
    devices =
        Every-implies (has_user db.users) (has_user users') db.devices (λ d. inc d.user_id)
          s.devices;
  }
    where
      users' : List User
      users' = db.users ++ u ∷ []

      inc : Includes db.users users'
      inc = Includes-append db.users u

  -- What identifies a user stays.
  pub updates_user :
      (k : ℕ) (f : User → User)
      → ((u : User) → (f u).id ≡ u.id)
      → ((u : User) → (f u).email ≡ u.email)
      → IsSound db
      → IsSound (record db { users = update_where (λ u. u.id == k) f db.users; queries = queries })
  updates_user k f keeps same s = record {
    users = table_update (λ u. u.id == k) f keeps (λ u. refl) (table_users users' inc s.users);
    emails =
        Distinct-update same_email (λ u. u.id == k) f (λ u v. rw (same u) refl)
          (λ u v. rw (same v) refl) db.users s.emails;
    sessions = table_users users' inc s.sessions;
    access = s.access;
    refresh = s.refresh;
    items = table_users users' inc s.items;
    valid = s.valid;
    codes = table_users users' inc s.codes;
    challenges = table_users users' inc s.challenges;
    tokens = s.tokens;
    events = table_users users' inc s.events;
    devices =
        Every-implies (has_user db.users) (has_user users') db.devices (λ d. inc d.user_id)
          s.devices;
  }
    where
      users' : List User
      users' = update_where (λ u. u.id == k) f db.users

      inc : Includes db.users users'
      inc = Includes-update k f keeps db.users

  -- A user and all that belongs to it go.
  pub deletes_user : (k : ℕ) → IsSound db → IsSound (cascade k (record db { queries = queries }))
  deletes_user k s = record {
    users = table_filter users' (λ u. not (u.id == k)) (λ u e h. refl) s.users;
    emails =
        Distinct-filter same_email (λ u v h. swap_bytes _ _ h) (λ u. not (u.id == k)) db.users
          s.emails;
    sessions = table_filter users' (λ x. not (x.user_id == k)) (λ x. others x.user_id) s.sessions;
    access =
        Distinct-filter same_access (λ u v h. swap_bytes _ _ h) (λ x. not (x.user_id == k))
          db.sessions s.access;
    refresh =
        Distinct-filter same_refresh (λ u v h. swap_bytes _ _ h) (λ x. not (x.user_id == k))
          db.sessions s.refresh;
    items = table_filter users' (λ x. not (x.user_id == k)) (λ x. others x.user_id) s.items;
    valid =
        Every-filter is_valid is_valid (λ x. not (x.user_id == k)) db.items (λ x e h. h) s.valid;
    codes = table_filter users' (λ x. not (x.user_id == k)) (λ x. others x.user_id) s.codes;
    challenges =
        table_filter users' (λ x. not (x.user_id == k)) (λ x. others x.user_id) s.challenges;
    tokens =
        Distinct-filter same_token (λ u v h. swap_bytes _ _ h) (λ x. not (x.user_id == k))
          db.challenges s.tokens;
    events = events-forget;
    devices =
        Every-filter (has_user db.users) (has_user users') (λ x. not (x.user_id == k)) db.devices
          (λ x. others x.user_id) s.devices;
  }
    where
      users' : List User
      users' = filter (λ u. not (u.id == k)) db.users

      others :
          (id : ℕ)
          → not (id == k) ≡ true
          → user_exists db.users id ≡ true
          → user_exists users' id ≡ true
      others id e h = user_exists-filter k db.users id (ground arith) h

      forgotten :
          (o : Option ℕ)
          → may_refer db.users o ≡ true
          → may_refer users'
              (elim o [ none ↦ none | some uid ↦ if uid == k then none else some uid ])
            ≡ true
      forgotten none h = refl
      forgotten (some uid) h = ground (arith, others uid)

      events-forget :
          IsTable
            (λ e. e.id)
            (λ e. e.user_id)
            db.next_id
            users'
            (update_where (λ e. true) (forget_user k) db.audit_events)
      events-forget =
          table_change users' (λ e. true) (forget_user k) (λ e. refl) (λ e g h. ground arith)
            (λ e g h. forgotten e.user_id h) s.events
