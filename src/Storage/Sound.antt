-- ===== src/Storage/Sound.antt =====
-- The constraints of db/schema.sql, and the ids that were given out, as a property of the tables:
-- what each statement of internal/storage/sqlcgen has to keep.
pub mod Changes
pub mod Users
pub mod Statements
pub mod Sessions
pub mod Items
pub mod Mfa
pub mod Transaction
pub mod Audit
pub mod Closed
use go_vault.Prelude.{
  ℕ, suc, ◌<◌, ◌≤◌, ◌≡◌, refl, Bool, true, false, not, ◌&&◌, List, [], ◌∷◌, ◌++◌, Option, none,
  some, if◌then◌else◌, arith, Bytes, ◌==◌, ==_iff, leb, bytes_eq, find, filter, update_where,
  Distinct,
}
use go_vault.Storage.Db.{
  User, Session, VaultItem, RecoveryCode, MfaChallenge, AuditEvent, Device, Db, user_exists,
}
use go_vault.Storage.Items.{max_int32, is_item_type}
use go_vault.Storage.Audit.{may_refer}
use go_vault.Storage.Rows.{
  Every, Every-append, Every-filter, Every-update, Every-implies, Distinct-append, Distinct-filter,
  Distinct-update, same_number, Below, Below-later, find_above, Below-append, Below-filter,
  Below-update,
}

-- A table with a primary key and a foreign key on users(id): the ids are distinct and were given
-- out, and the users that the rows belong to are there.
pub record IsTable {A : Type 0} (id : A → ℕ) (owner : A → Option ℕ) (n : ℕ) (users : List User)
    (rows : List A) : Type 0 where
  pub ids : Distinct (same_number id) rows
  pub given : Below id n rows
  pub owned : Every (λ x. may_refer users (owner x)) rows

-- The users of one table are users of another.
abbrev pub Includes : List User → List User → Type 0
Includes users users' = (id : ℕ) → user_exists users id ≡ true → user_exists users' id ≡ true

pub Includes-append : (users : List User) (u : User) → Includes users (users ++ u ∷ [])
Includes-append [] u id h = cc
Includes-append (v ∷ users) u id h = ground (arith, Includes-append users u id)

pub Includes-update :
    (k : ℕ) (f : User → User) (keeps : (u : User) → (f u).id ≡ u.id) (users : List User)
    → Includes users (update_where (λ u. u.id == k) f users)
Includes-update k f keeps [] id h = h
Includes-update k f keeps (v ∷ users) id h =
    ground (arith, keeps v, Includes-update k f keeps users id)

-- A user other than the one deleted.
pub user_exists-filter :
    (k : ℕ) (users : List User) (id : ℕ)
    → id == k ≡ false
    → user_exists users id ≡ true
    → user_exists (filter (λ u. not (u.id == k)) users) id ≡ true
user_exists-filter k [] id h e = e
user_exists-filter k (v ∷ users) id h e =
    ground (arith, ==_iff v.id id, user_exists-filter k users id)

may_refer-Includes :
    (users users' : List User)
    → Includes users users'
    → (o : Option ℕ) → may_refer users o ≡ true
    → may_refer users' o ≡ true
may_refer-Includes users users' inc none h = refl
may_refer-Includes users users' inc (some id) h = inc id h

module _ {A : Type 0} {id : A → ℕ} {owner : A → Option ℕ} {n : ℕ} {users : List User} where
  pub table_later :
      {rows : List A} (m : ℕ)
      → n ≤ m
      → IsTable id owner n users rows
      → IsTable id owner m users rows
  table_later {rows} m h t = record {
    ids = t.ids;
    given = Below-later id n m rows h t.given;
    owned = t.owned;
  }

  pub table_users :
      {rows : List A} (users' : List User)
      → Includes users users'
      → IsTable id owner n users rows
      → IsTable id owner n users' rows
  table_users {rows} users' inc t = record {
    ids = t.ids;
    given = t.given;
    owned =
        Every-implies (λ x. may_refer users (owner x)) (λ x. may_refer users' (owner x)) rows
          (λ x. may_refer-Includes users users' inc (owner x)) t.owned;
  }

  pub table_append :
      {rows : List A} (x : A)
      → id x ≡ n
      → may_refer users (owner x) ≡ true
      → IsTable id owner n users rows
      → IsTable id owner (suc n) users (rows ++ x ∷ [])
  table_append {rows} x e h t = record {
    ids =
        Distinct-append (same_number id) (λ s t h. ground arith) rows x
          (find_above id n (id x) rows (omega arith) t.given) t.ids;
    given =
        Below-append id (suc n) rows x (Below-later id n (suc n) rows (omega arith) t.given)
          (rw e (omega arith));
    owned = Every-append (λ x. may_refer users (owner x)) rows x t.owned h;
  }

  -- Rows that are deleted, perhaps with users that the others do not refer to.
  pub table_filter :
      {rows : List A} (users' : List User) (keep : A → Bool)
      → ((x : A)
          → keep x ≡ true
          → may_refer users (owner x) ≡ true
          → may_refer users' (owner x) ≡ true)
      → IsTable id owner n users rows
      → IsTable id owner n users' (filter keep rows)
  table_filter {rows} users' keep f t = record {
    ids = Distinct-filter (same_number id) (λ s t h. ground arith) keep rows t.ids;
    given = Below-filter id n keep rows t.given;
    owned =
        Every-filter (λ x. may_refer users (owner x)) (λ x. may_refer users' (owner x)) keep rows f
          t.owned;
  }

  -- Rows that change, perhaps with the users that they refer to.
  pub table_change :
      {rows : List A} (users' : List User) (hit : A → Bool) (f : A → A)
      → ((x : A) → id (f x) ≡ id x)
      → ((x : A)
          → hit x ≡ false
          → may_refer users (owner x) ≡ true
          → may_refer users' (owner x) ≡ true)
      → ((x : A)
          → hit x ≡ true
          → may_refer users (owner x) ≡ true
          → may_refer users' (owner (f x)) ≡ true)
      → IsTable id owner n users rows
      → IsTable id owner n users' (update_where hit f rows)
  table_change {rows} users' hit f keeps rest new t = record {
    ids =
        Distinct-update (same_number id) hit f (λ s t. rw (keeps s) refl) (λ s t. rw (keeps t) refl)
          rows t.ids;
    given = Below-update id n hit f keeps rows t.given;
    owned =
        Every-update (λ x. may_refer users (owner x)) (λ x. may_refer users' (owner x)) hit f rows
          rest new t.owned;
  }

  pub table_update :
      {rows : List A} (hit : A → Bool) (f : A → A)
      → ((x : A) → id (f x) ≡ id x)
      → ((x : A) → owner (f x) ≡ owner x)
      → IsTable id owner n users rows
      → IsTable id owner n users (update_where hit f rows)
  table_update hit f keeps same t =
      table_change users hit f keeps (λ x e h. h) (λ x e h. rw (same x) h) t

abbrev pub same_email : User → User → Bool
same_email u v = bytes_eq v.email u.email

abbrev pub same_access : Session → Session → Bool
same_access s t = bytes_eq t.access_token_hash s.access_token_hash

abbrev pub same_refresh : Session → Session → Bool
same_refresh s t = bytes_eq t.refresh_token_hash s.refresh_token_hash

abbrev pub same_token : MfaChallenge → MfaChallenge → Bool
same_token c d = bytes_eq d.token_hash c.token_hash

-- The CHECK on item_type, and a revision in the range of INTEGER that starts at 1.
abbrev pub is_valid : VaultItem → Bool
is_valid i = is_item_type i.item_type && leb 1 i.revision && leb i.revision max_int32

abbrev pub has_user : List User → Device → Bool
has_user users d = user_exists users d.user_id

-- PRIMARY KEY, FOREIGN KEY, UNIQUE and CHECK of every table.
pub record IsSound (db : Db) : Type 0 where
  pub users : IsTable (λ u. u.id) (λ u. none) db.next_id db.users db.users
  pub emails : Distinct same_email db.users
  pub sessions : IsTable (λ s. s.id) (λ s. some s.user_id) db.next_id db.users db.sessions
  pub access : Distinct same_access db.sessions
  pub refresh : Distinct same_refresh db.sessions
  pub items : IsTable (λ i. i.id) (λ i. some i.user_id) db.next_id db.users db.items
  pub valid : Every is_valid db.items
  pub codes : IsTable (λ c. c.id) (λ c. some c.user_id) db.next_id db.users db.recovery_codes
  pub challenges : IsTable (λ c. c.id) (λ c. some c.user_id) db.next_id db.users db.challenges
  pub tokens : Distinct same_token db.challenges
  pub events : IsTable (λ e. e.id) (λ e. e.user_id) db.next_id db.users db.audit_events
  pub devices : Every (has_user db.users) db.devices
