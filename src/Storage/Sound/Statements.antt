-- ===== src/Storage/Sound/Statements.antt =====
-- A statement that only reads, and those of internal/storage/sqlcgen/users.sql.go, against the
-- constraints of db/schema.sql.
use go_vault.Prelude.{ℕ, suc, ◌≤◌, refl, false, none, arith, Bytes}
use go_vault.Storage.Db.{User, Db, statement, random_bytes}
use go_vault.Storage.Users.{create_user, update_user_auth_credentials, delete_user_rows}
use go_vault.Storage.Keeps.{Keeps}
use go_vault.Storage.Sound.{IsSound}
use go_vault.Storage.Sound.Changes.{later}
use go_vault.Storage.Sound.Users.{adds_user, updates_user, deletes_user}

pub moves :
    (db : Db) (queries n : ℕ)
    → db.next_id ≤ n
    → IsSound db
    → IsSound (record db { queries = queries; next_id = n })
moves db queries n h s = later db n db.now db.outage queries db.entropy db.draws h s

pub same : (db : Db) (queries : ℕ) → IsSound db → IsSound (record db { queries = queries })
same db queries s = moves db queries db.next_id (omega arith) s

pub statement-IsSound : Keeps IsSound statement
unfolding statement
statement-IsSound = record { at = λ db s. same db (suc db.queries) s }

pub random_bytes-IsSound : (size : ℕ) → Keeps IsSound (random_bytes size)
unfolding random_bytes
random_bytes-IsSound size = record {
  at = λ db s. ground (
    arith,
    later db db.next_id db.now db.outage db.queries db.entropy (suc db.draws) (omega arith) s,
  );
}

pub create_user-IsSound :
    (email kdf hash salt key : Bytes) → Keeps IsSound (create_user email kdf hash salt key)
unfolding create_user
create_user-IsSound email kdf hash salt key = record {
  at = λ db s.
      let row : User = record {
        id = db.next_id;
        email = email;
        kdf_params = kdf;
        auth_hash = hash;
        auth_hash_salt = salt;
        protected_symmetric_key = key;
        totp_enabled = false;
        protected_totp_secret = none;
        created_at = db.now;
      } in
      ground (arith, same db (suc db.queries) s, adds_user db (suc db.queries) row refl, s);
}

pub update_user-IsSound :
    (id : ℕ) (hash salt kdf key : Bytes)
    → Keeps IsSound (update_user_auth_credentials id hash salt kdf key)
unfolding update_user_auth_credentials
update_user-IsSound id hash salt kdf key = record {
  at = λ db s.
      let f : User → User = λ u. record u {
        auth_hash = hash;
        auth_hash_salt = salt;
        kdf_params = kdf;
        protected_symmetric_key = key;
      } in
      ground (
        arith,
        same db (suc db.queries) s,
        updates_user db (suc db.queries) id f (λ u. refl) (λ u. refl) s,
      );
}

pub delete_user-IsSound : (id : ℕ) → Keeps IsSound (delete_user_rows id)
unfolding delete_user_rows
delete_user-IsSound id = record {
  at = λ db s. ground (arith, same db (suc db.queries) s, deletes_user db (suc db.queries) id s);
}
