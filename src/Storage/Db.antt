-- ===== src/Storage/Db.antt =====
-- The tables of db/schema.sql and a monad of statements on them. A statement can fail: `outage` says
-- which ones do, counted by `queries`. `now` is NOW() and `time.Now()`, one reading for all that a
-- request does. `next_id` stands for gen_random_uuid(), whose values do not repeat. `entropy` is
-- crypto/rand: the bytes of a draw by its number, counted by `draws`, and its size; it can fail.
use go_vault.Prelude.{
  ℕ, suc, Bool, true, false, List, [], ◌∷◌, Option, none, some, if◌then◌else◌, Bytes, ◌==◌, ℤ,
}
use go_vault.Errors.{Error, no_rows, not_found, unavailable, no_entropy, Result, ok, err}

pub record User : Type 0 where
  pub id : ℕ
  pub email : Bytes
  pub kdf_params : Bytes
  pub auth_hash : Bytes
  pub auth_hash_salt : Bytes
  pub protected_symmetric_key : Bytes
  pub totp_enabled : Bool
  pub protected_totp_secret : Option Bytes
  pub created_at : ℕ

pub record Session : Type 0 where
  pub id : ℕ
  pub user_id : ℕ
  pub access_token_hash : Bytes
  pub access_expires_at : ℤ
  pub refresh_token_hash : Bytes
  pub refresh_expires_at : ℤ
  pub created_at : ℕ

pub record VaultItem : Type 0 where
  pub id : ℕ
  pub user_id : ℕ
  pub ciphertext : Bytes
  pub item_type : Bytes
  pub revision : ℕ
  pub updated_at : ℕ

pub record RecoveryCode : Type 0 where
  pub id : ℕ
  pub user_id : ℕ
  pub code_hash : Bytes
  pub used_at : Option ℕ

pub record MfaChallenge : Type 0 where
  pub id : ℕ
  pub user_id : ℕ
  pub token_hash : Bytes
  pub expires_at : ℕ

pub record Device : Type 0 where
  pub user_id : ℕ
  pub ua_hash : Bytes

-- The event types of internal/api/audit.go.
pub data EventType : Type 0 where
  login_success login_failure mfa_required mfa_success mfa_failure logout register : EventType
  user_delete key_rotation item_create item_update item_delete : EventType
  totp_enroll totp_disable recovery_codes_regen : EventType

-- The metadata maps that the handlers write.
pub data Metadata : Type 0 where
  no_metadata outcome_created reason_invalid_credentials : Metadata
  of_item_type : Bytes → Metadata
  of_revision : ℕ → Metadata

pub record AuditEvent : Type 0 where
  pub id : ℕ
  pub user_id : Option ℕ
  pub event_type : EventType
  pub ip : Option Bytes
  pub user_agent : Option Bytes
  pub resource_id : Option ℕ
  pub metadata : Metadata
  pub created_at : ℕ

pub record Db : Type 0 where
  pub users : List User
  pub sessions : List Session
  pub items : List VaultItem
  pub recovery_codes : List RecoveryCode
  pub challenges : List MfaChallenge
  pub audit_events : List AuditEvent
  pub devices : List Device
  pub next_id : ℕ
  pub now : ℕ
  pub outage : ℕ → Bool
  pub queries : ℕ
  pub entropy : ℕ → ℕ → Option Bytes
  pub draws : ℕ

abbrev pub Query : Type 0 → Type 0
Query A = Db → Result A × Db

infixl 5 ◌>>=◌ ◌>>◌
abbrev pub ◌>>=◌ : {A B : Type 0} → Query A → (A → Query B) → Query B
◌>>=◌ m f db = let (r, db') = m db in elim r [ ok a ↦ f a db' | err e ↦ (err e, db') ]

abbrev pub ◌>>◌ : {A B : Type 0} → Query A → Query B → Query B
m >> k = m >>= λ _. k

module _ {A : Type 0} where
  abbrev pub pure : A → Query A
  pure a db = (ok a, db)

  abbrev pub fail : Error → Query A
  fail e db = (err e, db)

  abbrev pub gets : (Db → A) → Query A
  gets f db = (ok (f db), db)

  -- The row of a `:one` query.
  abbrev pub one : Option A → Query A
  one none = fail no_rows
  one (some a) = pure a

  -- A call whose error the caller inspects: `x, err := m`.
  abbrev pub try : Query A → Query (Result A)
  try m db = let (r, db') = m db in (ok r, db')

  abbrev pub of_result : Result A → Query A
  of_result r db = (r, db)

abbrev pub modify : (Db → Db) → Query (Unit {0})
modify f db = (ok tt, f db)

abbrev pub guard : Bool → Error → Query (Unit {0})
guard c e db = (if c then ok tt else err e, db)

-- A statement reaches the database, or fails and changes nothing.
unfoldable pub statement : Query (Unit {0})
statement db = (
  if db.outage db.queries then err unavailable else ok tt,
  record db { queries = suc db.queries },
)

-- `mapNotFound` of internal/storage/store.go.
abbrev pub map_not_found : Error → Error
map_not_found no_rows = not_found
map_not_found e = e

module _ {A : Type 0} where
  -- `if err != nil { return nil, mapNotFound(err) }`
  abbrev pub or_not_found : Query A → Query A
  or_not_found m db =
      let (r, db') = m db in elim r [ ok a ↦ (ok a, db') | err e ↦ (err (map_not_found e), db') ]

-- gen_random_uuid()
abbrev pub fresh_id : Query ℕ
fresh_id db = (ok db.next_id, record db { next_id = suc db.next_id })

-- `rand.Read` into a buffer of the given size.
unfoldable pub random_bytes : ℕ → Query Bytes
random_bytes size db = elim (db.entropy db.draws size) [
  | none ↦ (err no_entropy, record db { draws = suc db.draws })
  | some b ↦ (ok b, record db { draws = suc db.draws })
]

-- The foreign key on users(id) holds.
abbrev pub user_exists : List User → ℕ → Bool
user_exists [] id = false
user_exists (u ∷ us) id = if u.id == id then true else user_exists us id
