-- ===== src/Storage/Sound/Changes.antt =====
-- What the statements of internal/storage/sqlcgen do to the tables, one change at a time.
use go_vault.Prelude.{ℕ, ◌≤◌, Bool, List, Option, some, Bytes, Distinct}
use go_vault.Storage.Db.{Session, VaultItem, RecoveryCode, MfaChallenge, AuditEvent, Device, Db}
use go_vault.Storage.Rows.{Every}
use go_vault.Storage.Sound.{
  IsTable, table_later, same_access, same_refresh, same_token, is_valid, has_user, IsSound,
}

-- Time, failures and entropy are no constraint's concern, and more ids may have been given out.
pub later :
    (db : Db) (n now : ℕ) (outage : ℕ → Bool) (queries : ℕ) (entropy : ℕ → ℕ → Option Bytes)
    (draws : ℕ)
    → db.next_id ≤ n
    → IsSound db
    → IsSound (record db {
      next_id = n;
      now = now;
      outage = outage;
      queries = queries;
      entropy = entropy;
      draws = draws;
    })
later db n now outage queries entropy draws h s = record {
  users = table_later n h s.users;
  emails = s.emails;
  sessions = table_later n h s.sessions;
  access = s.access;
  refresh = s.refresh;
  items = table_later n h s.items;
  valid = s.valid;
  codes = table_later n h s.codes;
  challenges = table_later n h s.challenges;
  tokens = s.tokens;
  events = table_later n h s.events;
  devices = s.devices;
}

-- A table that is replaced by rows that keep its constraints.
module _ (db : Db) (queries n : ℕ) (above : db.next_id ≤ n) (s : IsSound db) where
  pub with_sessions :
      (rows : List Session)
      → IsTable (λ x. x.id) (λ x. some x.user_id) n db.users rows
      → Distinct same_access rows
      → Distinct same_refresh rows
      → IsSound (record db { sessions = rows; queries = queries; next_id = n })
  with_sessions rows table new_access new_refresh = record {
    users = table_later n above s.users;
    emails = s.emails;
    sessions = table;
    access = new_access;
    refresh = new_refresh;
    items = table_later n above s.items;
    valid = s.valid;
    codes = table_later n above s.codes;
    challenges = table_later n above s.challenges;
    tokens = s.tokens;
    events = table_later n above s.events;
    devices = s.devices;
  }

  pub with_items :
      (rows : List VaultItem)
      → IsTable (λ x. x.id) (λ x. some x.user_id) n db.users rows
      → Every is_valid rows
      → IsSound (record db { items = rows; queries = queries; next_id = n })
  with_items rows table new_valid = record {
    users = table_later n above s.users;
    emails = s.emails;
    sessions = table_later n above s.sessions;
    access = s.access;
    refresh = s.refresh;
    items = table;
    valid = new_valid;
    codes = table_later n above s.codes;
    challenges = table_later n above s.challenges;
    tokens = s.tokens;
    events = table_later n above s.events;
    devices = s.devices;
  }

  pub with_codes :
      (rows : List RecoveryCode)
      → IsTable (λ x. x.id) (λ x. some x.user_id) n db.users rows
      → IsSound (record db { recovery_codes = rows; queries = queries; next_id = n })
  with_codes rows table = record {
    users = table_later n above s.users;
    emails = s.emails;
    sessions = table_later n above s.sessions;
    access = s.access;
    refresh = s.refresh;
    items = table_later n above s.items;
    valid = s.valid;
    codes = table;
    challenges = table_later n above s.challenges;
    tokens = s.tokens;
    events = table_later n above s.events;
    devices = s.devices;
  }

  pub with_challenges :
      (rows : List MfaChallenge)
      → IsTable (λ x. x.id) (λ x. some x.user_id) n db.users rows
      → Distinct same_token rows
      → IsSound (record db { challenges = rows; queries = queries; next_id = n })
  with_challenges rows table new_tokens = record {
    users = table_later n above s.users;
    emails = s.emails;
    sessions = table_later n above s.sessions;
    access = s.access;
    refresh = s.refresh;
    items = table_later n above s.items;
    valid = s.valid;
    codes = table_later n above s.codes;
    challenges = table;
    tokens = new_tokens;
    events = table_later n above s.events;
    devices = s.devices;
  }

  pub with_events :
      (rows : List AuditEvent)
      → IsTable (λ x. x.id) (λ x. x.user_id) n db.users rows
      → IsSound (record db { audit_events = rows; queries = queries; next_id = n })
  with_events rows table = record {
    users = table_later n above s.users;
    emails = s.emails;
    sessions = table_later n above s.sessions;
    access = s.access;
    refresh = s.refresh;
    items = table_later n above s.items;
    valid = s.valid;
    codes = table_later n above s.codes;
    challenges = table_later n above s.challenges;
    tokens = s.tokens;
    events = table;
    devices = s.devices;
  }

  pub with_devices :
      (rows : List Device)
      → Every (has_user db.users) rows
      → IsSound (record db { devices = rows; queries = queries; next_id = n })
  with_devices rows new_devices = record {
    users = table_later n above s.users;
    emails = s.emails;
    sessions = table_later n above s.sessions;
    access = s.access;
    refresh = s.refresh;
    items = table_later n above s.items;
    valid = s.valid;
    codes = table_later n above s.codes;
    challenges = table_later n above s.challenges;
    tokens = s.tokens;
    events = table_later n above s.events;
    devices = new_devices;
  }
