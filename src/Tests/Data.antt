-- ===== src/Tests/Data.antt =====
-- A concrete server: two users, their sessions, items and challenges, and parameters that are concrete
-- functions.
use go_vault.Prelude.{
  ℕ, Bool, true, false, [], ◌∷◌, none, some, Bytes, ◌==◌, bytes_eq, codes, replicate, pos,
}
use go_vault.Primitives.{Primitives}
use go_vault.Crypto.Kdf.{default_kdf_params}
use go_vault.Storage.Db.{
  User, Session, VaultItem, RecoveryCode, MfaChallenge, AuditEvent, login_success, no_metadata, Db,
}
use go_vault.Auth.Manager.{new_manager}
use go_vault.Alerts.{new_tracker}
use go_vault.Api.Server.{Request, Server, Method}

-- A hash, a cipher and encodings that are the identity, or nearly so.
abbrev pub plain : Primitives
plain = record {
  sha256 = λ b. b;
  argon2id = λ pw salt iterations memory parallelism size. pw;
  hkdf_expand = λ secret info size. some secret;
  aead_seal = λ key nonce text aad. text;
  aead_open = λ key nonce text aad. some text;
  base64_decode = λ b. some b;
  base32_decodes = λ b. true;
  base32_raw_decodes = λ b. true;
  kdf_to_json = λ k. [];
  kdf_of_json = λ b. some default_kdf_params;
  to_lower = λ c. c;
  to_upper = λ c. c;
  is_space = λ c. c == 32;
  totp_validate = λ code secret now. bytes_eq code secret;
  split_host_port = λ addr. some addr;
  parse_ip = λ ip. some ip;
}

abbrev pub user : ℕ → Bytes → Bytes → Bool → User
user id email hash enabled = record {
  id = id;
  email = email;
  kdf_params = [];
  auth_hash = hash;
  auth_hash_salt = 7 ∷ [];
  protected_symmetric_key = [];
  totp_enabled = enabled;
  protected_totp_secret = none;
  created_at = 0;
}

abbrev pub alice : User
alice = user 1 (codes "alice") (codes "secret") false

abbrev pub bob : User
bob = user 2 (codes "bob") (codes "hidden") true

abbrev pub session : ℕ → ℕ → Bytes → Bytes → Session
session id user_id access refresh = record {
  id = id;
  user_id = user_id;
  access_token_hash = access;
  access_expires_at = pos 2000;
  refresh_token_hash = refresh;
  refresh_expires_at = pos 3000;
  created_at = 500;
}

abbrev pub item : ℕ → ℕ → VaultItem
item id user_id = record {
  id = id;
  user_id = user_id;
  ciphertext = 9 ∷ [];
  item_type = codes "login";
  revision = 1;
  updated_at = 600;
}

abbrev pub event : ℕ → ℕ → AuditEvent
event id at = record {
  id = id;
  user_id = some 1;
  event_type = login_success;
  ip = none;
  user_agent = none;
  resource_id = none;
  metadata = no_metadata;
  created_at = at;
}

abbrev pub code : RecoveryCode
code = record { id = 31; user_id = 2; code_hash = 8 ∷ []; used_at = none }

abbrev pub challenge : MfaChallenge
challenge = record { id = 41; user_id = 2; token_hash = 5 ∷ []; expires_at = 1500 }

-- Each draw of random bytes repeats its own number.
abbrev pub db : Db
db = record {
  users = alice ∷ bob ∷ [];
  sessions = session 11 1 (1 ∷ []) (2 ∷ []) ∷ session 12 2 (3 ∷ []) (4 ∷ []) ∷ [];
  items = item 21 1 ∷ item 22 2 ∷ [];
  recovery_codes = code ∷ [];
  challenges = challenge ∷ [];
  audit_events = event 51 700 ∷ event 52 800 ∷ event 53 900 ∷ [];
  devices = [];
  next_id = 100;
  now = 1000;
  outage = λ n. false;
  queries = 0;
  entropy = λ draw size. some (replicate size draw);
  draws = 0;
}

abbrev pub server : Server
server = record {
  db = db;
  auth = new_manager (pos 100) (pos 200);
  alerts = new_tracker;
  notices = [];
  cookies = [];
  slept = 0;
}

-- A request without cookies or the CSRF header.
abbrev pub bare : Method → Request
bare method = record {
  method = method;
  remote_addr = 1 ∷ [];
  user_agent = [];
  access = none;
  refresh = none;
  csrf_header = [];
  user_id = none;
}

-- A request in the context of a user.
abbrev pub of : Method → ℕ → Request
of method id = record (bare method) { user_id = some id }
