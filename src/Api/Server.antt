-- ===== src/Api/Server.antt =====
-- The state of the server, requests and responses, and a monad for the handlers of internal/api. A
-- handler goes on with a value, or stops with the response that it writes. `cookies` holds the
-- Set-Cookie headers written so far, and `slept` the time spent in time.Sleep; the clock does not
-- move within one request. The access log is left out.
use go_vault.Prelude.{ℕ, ℤ, Bool, List, [], Option, none, some, if◌then◌else◌, Bytes}
use go_vault.Errors.{Result, ok, err}
use go_vault.Primitives.{Primitives, KdfParams}
use go_vault.Storage.Db.{Db, Query, VaultItem, AuditEvent}
use go_vault.Auth.Manager.{Manager}
use go_vault.Alerts.{Tracker, Notice, new_tracker}
use Prim.Native.String.{String}

-- http.Cookie, of which HttpOnly, Secure and SameSite=Strict are always set; a negative MaxAge
-- deletes the cookie.
pub data Cookie : Type 0 where
  access_cookie : Bytes → ℤ → Cookie
  refresh_cookie : Bytes → ℤ → Cookie
  clear_access clear_refresh : Cookie

-- The bodies of internal/api/gen. The public parts of an item are those of its row.
pub data Body : Type 0 where
  no_body : Body
  error : String → Body
  kdf_params : KdfParams → Body
  logged_in : Bytes → KdfParams → Body
  mfa_required : Bytes → Bytes → Bytes → KdfParams → Body
  item : VaultItem → Body
  items : List VaultItem → Body
  sync : Bytes → KdfParams → Bool → Option Bytes → List VaultItem → Body
  recovery_codes : List Bytes → Body
  activity : List AuditEvent → Option ℕ → Body
  healthy : Body
  -- The text of the API docs, of their JSON or of a plain error.
  document : Bytes → Body
  ready : Body

pub record Response : Type 0 where
  pub status : ℕ
  pub body : Body

pub data Method : Type 0 where
  get head post put delete options other : Method

-- What the handlers read of a request. `user_id` is what sessionAuth put into the context, and
-- `user_agent` what captureUserAgent did.
pub record Request : Type 0 where
  pub method : Method
  pub remote_addr : Bytes
  pub user_agent : Bytes
  pub access : Option Bytes
  pub refresh : Option Bytes
  pub csrf_header : Bytes
  pub user_id : Option ℕ

pub record Server : Type 0 where
  pub db : Db
  pub auth : Manager
  pub alerts : Tracker
  pub notices : List Notice
  pub cookies : List Cookie
  pub slept : ℕ

-- NewServer: nothing is remembered but the tables.
unfoldable pub new_server : Db → Manager → Server
unfolding new_tracker
new_server db auth = record {
  db = db;
  auth = auth;
  alerts = new_tracker;
  notices = [];
  cookies = [];
  slept = 0;
}

pub data Outcome (A : Type 0) : Type 0 where
  next : A → Outcome A
  stop : Response → Outcome A

abbrev pub Handler : Type 0 → Type 0
Handler A = Server → Outcome A × Server

infixl 5 ◌>>=◌ ◌>>◌
abbrev pub ◌>>=◌ : {A B : Type 0} → Handler A → (A → Handler B) → Handler B
◌>>=◌ m f s = let (r, s') = m s in elim r [ next a ↦ f a s' | stop resp ↦ (stop resp, s') ]

abbrev pub ◌>>◌ : {A B : Type 0} → Handler A → Handler B → Handler B
m >> k = m >>= λ _. k

abbrev pub response : ℕ → Body → Response
response status body = record { status = status; body = body }

module _ {A : Type 0} where
  abbrev pub pure : A → Handler A
  pure a s = (next a, s)

  -- writeJSON, or WriteHeader, and return.
  abbrev pub reply : ℕ → Body → Handler A
  reply status body s = (stop (response status body), s)

  -- A call of the database whose error the handler looks at.
  abbrev pub call : Query A → Handler (Result A)
  call q s = let (r, db) = q s.db in (next r, record s { db = db })

  -- A value that was decoded, or the response to one that was not.
  abbrev pub or_reply : Option A → ℕ → Body → Handler A
  or_reply none status body = reply status body
  or_reply (some a) status body = pure a

  -- Any error gives the response.
  abbrev pub ok_or_reply : Result A → ℕ → Body → Handler A
  ok_or_reply (err e) status body = reply status body
  ok_or_reply (ok a) status body = pure a

  abbrev pub gets : (Server → A) → Handler A
  gets f s = (next (f s), s)

abbrev pub modify : (Server → Server) → Handler (Unit {0})
modify f s = (next tt, f s)

-- `if c { write; return }`
abbrev pub reply_if : Bool → ℕ → Body → Handler (Unit {0})
reply_if c status body s = (if c then stop (response status body) else next tt, s)

-- A step of the manager that answers a question.
abbrev pub ask_auth : {A : Type 0} → (Manager → ℕ → A × Manager) → Handler A
ask_auth f s = let (a, m) = f s.auth s.db.now in (next a, record s { auth = m })

abbrev pub internal_error : Body
internal_error = error "internal server error"

abbrev pub bad_body : Body
bad_body = error "invalid request body"

abbrev pub authentication_required : Body
authentication_required = error "authentication required"

module _ (p : Primitives) where
  -- clientIP
  abbrev pub client_ip : Request → Bytes
  client_ip r = elim (p.split_host_port r.remote_addr) [ none ↦ r.remote_addr | some host ↦ host ]
