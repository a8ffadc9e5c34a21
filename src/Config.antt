-- ===== src/Config.antt =====
-- internal/config/config.go: Load. The environment is a function, and strconv, time and net/url are
-- parameters. The texts of the errors are left out, with the values that they quote.
pub mod Verdict
use go_vault.Prelude.{
  ℕ, ◌*◌, Bool, true, false, not, ◌&&◌, ◌||◌, [], ◌∷◌, ◌++◌, Option, none, some, if◌then◌else◌,
  Bytes, bytes_eq, codes, ◌==◌, ℤ, pos,
}
use mathlib.Core.List.{reverse}
use go_vault.Crypto.Kdf.{is_empty}

pub record Config : Type 0 where
  pub addr : Bytes
  pub read_header_timeout : ℕ
  pub read_timeout : ℕ
  pub write_timeout : ℕ
  pub idle_timeout : ℕ
  pub database_dsn : Bytes
  pub allowed_origin : Bytes
  pub access_token_duration : ℤ
  pub refresh_token_duration : ℤ

pub record Platform : Type 0 where
  -- os.LookupEnv
  pub lookup_env : Bytes → Option Bytes
  -- whether strconv.Atoi accepts the text
  pub atoi : Bytes → Bool
  -- time.ParseDuration
  pub parse_duration : Bytes → Option ℤ
  -- url.Parse, and Hostname of what it gives
  pub hostname : Bytes → Option Bytes

-- The errors of Load. A bad duration names its variable.
pub data LoadError : Type 0 where
  port_not_a_number : LoadError
  database_url_missing : LoadError
  invalid_duration : Bytes → LoadError
  origin_not_a_url : LoadError
  origin_not_local : LoadError

pub data Loaded {ℓ} (A : Type ℓ) : Type ℓ where
  failed : LoadError → Loaded A
  loaded : A → Loaded A

infixl 5 ◌>>=◌ ◌>>◌
abbrev pub ◌>>=◌ {ℓ κ} : {A : Type ℓ} {B : Type κ} → Loaded A → (A → Loaded B) → Loaded B
failed e >>= f = failed e
loaded a >>= f = f a

abbrev pub ◌>>◌ {ℓ κ} : {A : Type ℓ} {B : Type κ} → Loaded A → Loaded B → Loaded B
m >> k = m >>= λ _. k

abbrev pub require : Bool → LoadError → Loaded (Unit {0})
require c e = if c then loaded tt else failed e

-- strings.HasPrefix and strings.HasSuffix
abbrev pub has_prefix : Bytes → Bytes → Bool
has_prefix s [] = true
has_prefix [] (x ∷ xs) = false
has_prefix (c ∷ cs) (x ∷ xs) = c == x && has_prefix cs xs

abbrev pub has_suffix : Bytes → Bytes → Bool
has_suffix s suffix = has_prefix (reverse s) (reverse suffix)

abbrev pub second : ℕ
second = 1000000000

-- `host != "localhost" && …`, negated.
unfoldable pub is_local : Bytes → Bool
is_local host =
    bytes_eq host (codes "localhost")
    || bytes_eq host (codes "127.0.0.1")
    || bytes_eq host (codes "::1")
    || has_suffix host (codes ".localhost")

module _ (os : Platform) where
  abbrev pub or_fallback : Option Bytes → Bytes → Bytes
  or_fallback none fallback = fallback
  or_fallback (some v) fallback = if is_empty v then fallback else v

  abbrev pub getenv : Bytes → Bytes → Bytes
  getenv key fallback = or_fallback (os.lookup_env key) fallback

  -- os.Getenv: a variable that is not set is empty.
  abbrev pub os_getenv : Bytes → Bytes
  os_getenv key = getenv key []

  abbrev pub parsed : Bytes → Option ℤ → Loaded ℤ
  parsed key none = failed (invalid_duration key)
  parsed key (some d) = loaded d

  -- `if raw := os.Getenv(key); raw != "" { … }`
  abbrev pub duration : Bytes → ℤ → Loaded ℤ
  duration key fallback =
      let raw = os_getenv key in
      if is_empty raw then loaded fallback else parsed key (os.parse_duration raw)

  abbrev pub host_check : Option Bytes → Loaded (Unit {0})
  host_check none = failed origin_not_a_url
  host_check (some host) = require (is_local host) origin_not_local

  unfoldable pub check_origin : Bytes → Loaded (Unit {0})
  unfolding is_local
  check_origin origin =
      if has_prefix origin (codes "https://") then loaded tt else host_check (os.hostname origin)

  unfoldable pub load : Loaded Config
  unfolding check_origin
  load = do
    let port = getenv (codes "PORT") (codes "8080")
    require (os.atoi port) port_not_a_number
    let dsn = os_getenv (codes "DATABASE_URL")
    require (not (is_empty dsn)) database_url_missing
    access_duration ← duration (codes "ACCESS_TOKEN_DURATION") (pos (15 * 60 * second))
    refresh_duration ← duration (codes "REFRESH_TOKEN_DURATION") (pos (168 * 3600 * second))
    refresh_duration' ← duration (codes "SESSION_DURATION") refresh_duration
    let allowed_origin = getenv (codes "ALLOWED_ORIGIN") (codes "http://localhost:5173")
    check_origin allowed_origin
    loaded (record {
      addr = b':' ∷ port;
      read_header_timeout = 5 * second;
      read_timeout = 15 * second;
      write_timeout = 15 * second;
      idle_timeout = 60 * second;
      database_dsn = dsn;
      allowed_origin = allowed_origin;
      access_token_duration = access_duration;
      refresh_token_duration = refresh_duration';
    })
