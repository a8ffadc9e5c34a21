-- ===== src/Auth/Manager.antt =====
-- internal/auth/session.go: the manager's settings, its limiters and its lockout.
use go_vault.Prelude.{ℕ, ℤ, ◌*◌, Bool, false, if◌then◌else◌, Bytes}
use go_vault.Auth.RateLimiter
use go_vault.Auth.RateLimiter.{RateLimiter}
use go_vault.Auth.Lockout
use go_vault.Auth.Lockout.{LockoutTracker, minute}

abbrev pub raw_token_bytes : ℕ
raw_token_bytes = 32

abbrev pub login_ip_limit : ℕ
login_ip_limit = 10

abbrev pub login_ip_window : ℕ
login_ip_window = 15 * minute

abbrev pub login_account_limit : ℕ
login_account_limit = 5

abbrev pub login_account_window : ℕ
login_account_window = 15 * minute

abbrev pub register_ip_limit : ℕ
register_ip_limit = 5

abbrev pub register_ip_window : ℕ
register_ip_window = 60 * minute

pub record Manager : Type 0 where
  pub login_ip : RateLimiter
  pub login_acct : RateLimiter
  pub register_ip : RateLimiter
  pub lockout : LockoutTracker
  pub access_ttl : ℤ
  pub refresh_ttl : ℤ

unfoldable pub new_manager : ℤ → ℤ → Manager
new_manager access_ttl refresh_ttl = record {
  login_ip = RateLimiter.new_rate_limiter login_ip_limit login_ip_window;
  login_acct = RateLimiter.new_rate_limiter login_account_limit login_account_window;
  register_ip = RateLimiter.new_rate_limiter register_ip_limit register_ip_window;
  lockout = Lockout.new_lockout_tracker;
  access_ttl = access_ttl;
  refresh_ttl = refresh_ttl;
}

unfoldable pub is_login_locked : Manager → ℕ → Bytes → Bool × Manager
is_login_locked m now email =
    let (locked, l) = Lockout.is_locked m.lockout now email in (locked, record m { lockout = l })

-- The delay and the manager afterwards.
unfoldable pub record_login_failure : Manager → ℕ → Bytes → ℕ × Manager
record_login_failure m now email =
    let (delay, l) = Lockout.record_failure m.lockout now email in (delay, record m { lockout = l })

-- `m.loginIP.Allow(ip) && m.loginAcct.Allow(email)`: the second is asked only if the first allows.
unfoldable pub check_login_limit : Manager → ℕ → Bytes → Bytes → Bool × Manager
check_login_limit m now ip email =
    let (ip_ok, by_ip) = RateLimiter.allow m.login_ip now ip in
    let (acct_ok, by_acct) = RateLimiter.allow m.login_acct now email in
    if ip_ok
    then (acct_ok, record m { login_ip = by_ip; login_acct = by_acct })
    else (false, record m { login_ip = by_ip })

unfoldable pub reset_login_limit : Manager → Bytes → Bytes → Manager
reset_login_limit m ip email = record m {
  login_ip = RateLimiter.reset m.login_ip ip;
  login_acct = RateLimiter.reset m.login_acct email;
  lockout = Lockout.reset m.lockout email;
}

unfoldable pub check_register_limit : Manager → ℕ → Bytes → Bool × Manager
check_register_limit m now ip =
    let (allowed, by_ip) = RateLimiter.allow m.register_ip now ip in
    (allowed, record m { register_ip = by_ip })
