-- ===== src/Tests/Register.antt =====
-- Witness for go_vault.Api.Register.SignIn: a new user with an email in two spellings.
use go_vault.Prelude.{◌≡◌, refl, suc, false, [], ◌∷◌, some, codes, bytes_eq}
use go_vault.Storage.Db.{User}
use go_vault.Storage.Users.{user_by_email}
use go_vault.Auth.RateLimiter.{allow, new_rate_limiter}
use go_vault.Auth.Lockout.{is_locked, new_lockout_tracker}
use go_vault.Auth.Manager.{Manager, new_manager, reset_login_limit}
use go_vault.Crypto.Kdf.{default_kdf_params}
use go_vault.Api.Server.{post, Server}
use go_vault.Api.Register.{RegisterRequest, post_register}
use go_vault.Api.Register.SignIn.{post_login-post_register}
use go_vault.Api.Login.{post_login, finish_login, is_throttled}
use go_vault.Tests.Data.{plain, server, bare}

abbrev carol : RegisterRequest
carol = record {
  email = codes "carol";
  auth_hash = codes "pw";
  protected_symmetric_key = codes "key";
  kdf = default_kdf_params;
}

abbrev registered_server : Server
registered_server = (post_register plain (bare post) (some carol) server).1

abbrev after_check : Manager
after_check =
    (is_throttled plain (1 ∷ []) (codes "carol") registered_server.auth registered_server.db.now).1

post_login-post_register_example :
    (u : User) × (user_by_email (codes "carol") registered_server.db.users ≡ some u)
    × (u.totp_enabled ≡ false)
    × (post_login plain
          (bare post)
          (some (record { email = codes " carol"; auth_hash = codes "pw" }))
          registered_server
        ≡ finish_login plain (bare post) u (record registered_server {
          db = record registered_server.db { queries = suc registered_server.db.queries };
          auth = reset_login_limit after_check (1 ∷ []) (codes "carol");
        }))
unfolding post_register is_throttled new_manager bytes_eq allow new_rate_limiter is_locked
    new_lockout_tracker
post_login-post_register_example =
    post_login-post_register plain (bare post) (bare post) carol (codes " carol") (codes "pw")
      server after_check (λ n. refl) refl refl refl refl refl
