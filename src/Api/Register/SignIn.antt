-- ===== src/Api/Register/SignIn.antt =====
-- Who has registered can sign in, internal/api/handlers.go PostRegister and PostLogin.
use go_vault.Prelude.{
  ℕ, suc, ◌≡◌, refl, ap, ◌∙◌, false, inl, inr, none, some, arith, Bytes, bytes_eq, bytes_eq_refl,
  find-append_none, Option-cases,
}
use go_vault.Errors.{ok, Result-cases}
use go_vault.Primitives.{Primitives}
use go_vault.Storage.Db.{User, register, outcome_created}
use go_vault.Storage.Users.{user_by_email, create, get_by_email}
use go_vault.Auth.Manager.{Manager, check_register_limit, reset_login_limit}
use go_vault.Crypto.Text.{normalize_email}
use go_vault.Crypto.Keys.{
  new_server_salt, server_salt_size_bytes, derive_server_auth_hash, default_server_auth_params,
}
use go_vault.Api.Server.{Request, Server, stop, response, no_body, client_ip}
use go_vault.Api.Reply.{decode_auth_hash, validate_ciphertext}
use go_vault.Api.Reply.Recording.{record_event-Recorded}
use go_vault.Api.Register.{RegisterRequest, store_user, registered, post_register}
use go_vault.Api.Login.{
  LoginRequest, post_login, login_found, check_password, password_accepted, finish_login,
  is_throttled,
}

-- The row that PostRegister makes.
abbrev new_row : ℕ → ℕ → Bytes → Bytes → Bytes → Bytes → Bytes → User
new_row id now email kdf hash salt key = record {
  id = id;
  email = email;
  kdf_params = kdf;
  auth_hash = hash;
  auth_hash_salt = salt;
  protected_symmetric_key = key;
  totp_enabled = false;
  protected_totp_secret = none;
  created_at = now;
}

module _ (p : Primitives) (r : Request) where
  store_user-users :
      (email kdf hash salt key : Bytes) (s : Server)
      → s.db.outage s.db.queries ≡ false
      → user_by_email email s.db.users ≡ none
      → let t = (store_user p r email kdf hash salt key s).1 in
        (user_by_email email t.db.users
          ≡ some (new_row s.db.next_id s.db.now email kdf hash salt key))
        × (t.db.outage ≡ s.db.outage)
  unfolding store_user create registered
  store_user-users email kdf hash salt key s up free =
      let made = create email kdf hash salt key s.db in
      let row = new_row s.db.next_id s.db.now email kdf hash salt key in
      ground (
        arith,
        up,
        free,
        bytes_eq_refl email,
        find-append_none (λ u. bytes_eq u.email email) s.db.users row free,
        record_event-Recorded p r none register none outcome_created (record s { db = made.1 }),
      )

  module _ (body : RegisterRequest) (s : Server) (client_hash : Bytes)
      (decoded : decode_auth_hash p body.auth_hash ≡ some client_hash)
      (done : (post_register p r (some body) s).0 ≡ stop (response 201 no_body)) where
    abbrev drawn_once : Server
    drawn_once = record s {
      db = record s.db { draws = suc s.db.draws };
      auth = (check_register_limit s.auth s.db.now (client_ip p r)).1;
    }

    post_register-derives :
        (salt : Bytes) × (hash : Bytes) × (s.db.entropy s.db.draws server_salt_size_bytes
          ≡ some salt)
        × (derive_server_auth_hash p client_hash salt default_server_auth_params ≡ ok hash)
    unfolding post_register validate_ciphertext new_server_salt
    post_register-derives = elim (Option-cases (s.db.entropy s.db.draws server_salt_size_bytes)) [
      | inl dry ↦ ground (arith, dry, done, decoded)
      | inr (salt, drawn) ↦
          elim (Result-cases
            (derive_server_auth_hash p client_hash salt default_server_auth_params)) [
              | inl (hash, derived) ↦ (salt, hash, drawn, derived)
              | inr (e, failed) ↦ ground (arith, drawn, failed, done, decoded)
            ]
    ]

    post_register-store_user :
        (salt hash : Bytes)
        → s.db.entropy s.db.draws server_salt_size_bytes ≡ some salt
        → derive_server_auth_hash p client_hash salt default_server_auth_params ≡ ok hash
        → post_register p r (some body) s
          ≡ store_user p r
              (normalize_email p body.email)
              (p.kdf_to_json body.kdf)
              hash
              salt
              body.protected_symmetric_key
              drawn_once
    unfolding post_register validate_ciphertext new_server_salt
    post_register-store_user salt hash drawn derived = ground (arith, drawn, derived, done, decoded)

  -- A login with the right password, for a user without a second factor.
  post_login-finish_login :
      (login : LoginRequest) (t : Server) (u : User) (client_hash : Bytes) (m : Manager)
      → decode_auth_hash p login.auth_hash ≡ some client_hash
      → user_by_email (normalize_email p login.email) t.db.users ≡ some u
      → derive_server_auth_hash p client_hash u.auth_hash_salt default_server_auth_params
        ≡ ok u.auth_hash
      → u.totp_enabled ≡ false
      → t.db.outage t.db.queries ≡ false
      → is_throttled p (client_ip p r) (normalize_email p login.email) t.auth t.db.now ≡ (false, m)
      → post_login p r (some login) t
        ≡ finish_login p r u (record t {
          db = record t.db { queries = suc t.db.queries };
          auth = reset_login_limit m (client_ip p r) (normalize_email p login.email);
        })
  unfolding post_login login_found check_password password_accepted get_by_email
  post_login-finish_login login t u client_hash m decoded found derived plain up calm =
      ground (arith, decoded, found, derived, plain, up, calm, bytes_eq_refl u.auth_hash)

-- Who has registered can sign in with the same password: when PostRegister answers 201 for an email that
-- was free, the table has a user under it without a second factor, and the next PostLogin, with the email in
-- any spelling that normalises alike and the same auth hash, goes on to completeLogin for that user, with its
-- login limits reset. The database can be reached, and the login is not throttled.
pub post_login-post_register :
    (p : Primitives) (r r' : Request) (body : RegisterRequest) (email client_hash : Bytes)
    (s : Server) (m : Manager)
    → ((n : ℕ) → s.db.outage n ≡ false)
    → user_by_email (normalize_email p body.email) s.db.users ≡ none
    → decode_auth_hash p body.auth_hash ≡ some client_hash
    → (post_register p r (some body) s).0 ≡ stop (response 201 no_body)
    → normalize_email p email ≡ normalize_email p body.email
    → is_throttled p
        (client_ip p r')
        (normalize_email p email)
        (post_register p r (some body) s).1.auth
        (post_register p r (some body) s).1.db.now
      ≡ (false, m)
    → let t = (post_register p r (some body) s).1 in
      (u : User) × (user_by_email (normalize_email p body.email) t.db.users ≡ some u)
      × (u.totp_enabled ≡ false)
      × (post_login p r' (some (record { email = email; auth_hash = body.auth_hash })) t
          ≡ finish_login p r' u (record t {
            db = record t.db { queries = suc t.db.queries };
            auth = reset_login_limit m (client_ip p r') (normalize_email p email);
          }))
post_login-post_register p r r' body email client_hash s m up free decoded done same calm =
    let (salt, hash, drawn, derived) = post_register-derives p r body s client_hash decoded done in
    let stored =
      post_register-store_user p r body s client_hash decoded done salt hash drawn derived in
    let start = drawn_once p r body s client_hash decoded done in
    let norm = normalize_email p body.email in
    let key = body.protected_symmetric_key in
    let kdf = p.kdf_to_json body.kdf in
    let users = store_user-users p r norm kdf hash salt key start (up s.db.queries) free in
    let there = ap (λ x. user_by_email norm x.1.db.users) stored ∙ users.0 in
    let outage = ap (λ x. x.1.db.outage) stored ∙ users.1 in
    (
      new_row s.db.next_id s.db.now norm kdf hash salt key,
      there,
      refl,
      post_login-finish_login p r' (record { email = email; auth_hash = body.auth_hash })
          (post_register p r (some body) s).1 _ client_hash m decoded (rw (same) there) derived refl
          (cc (outage, up (post_register p r (some body) s).1.db.queries)) calm,
    )
