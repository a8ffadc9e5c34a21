-- ===== src/Api/Register.antt =====
-- internal/api/handlers.go: PostRegister, GetLoginKdfParams and the probes. A request's body is what
-- decodeJSON made of it, or `none`.
pub mod Silent
pub mod SignIn
use go_vault.Prelude.{ℕ, Bool, not, [], ◌∷◌, Option, none, some, if◌then◌else◌, Bytes, replicate}
use go_vault.Errors.{Error, not_found, unique_violation, Result, ok, err}
use go_vault.Primitives.{Primitives, KdfParams}
use go_vault.Storage.Db.{User, register, outcome_created}
use go_vault.Storage.Db
use go_vault.Storage.Users
use go_vault.Auth.Manager.{check_register_limit}
use go_vault.Crypto.Text.{normalize_email}
use go_vault.Crypto.Kdf.{is_empty, default_kdf_params}
use go_vault.Crypto.Keys.{new_server_salt, derive_server_auth_hash, default_server_auth_params}
use go_vault.Api.Server.{
  Request, Handler, ◌>>=◌, ◌>>◌, pure, reply, reply_if, or_reply, ok_or_reply, call, ask_auth,
  error, no_body, healthy, ready, kdf_params, internal_error, bad_body, client_ip,
}
use go_vault.Api.Reply.{record_event, validate_ciphertext, decode_auth_hash}

pub record RegisterRequest : Type 0 where
  pub email : Bytes
  pub auth_hash : Bytes
  pub protected_symmetric_key : Bytes
  pub kdf : KdfParams

module _ (p : Primitives) where
  -- The end of PostRegister, by the result of `Users.Create`.
  unfoldable pub registered : Request → Result User → Handler (Unit {0})
  unfolding record_event
  registered r (ok user) = do record_event p r none register none outcome_created; reply 201 no_body
  registered r (err unique_violation) = reply 201 no_body
  registered r (err e) = reply 500 internal_error

  -- `Users.Create` and what follows it.
  unfoldable pub store_user : Request → Bytes → Bytes → Bytes → Bytes → Bytes → Handler (Unit {0})
  unfolding Users.create registered
  store_user r email kdf server_hash salt key = do
    created ← call (Users.create email kdf server_hash salt key)
    registered r created

  unfoldable pub post_register : Request → Option RegisterRequest → Handler (Unit {0})
  unfolding check_register_limit normalize_email validate_ciphertext new_server_salt
      derive_server_auth_hash store_user
  post_register r decoded = do
    allowed ← ask_auth (λ m now. check_register_limit m now (client_ip p r))
    reply_if (not allowed) 429 (error "too many registration attempts; try again later")
    body ← or_reply decoded 400 bad_body
    let email = normalize_email p body.email
    reply_if (is_empty email) 400 (error "email must not be empty")
    auth_hash ←
        or_reply (decode_auth_hash p body.auth_hash) 400 (error "auth_hash must be valid base64")
    validate_ciphertext p body.protected_symmetric_key
    drawn ← call new_server_salt
    salt ← ok_or_reply drawn 500 internal_error
    server_hash ←
        ok_or_reply (derive_server_auth_hash p auth_hash salt default_server_auth_params) 500
          internal_error
    store_user r email (p.kdf_to_json body.kdf) server_hash salt body.protected_symmetric_key

  -- The end of GetLoginKdfParams. An unknown email draws a salt, whose dummy hash is dropped.
  unfoldable pub kdf_reply : Result User → Handler (Unit {0})
  unfolding new_server_salt
  kdf_reply (ok user) = do
    params ← or_reply (p.kdf_of_json user.kdf_params) 500 internal_error
    reply 200 (kdf_params params)
  kdf_reply (err not_found) = do call new_server_salt; reply 200 (kdf_params default_kdf_params)
  kdf_reply (err e) = reply 500 internal_error

  unfoldable pub get_login_kdf_params : Bytes → Handler (Unit {0})
  unfolding normalize_email Users.get_by_email kdf_reply
  get_login_kdf_params raw_email = do
    let email = normalize_email p raw_email
    reply_if (is_empty email) 400 (error "email must not be empty")
    found ← call (Users.get_by_email email)
    kdf_reply found

  -- `getLoginKdfParams`, which the route calls: an absent parameter is an empty one.
  unfoldable pub query_login_kdf_params : Bytes → Handler (Unit {0})
  unfolding get_login_kdf_params
  query_login_kdf_params query_email = do
    reply_if (is_empty query_email) 400 (error "email query parameter is required")
    get_login_kdf_params query_email

unfoldable pub get_health : Handler (Unit {0})
get_health = reply 200 healthy

unfoldable pub get_ready : Handler (Unit {0})
unfolding Db.statement
get_ready = do
  ping ← call Db.statement
  ok_or_reply ping 503 (error "database unavailable")
  reply 200 ready
