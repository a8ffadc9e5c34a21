-- ===== src/Api/Keeps/Register.antt =====
-- What the handlers of the registration and of the KDF parameters keep of the tables.
use go_vault.Prelude.{not, Option, none, Bytes}
use go_vault.Errors.{not_found, unique_violation, Result, ok, err}
use go_vault.Primitives.{Primitives}
use go_vault.Storage.Db.{User, Db, register, outcome_created}
use go_vault.Storage.Closed.{Closed, get_by_email-Keeps, create_user-Keeps}
use go_vault.Auth.Manager.{check_register_limit}
use go_vault.Auth.Session.Keeps.{new_server_salt-Keeps}
use go_vault.Crypto.Kdf.{is_empty, default_kdf_params}
use go_vault.Crypto.Keys.{derive_server_auth_hash, default_server_auth_params}
use go_vault.Crypto.Text.{normalize_email}
use go_vault.Api.Server.{Request, client_ip, internal_error, error, bad_body, no_body, kdf_params}
use go_vault.Api.Reply.{decode_auth_hash}
use go_vault.Api.Keeps.{
  HandlerKeeps, h_reply, h_or_reply, h_ok_or_reply, h_call, h_ask_auth, h_bind, h_then, h_reply_if,
  validate_ciphertext-HandlerKeeps, record_event-HandlerKeeps,
}
use go_vault.Api.Register.{
  RegisterRequest, registered, store_user, post_register, kdf_reply, get_login_kdf_params,
  query_login_kdf_params,
}

module _ {P : Db → Type 0} (c : Closed P) (p : Primitives) (r : Request) where
  registered-HandlerKeeps : (created : Result User) → HandlerKeeps P (registered p r created)
  unfolding registered
  registered-HandlerKeeps (ok user) =
      h_then (record_event-HandlerKeeps c p r none register none outcome_created)
        (h_reply 201 no_body)
  registered-HandlerKeeps (err unique_violation) = h_reply _ _
  registered-HandlerKeeps (err e) = h_reply _ _

  store_user-HandlerKeeps :
      (email kdf hash salt key : Bytes) → HandlerKeeps P (store_user p r email kdf hash salt key)
  unfolding store_user
  store_user-HandlerKeeps email kdf hash salt key =
      h_bind (h_call (create_user-Keeps c email kdf hash salt key)) registered-HandlerKeeps

  pub post_register-HandlerKeeps :
      (decoded : Option RegisterRequest) → HandlerKeeps P (post_register p r decoded)
  unfolding post_register
  post_register-HandlerKeeps decoded =
      h_bind (h_ask_auth (λ m now. check_register_limit m now (client_ip p r))) λ allowed.
        h_then
          (h_reply_if (not allowed) 429 (error "too many registration attempts; try again later"))
          (h_bind (h_or_reply decoded 400 bad_body) λ body.
            h_then
              (h_reply_if (is_empty (normalize_email p body.email)) 400
                (error "email must not be empty"))
              (h_bind
                (h_or_reply (decode_auth_hash p body.auth_hash) 400
                  (error "auth_hash must be valid base64"))
                λ auth_hash.
                  h_then (validate_ciphertext-HandlerKeeps p body.protected_symmetric_key) (
                    h_bind (h_call (new_server_salt-Keeps c)) λ drawn.
                      h_bind (h_ok_or_reply drawn 500 internal_error) λ salt.
                        h_bind
                          (h_ok_or_reply
                            (derive_server_auth_hash p auth_hash salt default_server_auth_params)
                            500 internal_error)
                          λ server_hash.
                            store_user-HandlerKeeps (normalize_email p body.email)
                              (p.kdf_to_json body.kdf) server_hash salt
                              body.protected_symmetric_key)))

  kdf_reply-HandlerKeeps : (found : Result User) → HandlerKeeps P (kdf_reply p found)
  unfolding kdf_reply
  kdf_reply-HandlerKeeps (ok user) =
      h_bind (h_or_reply (p.kdf_of_json user.kdf_params) 500 internal_error)
        λ params. h_reply 200 (kdf_params params)
  kdf_reply-HandlerKeeps (err not_found) =
      h_then (h_call (new_server_salt-Keeps c)) (h_reply 200 (kdf_params default_kdf_params))
  kdf_reply-HandlerKeeps (err e) = h_reply _ _

  get_login_kdf_params-HandlerKeeps :
      (email : Bytes) → HandlerKeeps P (get_login_kdf_params p email)
  unfolding get_login_kdf_params
  get_login_kdf_params-HandlerKeeps email =
      h_then (h_reply_if (is_empty (normalize_email p email)) 400 (error "email must not be empty"))
        (h_bind (h_call (get_by_email-Keeps c (normalize_email p email))) kdf_reply-HandlerKeeps)

  pub query_login_kdf_params-HandlerKeeps :
      (query_email : Bytes) → HandlerKeeps P (query_login_kdf_params p query_email)
  unfolding query_login_kdf_params
  query_login_kdf_params-HandlerKeeps query_email =
      h_then (h_reply_if (is_empty query_email) 400 (error "email query parameter is required"))
        (get_login_kdf_params-HandlerKeeps query_email)
