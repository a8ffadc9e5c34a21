-- ===== src/Tests/Api.antt =====
-- Witnesses for go_vault.Api.
use go_vault.Prelude.{
  ◌≡◌, refl, true, [], ◌∷◌, ◌++◌, none, some, arith, Bytes, bytes_eq, codes, update_where, take,
  replicate, quotient, pos,
}
use go_vault.Storage.Audit.{timeline}
use go_vault.Storage.Db.{User}
use go_vault.Storage.Users.{user_by_id, forget_user}
use go_vault.Mfa.{validate_totp}
use go_vault.Crypto.Text.{normalize_email}
use go_vault.Crypto.Keys.{derive_server_auth_hash}
use go_vault.Api.Server.{
  put, Request, get, post, delete, stop, response, error, no_body, clear_access, clear_refresh,
  logged_in, access_cookie, refresh_cookie,
}
use go_vault.Api.Register.{RegisterRequest, post_register}
use go_vault.Api.Register.Silent.{with_users, post_register_silent}
use go_vault.Api.Login.{
  LoginRequest, LoginMfaRequest, post_login, post_login_mfa, create_mfa_token, credential,
}
use go_vault.Api.Login.Password.{post_login_guarded}
use go_vault.Api.Login.SecondFactor.{
  SignsNobodyIn, with_db, challenge_spent, post_login_mfa-wrong_code,
}
use go_vault.Api.Login.Expiry.{post_login_mfa-expired}
use go_vault.Api.Login.Chosen.{post_login_mfa-any_secret}
use go_vault.Auth.Session.{create_session_pair, validate_access}
use go_vault.Auth.Session.Rotation.{holder_of, at_time}
use go_vault.Auth.Lockout.{second}
use go_vault.Auth.Manager.{new_manager}
use go_vault.Errors.{ok}
use go_vault.Primitives.{hex_encode}
use go_vault.Storage.Mfa.{consume_challenge}
use go_vault.Api.Account.{UpdateKeyRequest, delete_user, put_user_key}
use go_vault.Api.Account.Rotation.{Rekeyed, put_user_key-Rekeyed}
use go_vault.Api.Account.Deletion.{IsErased, delete_user_erases}
use go_vault.Api.TwoFactor.{
  Enroll2faRequest, Disable2faRequest, RegenerateRecoveryCodesRequest, post_user_2fa_enroll,
  delete_user_2fa, post_user_2fa_recovery_codes,
}
use go_vault.Api.TwoFactor.Guards.{SameFactors, enroll_once, wrong_code_keeps}
use go_vault.Api.Vault.{NewItem, UpdateItem, create_item, update_item, delete_item}
use go_vault.Api.Vault.Ownership.{of_user, requests_separate}
use go_vault.Api.Activity.{get_activity, query_limit}
use go_vault.Api.Activity.Paging.{page_of, shows, get_activity-page_of, get_activity-overlong}
use go_vault.Api.Router.{Endpoint, serve}
use go_vault.Api.Router.Refusal.{Refused}
use go_vault.Api.Router.Guards.{serve_without_csrf, serve_without_session}
use go_vault.Crypto.Kdf.{default_kdf_params}
use go_vault.Tests.Data.{alice, plain, server, bob, challenge, bare, of}

-- A request with a live session and no CSRF header.
abbrev forged : Request
forged = record (bare delete) { access = some (1 ∷ []) }

serve_without_csrf_example :
    Refused (record server { cookies = [] }) (serve plain Endpoint.remove_user forged server)
unfolding bytes_eq
serve_without_csrf_example =
    serve_without_csrf plain Endpoint.remove_user forged server refl refl refl

serve_without_session_example :
    Refused (record server { cookies = [] }) (serve plain Endpoint.get_items (bare get) server)
serve_without_session_example =
    serve_without_session plain Endpoint.get_items (bare get) server refl refl tt

abbrev wrong_login : LoginRequest
wrong_login = record { email = codes " alice"; auth_hash = codes "guess" }

post_login_guarded_example :
    SignsNobodyIn server (post_login plain (bare post) (some wrong_login) server).1
unfolding normalize_email derive_server_auth_hash bytes_eq
post_login_guarded_example = post_login_guarded plain (bare post) wrong_login server (λ u e. cc)

abbrev second_step : Bytes → Bytes → Bytes → LoginMfaRequest
second_step token code secret = record {
  mfa_token = token;
  totp_code = some code;
  totp_secret = some secret;
  recovery_code = none;
}

-- The token of a first draw.
abbrev drawn : Bytes
unfolding hex_encode
drawn = hex_encode (replicate 32 0)

post_login_mfa-expired_example :
    let made = (create_mfa_token plain 2 server.db).1 in
    let s = with_db (at_time 300000001000 made) server in
    let u = post_login_mfa plain (bare post) (some (second_step drawn [] [])) s in
    ((consume_challenge drawn (at_time 300000000999 made)).0 ≡ ok 2)
    × (u.0 ≡ stop (response 401 (error "invalid or expired MFA challenge")))
    × SignsNobodyIn s u.1
unfolding create_mfa_token bytes_eq
post_login_mfa-expired_example =
    post_login_mfa-expired plain (bare post) (second_step drawn [] []) server 2 300000000999
      300000001000 (λ n. refl) refl refl (omega arith) (omega arith)

abbrev wrong_step : LoginMfaRequest
wrong_step = second_step (5 ∷ []) (1 ∷ []) (2 ∷ [])

post_login_mfa-wrong_code_example :
    let t = post_login_mfa plain (bare post) (some wrong_step) server in
    (t.0 ≡ stop (response 401 (error "invalid MFA code")))
    × SignsNobodyIn server t.1
    × (t.1.db.challenges ≡ (challenge_spent plain wrong_step 1 server).db.challenges)
unfolding bytes_eq credential validate_totp
post_login_mfa-wrong_code_example =
    post_login_mfa-wrong_code plain (bare post) wrong_step server challenge (1 ∷ []) (2 ∷ []) refl
      refl refl refl refl

-- The token of a second draw.
abbrev drawn_next : Bytes
unfolding hex_encode
drawn_next = hex_encode (replicate 32 1)

abbrev chosen_step : LoginMfaRequest
chosen_step = second_step (5 ∷ []) (1 ∷ []) (1 ∷ [])

post_login_mfa-any_secret_example :
    let t = post_login_mfa plain (bare post) (some chosen_step) server in
    (t.0 ≡ stop (response 200 (logged_in [] default_kdf_params)))
    × (t.1.cookies
        ≡ access_cookie drawn (quotient (pos 100) second)
          ∷ refresh_cookie drawn_next (quotient (pos 200) second)
          ∷ [])
    × (holder_of (validate_access plain drawn t.1.db).0 ≡ ok 2)
unfolding bytes_eq credential validate_totp create_session_pair new_manager
post_login_mfa-any_secret_example =
    post_login_mfa-any_secret plain (bare post) chosen_step server challenge bob default_kdf_params
      (1 ∷ []) (1 ∷ []) drawn drawn_next (λ n. refl) refl refl refl refl refl refl refl

abbrev new_account : RegisterRequest
new_account = record {
  email = codes "carol";
  auth_hash = 1 ∷ [];
  protected_symmetric_key = 1 ∷ [];
  kdf = default_kdf_params;
}

post_register_silent_example :
    (post_register plain (bare post) (some new_account) (with_users [] server)).0
    ≡ (post_register plain (bare post) (some new_account) server).0
post_register_silent_example =
    post_register_silent plain (bare post) (some new_account) [] server (λ n. refl)

delete_user_erases_example :
    let (out, t) = delete_user plain (of delete 1) server in
    (out ≡ stop (response 204 no_body))
    × IsErased 1 t.db
    × (t.db.audit_events ≡ update_where (λ ev. true) (forget_user 1) server.db.audit_events)
    × (t.cookies ≡ server.cookies ++ clear_access ∷ clear_refresh ∷ [])
delete_user_erases_example = delete_user_erases plain (of delete 1) 1 server (λ n. refl) refl

abbrev new_item : NewItem
new_item = record { ciphertext = 1 ∷ []; item_type = codes "note" }

abbrev change : UpdateItem
change = record { ciphertext = 1 ∷ []; item_type = none; current_revision = 1 }

requests_separate_example :
    let theirs = of_user 2 server.db.items in
    (of_user 2 (create_item plain (of post 1) (some new_item) server).1.db.items ≡ theirs)
    × (of_user 2 (update_item plain (of post 1) 22 (some change) server).1.db.items ≡ theirs)
    × (of_user 2 (delete_item plain (of post 1) 22 server).1.db.items ≡ theirs)
requests_separate_example =
    requests_separate plain (of post 1) 1 2 server (some new_item) 22 (some change) refl refl

get_activity-page_of_example :
    (get_activity (of get 1) (codes "2") none server).0
    ≡ shows (page_of (query_limit (codes "2")) (timeline 1 none server.db.audit_events))
unfolding query_limit
get_activity-page_of_example =
    get_activity-page_of (of get 1) (codes "2") none server 1 refl refl (omega arith) (omega arith)

get_activity-overlong_example :
    (get_activity (of get 1) (codes "200") none server).0
    ≡ shows (take 51 (timeline 1 none server.db.audit_events), none)
unfolding query_limit
get_activity-overlong_example =
    get_activity-overlong (of get 1) (codes "200") none server 1 refl refl (omega arith)

abbrev enrolment : Enroll2faRequest
enrolment = record { totp_secret = 1 ∷ []; totp_code = 2 ∷ []; protected_totp_secret = 3 ∷ [] }

enroll_once_example :
    SameFactors server (post_user_2fa_enroll plain (of post 2) (some enrolment) server).1
enroll_once_example = enroll_once plain (of post 2) (some enrolment) server 2 bob refl refl refl

abbrev disabling : Disable2faRequest
disabling = record { totp_code = some (2 ∷ []); totp_secret = some (1 ∷ []); recovery_code = none }

abbrev renewal : RegenerateRecoveryCodesRequest
renewal = record { totp_secret = 1 ∷ []; totp_code = 2 ∷ [] }

wrong_code_keeps_example :
    SameFactors server (post_user_2fa_enroll plain (of post 2) (some enrolment) server).1
    × SameFactors server (delete_user_2fa plain (of post 2) (some disabling) server).1
    × SameFactors server (post_user_2fa_recovery_codes plain (of post 2) (some renewal) server).1
unfolding bytes_eq credential validate_totp
wrong_code_keeps_example =
    wrong_code_keeps plain (of post 2) server enrolment disabling renewal (2 ∷ []) (1 ∷ []) refl
      refl refl refl

abbrev new_key : UpdateKeyRequest
new_key = record {
  auth_hash = codes "better";
  protected_symmetric_key = 6 ∷ [];
  kdf = default_kdf_params;
}

put_user_key-Rekeyed_example :
    let t = (put_user_key plain (of put 1) (some new_key) server).1 in
    ((u' : User) × (user_by_id 1 t.db.users ≡ some u') × Rekeyed plain new_key (codes "better") u')
    × (t.db.items ≡ server.db.items)
    × (t.db.sessions ≡ server.db.sessions)
unfolding put_user_key
put_user_key-Rekeyed_example =
    put_user_key-Rekeyed plain (of put 1) new_key server 1 alice (codes "better") refl refl refl
      refl
