-- ===== src/Api/Router.antt =====
-- internal/api/middleware.go and router.go. ServeMux itself is a parameter: an endpoint is the
-- pattern that it chose, with the body, the parameters and the path value decoded. Of the global
-- middleware, cors is here with its answer to a preflight request; all of it is in Api.Global.
pub mod Refusal
pub mod Guards
pub mod Keeps
pub mod History
use go_vault.Prelude.{
  ℕ, Bool, true, false, not, List, [], ◌∷◌, Option, none, some, if◌then◌else◌, Bytes, codes,
  bytes_eq,
}
use go_vault.Errors.{Error, session_invalid, Result, ok, err}
use go_vault.Primitives.{Primitives}
use go_vault.Storage.Db.{Session}
use go_vault.Auth.Session.{validate_access}
use go_vault.Api.Server.{
  Method, get, head, post, put, delete, options, other, Request, Response, response, Server,
  Outcome, next, stop, Handler, ◌>>=◌, ◌>>◌, pure, reply, reply_if, or_reply, call, error, no_body,
  internal_error, authentication_required,
}
use go_vault.Api.Register.{
  RegisterRequest, post_register, query_login_kdf_params, get_health, get_ready,
}
use go_vault.Api.Login.{
  LoginRequest, LoginMfaRequest, post_login, post_login_mfa, post_auth_refresh, post_logout,
}
use go_vault.Api.Account.{UpdateKeyRequest, delete_user, put_user_key}
use go_vault.Api.TwoFactor.{
  Enroll2faRequest, Disable2faRequest, RegenerateRecoveryCodesRequest, post_user_2fa_enroll,
  delete_user_2fa, post_user_2fa_recovery_codes,
}
use go_vault.Api.Vault.{
  NewItem, UpdateItem, list_items, create_item, update_item, delete_item, get_sync,
}
use go_vault.Api.Activity.{get_activity}

-- http.Handler
abbrev pub Serve : Type 0
Serve = Request → Handler (Unit {0})

abbrev pub Middleware : Type 0
Middleware = Serve → Serve

-- The first middleware of the list runs outermost.
unfoldable pub chain : {A : Type 0} → A → List (A → A) → A
chain h [] = h
chain h (m ∷ ms) = m (chain h ms)

-- The methods that requireCSRF lets through.
abbrev pub is_safe : Method → Bool
is_safe get = true
is_safe head = true
is_safe options = true
is_safe m = false

unfoldable pub require_csrf : Middleware
require_csrf inner r =
    if is_safe r.method
    then inner r
    else if bytes_eq r.csrf_header (codes "1")
    then inner r
    else reply 403 (error "CSRF check failed")

-- The end of sessionAuth, by the result of ValidateAccess.
unfoldable pub with_session : Serve → Request → Result Session → Handler (Unit {0})
with_session inner r (ok s) = inner (record r { user_id = some s.user_id })
with_session inner r (err session_invalid) = reply 401 authentication_required
with_session inner r (err e) = reply 500 internal_error

-- The access cookie of the request, if there is one.
unfoldable pub authenticate : Primitives → Serve → Request → Option Bytes → Handler (Unit {0})
unfolding validate_access with_session
authenticate p inner r none = reply 401 authentication_required
authenticate p inner r (some token) = do
  found ← call (validate_access p token)
  with_session inner r found

unfoldable pub session_auth : Primitives → Middleware
unfolding authenticate
session_auth p inner r = authenticate p inner r r.access

-- A preflight request is answered by cors itself.
unfoldable pub preflight : Serve → Request → Method → Handler (Unit {0})
preflight inner r options = reply 204 no_body
preflight inner r m = inner r

unfoldable pub cors : Middleware
unfolding preflight
cors inner r = preflight inner r r.method

-- The patterns of NewRouter, but the two of the API docs. A path id is `none` if it is no UUID.
pub data Endpoint : Type 0 where
  health ready : Endpoint
  register : Option RegisterRequest → Endpoint
  login_kdf_params : Bytes → Endpoint
  login : Option LoginRequest → Endpoint
  login_mfa : Option LoginMfaRequest → Endpoint
  auth_refresh : Endpoint
  logout : Endpoint
  remove_user : Endpoint
  user_key : Option UpdateKeyRequest → Endpoint
  enroll_2fa : Option Enroll2faRequest → Endpoint
  disable_2fa : Option Disable2faRequest → Endpoint
  regenerate_codes : Option RegenerateRecoveryCodesRequest → Endpoint
  activity : Bytes → Option ℕ → Endpoint
  get_items : Endpoint
  post_item : Option NewItem → Endpoint
  put_item : Option ℕ → Option UpdateItem → Endpoint
  remove_item : Option ℕ → Endpoint
  get_snapshot : Endpoint

abbrev pub method_of : Endpoint → Method
method_of health = get
method_of ready = get
method_of (register b) = post
method_of (login_kdf_params q) = get
method_of (login b) = post
method_of (login_mfa b) = post
method_of auth_refresh = post
method_of logout = post
method_of remove_user = delete
method_of (user_key b) = put
method_of (enroll_2fa b) = post
method_of (disable_2fa b) = delete
method_of (regenerate_codes b) = post
method_of (activity q c) = get
method_of get_items = get
method_of (post_item b) = post
method_of (put_item i b) = put
method_of (remove_item i) = delete
method_of get_snapshot = get

-- withItemID
unfoldable pub with_item_id : (Request → ℕ → Handler (Unit {0})) → Option ℕ → Serve
with_item_id h raw r = do id ← or_reply raw 400 (error "invalid item id: must be a UUID"); h r id

module _ (p : Primitives) where
  unfoldable pub handler : Endpoint → Serve
  unfolding with_item_id
  handler health r = get_health
  handler ready r = get_ready
  handler (register b) r = post_register p r b
  handler (login_kdf_params q) r = query_login_kdf_params p q
  handler (login b) r = post_login p r b
  handler (login_mfa b) r = post_login_mfa p r b
  handler auth_refresh r = post_auth_refresh p r
  handler logout r = post_logout p r
  handler remove_user r = delete_user p r
  handler (user_key b) r = put_user_key p r b
  handler (enroll_2fa b) r = post_user_2fa_enroll p r b
  handler (disable_2fa b) r = delete_user_2fa p r b
  handler (regenerate_codes b) r = post_user_2fa_recovery_codes p r b
  handler (activity q c) r = get_activity r q c
  handler get_items r = list_items r
  handler (post_item b) r = create_item p r b
  handler (put_item i b) r = with_item_id (λ r' id. update_item p r' id b) i r
  handler (remove_item i) r = with_item_id (λ r' id. delete_item p r' id) i r
  handler get_snapshot r = get_sync p r

  -- The middleware of each route.
  unfoldable pub guards : Endpoint → List Middleware
  guards health = []
  guards ready = []
  guards (register b) = require_csrf ∷ []
  guards (login_kdf_params q) = []
  guards (login b) = require_csrf ∷ []
  guards (login_mfa b) = require_csrf ∷ []
  guards auth_refresh = require_csrf ∷ []
  guards logout = session_auth p ∷ require_csrf ∷ []
  guards remove_user = session_auth p ∷ require_csrf ∷ []
  guards (user_key b) = session_auth p ∷ require_csrf ∷ []
  guards (enroll_2fa b) = session_auth p ∷ require_csrf ∷ []
  guards (disable_2fa b) = session_auth p ∷ require_csrf ∷ []
  guards (regenerate_codes b) = session_auth p ∷ require_csrf ∷ []
  guards (activity q c) = session_auth p ∷ []
  guards get_items = session_auth p ∷ []
  guards (post_item b) = session_auth p ∷ require_csrf ∷ []
  guards (put_item i b) = session_auth p ∷ require_csrf ∷ []
  guards (remove_item i) = session_auth p ∷ require_csrf ∷ []
  guards get_snapshot = session_auth p ∷ []

  unfoldable pub route : Endpoint → Serve
  unfolding chain
  route e = cors (chain (handler e) (guards e))

-- The response, and the server afterwards with the cookies of this response. A fresh context names
-- no user.
abbrev pub written : Outcome (Unit {0}) → Response
written (next u) = response 200 no_body
written (stop resp) = resp

module _ (p : Primitives) where
  unfoldable pub serve : Endpoint → Request → Server → Response × Server
  unfolding route
  serve e r s =
      let (out, s') = route p e (record r { user_id = none }) (record s { cookies = [] }) in
      (written out, s')
