-- ===== src/Api/Router/Keeps.antt =====
-- What every request keeps of the tables, through the routes of internal/api/router.go and their
-- middleware, and what a history of the server does.
use go_vault.Prelude.{ℕ, List, [], ◌∷◌, Option, none, some, Bytes, All, bytes_eq, codes}
use go_vault.Errors.{session_invalid, Result, ok, err}
use go_vault.Primitives.{Primitives}
use go_vault.Storage.Db.{Session, Db}
use go_vault.Storage.Closed.{Closed}
use go_vault.Auth.Session.Keeps.{validate_access-Keeps}
use go_vault.Api.Server.{
  Method, options, Request, Server, authentication_required, internal_error, no_body, error,
  Handler,
}
use go_vault.Api.Vault.{update_item, delete_item}
use go_vault.Api.Keeps.{HandlerKeeps, h_reply, h_or_reply, h_call, h_bind, h_if}
use go_vault.Api.Keeps.Login.{post_login-HandlerKeeps, post_login_mfa-HandlerKeeps}
use go_vault.Api.Keeps.Refresh.{post_auth_refresh-HandlerKeeps, post_logout-HandlerKeeps}
use go_vault.Api.Keeps.Register.{post_register-HandlerKeeps, query_login_kdf_params-HandlerKeeps}
use go_vault.Api.Keeps.Account.{
  delete_user-HandlerKeeps, put_user_key-HandlerKeeps, post_user_2fa_enroll-HandlerKeeps,
  delete_user_2fa-HandlerKeeps, post_user_2fa_recovery_codes-HandlerKeeps,
}
use go_vault.Api.Keeps.Vault.{
  list_items-HandlerKeeps, get_activity-HandlerKeeps, get_health-HandlerKeeps,
  get_ready-HandlerKeeps, create_item-HandlerKeeps, update_item-HandlerKeeps,
  delete_item-HandlerKeeps, get_sync-HandlerKeeps,
}
use go_vault.Api.Router.{
  Serve, Middleware, chain, is_safe, require_csrf, with_session, authenticate, session_auth,
  preflight, cors, Endpoint, handler, with_item_id, guards, route, serve, health, ready, register,
  login_kdf_params, login, login_mfa, auth_refresh, logout, remove_user, user_key, enroll_2fa,
  disable_2fa, regenerate_codes, activity, get_items, post_item, put_item, remove_item,
  get_snapshot,
}

abbrev ServeKeeps : (Db → Type 0) → Serve → Type 0
ServeKeeps P h = (r : Request) → HandlerKeeps P (h r)

abbrev MiddlewareKeeps : (Db → Type 0) → Middleware → Type 0
MiddlewareKeeps P m = (h : Serve) → ServeKeeps P h → ServeKeeps P (m h)

chain-ServeKeeps :
    (P : Db → Type 0) (h : Serve) (ms : List Middleware)
    → ServeKeeps P h
    → All (MiddlewareKeeps P) ms
    → ServeKeeps P (chain h ms)
unfolding chain
chain-ServeKeeps P h [] kh km = kh
chain-ServeKeeps P h (m ∷ ms) kh (k, km) = k (chain h ms) (chain-ServeKeeps P h ms kh km)

module _ {P : Db → Type 0} where
  require_csrf-MiddlewareKeeps : MiddlewareKeeps P require_csrf
  unfolding require_csrf
  require_csrf-MiddlewareKeeps h kh r =
      h_if (is_safe r.method) (kh r)
        (h_if (bytes_eq r.csrf_header (codes "1")) (kh r) (h_reply 403 (error "CSRF check failed")))

  preflight-HandlerKeeps :
      (h : Serve) (r : Request) (m : Method) → ServeKeeps P h → HandlerKeeps P (preflight h r m)
  unfolding preflight
  preflight-HandlerKeeps h r options kh = h_reply 204 no_body
  preflight-HandlerKeeps h r m kh = kh r

  cors-MiddlewareKeeps : MiddlewareKeeps P cors
  unfolding cors
  cors-MiddlewareKeeps h kh r = preflight-HandlerKeeps h r r.method kh

  with_session-HandlerKeeps :
      (h : Serve) (r : Request) (found : Result Session)
      → ServeKeeps P h
      → HandlerKeeps P (with_session h r found)
  unfolding with_session
  with_session-HandlerKeeps h r (ok s) kh = kh (record r { user_id = some s.user_id })
  with_session-HandlerKeeps h r (err session_invalid) kh = h_reply 401 authentication_required
  with_session-HandlerKeeps h r (err e) kh = h_reply 500 internal_error

  with_item_id-HandlerKeeps :
      (h : Request → ℕ → Handler (Unit {0})) (raw : Option ℕ) (r : Request)
      → ((id : ℕ) → HandlerKeeps P (h r id))
      → HandlerKeeps P (with_item_id h raw r)
  unfolding with_item_id
  with_item_id-HandlerKeeps h raw r kh =
      h_bind (h_or_reply raw 400 (error "invalid item id: must be a UUID")) kh

module _ {P : Db → Type 0} (c : Closed P) (p : Primitives) where
  authenticate-HandlerKeeps :
      (h : Serve) (r : Request) (token : Option Bytes)
      → ServeKeeps P h
      → HandlerKeeps P (authenticate p h r token)
  unfolding authenticate
  authenticate-HandlerKeeps h r none kh = h_reply 401 authentication_required
  authenticate-HandlerKeeps h r (some token) kh =
      h_bind (h_call (validate_access-Keeps c p token))
        (λ found. with_session-HandlerKeeps h r found kh)

  session_auth-MiddlewareKeeps : MiddlewareKeeps P (session_auth p)
  unfolding session_auth
  session_auth-MiddlewareKeeps h kh r = authenticate-HandlerKeeps h r r.access kh

  handler-ServeKeeps : (e : Endpoint) → ServeKeeps P (handler p e)
  unfolding handler
  handler-ServeKeeps health r = get_health-HandlerKeeps c
  handler-ServeKeeps ready r = get_ready-HandlerKeeps c
  handler-ServeKeeps (register b) r = post_register-HandlerKeeps c p r b
  handler-ServeKeeps (login_kdf_params q) r = query_login_kdf_params-HandlerKeeps c p r q
  handler-ServeKeeps (login b) r = post_login-HandlerKeeps c p r b
  handler-ServeKeeps (login_mfa b) r = post_login_mfa-HandlerKeeps c p r b
  handler-ServeKeeps auth_refresh r = post_auth_refresh-HandlerKeeps c p r
  handler-ServeKeeps logout r = post_logout-HandlerKeeps c p r
  handler-ServeKeeps remove_user r = delete_user-HandlerKeeps c p r
  handler-ServeKeeps (user_key b) r = put_user_key-HandlerKeeps c p r b
  handler-ServeKeeps (enroll_2fa b) r = post_user_2fa_enroll-HandlerKeeps c p r b
  handler-ServeKeeps (disable_2fa b) r = delete_user_2fa-HandlerKeeps c p r b
  handler-ServeKeeps (regenerate_codes b) r = post_user_2fa_recovery_codes-HandlerKeeps c p r b
  handler-ServeKeeps (activity q k) r = get_activity-HandlerKeeps c r q k
  handler-ServeKeeps get_items r = list_items-HandlerKeeps c r
  handler-ServeKeeps (post_item b) r = create_item-HandlerKeeps c p r b
  handler-ServeKeeps (put_item i b) r =
      with_item_id-HandlerKeeps (λ r' id. update_item p r' id b) i r
        (λ id. update_item-HandlerKeeps c p r id b)
  handler-ServeKeeps (remove_item i) r =
      with_item_id-HandlerKeeps (λ r' id. delete_item p r' id) i r
        (λ id. delete_item-HandlerKeeps c p r id)
  handler-ServeKeeps get_snapshot r = get_sync-HandlerKeeps c p r

  abbrev Guarded : List Middleware → Type 0
  Guarded ms = All (MiddlewareKeeps P) ms

  session_and_csrf : Guarded (session_auth p ∷ require_csrf ∷ [])
  session_and_csrf = (session_auth-MiddlewareKeeps, (require_csrf-MiddlewareKeeps, tt))

  session_only : Guarded (session_auth p ∷ [])
  session_only = (session_auth-MiddlewareKeeps, tt)

  csrf_only : Guarded (require_csrf ∷ [])
  csrf_only = (require_csrf-MiddlewareKeeps, tt)

  guards-Guarded : (e : Endpoint) → Guarded (guards p e)
  unfolding guards
  guards-Guarded health = tt
  guards-Guarded ready = tt
  guards-Guarded (register b) = csrf_only
  guards-Guarded (login_kdf_params q) = tt
  guards-Guarded (login b) = csrf_only
  guards-Guarded (login_mfa b) = csrf_only
  guards-Guarded auth_refresh = csrf_only
  guards-Guarded logout = session_and_csrf
  guards-Guarded remove_user = session_and_csrf
  guards-Guarded (user_key b) = session_and_csrf
  guards-Guarded (enroll_2fa b) = session_and_csrf
  guards-Guarded (disable_2fa b) = session_and_csrf
  guards-Guarded (regenerate_codes b) = session_and_csrf
  guards-Guarded (activity q k) = session_only
  guards-Guarded get_items = session_only
  guards-Guarded (post_item b) = session_and_csrf
  guards-Guarded (put_item i b) = session_and_csrf
  guards-Guarded (remove_item i) = session_and_csrf
  guards-Guarded get_snapshot = session_only

  -- A property that every statement keeps is kept by every request.
  pub serve-keeps : (e : Endpoint) (r : Request) (s : Server) → P s.db → P (serve p e r s).1.db
  unfolding serve route
  serve-keeps e r s h =
      (cors-MiddlewareKeeps (chain (handler p e) (guards p e))
          (chain-ServeKeeps P (handler p e) (guards p e) (handler-ServeKeeps e) (guards-Guarded e))
          (record r { user_id = none })).at
        (record s { cookies = [] }) h
