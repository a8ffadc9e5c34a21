-- ===== src/Api/Keeps/Refresh.antt =====
-- What the handlers of the refresh and of the logout keep of the tables.
use go_vault.Prelude.{ℕ, Option, none, some, Bytes}
use go_vault.Errors.{session_invalid, Result, ok, err}
use go_vault.Primitives.{Primitives}
use go_vault.Storage.Db.{Db, logout, no_metadata}
use go_vault.Storage.Closed.{Closed}
use go_vault.Auth.Session.Keeps.{refresh_session-Keeps, revoke_session-Keeps}
use go_vault.Api.Server.{Request}
use go_vault.Api.Keeps.{
  HandlerKeeps, h_pure, h_reply, h_gets, h_or_reply, h_call, h_bind, h_then,
  set_auth_cookies-HandlerKeeps, clear_auth_cookies-HandlerKeeps, record_event-HandlerKeeps,
}
use go_vault.Api.Login.{
  cookie_value, refreshed, post_auth_refresh, revoke_cookie, record_logout, post_logout,
}

module _ {P : Db → Type 0} (c : Closed P) (p : Primitives) (r : Request) where
  refreshed-HandlerKeeps : (rotated : Result (Bytes × Bytes)) → HandlerKeeps P (refreshed p rotated)
  unfolding refreshed
  refreshed-HandlerKeeps (ok (access, refresh)) =
      h_then (set_auth_cookies-HandlerKeeps access refresh) (h_reply _ _)
  refreshed-HandlerKeeps (err session_invalid) =
      h_then clear_auth_cookies-HandlerKeeps (h_reply _ _)
  refreshed-HandlerKeeps (err e) = h_reply _ _

  pub post_auth_refresh-HandlerKeeps : HandlerKeeps P (post_auth_refresh p r)
  unfolding post_auth_refresh
  post_auth_refresh-HandlerKeeps = h_bind (h_or_reply (cookie_value r.refresh) _ _) λ token.
      h_bind (h_gets (λ s. s.auth))
        λ m. h_bind (h_call (refresh_session-Keeps c p m token)) refreshed-HandlerKeeps

  revoke_cookie-HandlerKeeps : (cookie : Option Bytes) → HandlerKeeps P (revoke_cookie p cookie)
  unfolding revoke_cookie
  revoke_cookie-HandlerKeeps none = h_pure tt
  revoke_cookie-HandlerKeeps (some token) =
      h_then (h_call (revoke_session-Keeps c p token)) (h_pure tt)

  record_logout-HandlerKeeps : (user_id : Option ℕ) → HandlerKeeps P (record_logout p r user_id)
  unfolding record_logout
  record_logout-HandlerKeeps none = h_pure tt
  record_logout-HandlerKeeps (some user_id) =
      record_event-HandlerKeeps c p r (some user_id) logout none no_metadata

  pub post_logout-HandlerKeeps : HandlerKeeps P (post_logout p r)
  unfolding post_logout
  post_logout-HandlerKeeps = h_then (revoke_cookie-HandlerKeeps r.access) (
      h_then clear_auth_cookies-HandlerKeeps
        (h_then (record_logout-HandlerKeeps r.user_id) (h_reply _ _)))
