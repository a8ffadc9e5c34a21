-- ===== src/Api/Router/Guards.antt =====
-- The guards of internal/api/router.go: which requests reach a handler.
use go_vault.Prelude.{Bool, true, false, [], none, ◌≡◌, codes, bytes_eq, ◌≢◌, ◌∙◌, ap}
use go_vault.Primitives.{Primitives}
use go_vault.Api.Server.{options, Request, Server}
use go_vault.Api.Router.{
  chain, is_safe, require_csrf, Endpoint, method_of, handler, guards, route, serve,
}
use go_vault.Api.Router.Refusal.{
  result_of, Refused, LacksCsrf, NoSession, ne_options, plain-Refused, behind-Refused,
  guarded-Refused,
}

-- Whether a route is behind sessionAuth, by its kind.
abbrev pub is_guarded : Endpoint → Bool
is_guarded Endpoint.health = false
is_guarded Endpoint.ready = false
is_guarded (Endpoint.register b) = false
is_guarded (Endpoint.login_kdf_params q) = false
is_guarded (Endpoint.login b) = false
is_guarded (Endpoint.login_mfa b) = false
is_guarded Endpoint.auth_refresh = false
is_guarded e = true

route_lacking :
    (p : Primitives) (e : Endpoint) (r : Request) (s : Server)
    → is_safe (method_of e) ≡ false
    → r.method ≢ options
    → LacksCsrf r
    → Refused s (result_of (route p e) r s)
unfolding route chain guards
route_lacking p Endpoint.health r s unsafe ne lacks = cc
route_lacking p Endpoint.ready r s unsafe ne lacks = cc
route_lacking p (Endpoint.login_kdf_params q) r s unsafe ne lacks = cc
route_lacking p (Endpoint.activity q c) r s unsafe ne lacks = cc
route_lacking p Endpoint.get_items r s unsafe ne lacks = cc
route_lacking p Endpoint.get_snapshot r s unsafe ne lacks = cc
route_lacking p (Endpoint.register b) r s unsafe ne lacks =
    plain-Refused p (handler p (Endpoint.register b)) r s ne lacks
route_lacking p (Endpoint.login b) r s unsafe ne lacks =
    plain-Refused p (handler p (Endpoint.login b)) r s ne lacks
route_lacking p (Endpoint.login_mfa b) r s unsafe ne lacks =
    plain-Refused p (handler p (Endpoint.login_mfa b)) r s ne lacks
route_lacking p Endpoint.auth_refresh r s unsafe ne lacks =
    plain-Refused p (handler p Endpoint.auth_refresh) r s ne lacks
route_lacking p Endpoint.logout r s unsafe ne lacks =
    behind-Refused p (handler p Endpoint.logout) r s ne lacks
route_lacking p Endpoint.remove_user r s unsafe ne lacks =
    behind-Refused p (handler p Endpoint.remove_user) r s ne lacks
route_lacking p (Endpoint.user_key b) r s unsafe ne lacks =
    behind-Refused p (handler p (Endpoint.user_key b)) r s ne lacks
route_lacking p (Endpoint.enroll_2fa b) r s unsafe ne lacks =
    behind-Refused p (handler p (Endpoint.enroll_2fa b)) r s ne lacks
route_lacking p (Endpoint.disable_2fa b) r s unsafe ne lacks =
    behind-Refused p (handler p (Endpoint.disable_2fa b)) r s ne lacks
route_lacking p (Endpoint.regenerate_codes b) r s unsafe ne lacks =
    behind-Refused p (handler p (Endpoint.regenerate_codes b)) r s ne lacks
route_lacking p (Endpoint.post_item b) r s unsafe ne lacks =
    behind-Refused p (handler p (Endpoint.post_item b)) r s ne lacks
route_lacking p (Endpoint.put_item i b) r s unsafe ne lacks =
    behind-Refused p (handler p (Endpoint.put_item i b)) r s ne lacks
route_lacking p (Endpoint.remove_item i) r s unsafe ne lacks =
    behind-Refused p (handler p (Endpoint.remove_item i)) r s ne lacks

route_without_session :
    (p : Primitives) (e : Endpoint) (r : Request) (s : Server)
    → is_guarded e ≡ true
    → r.method ≢ options
    → NoSession p s r.access
    → Refused s (result_of (route p e) r s)
unfolding route chain guards
route_without_session p Endpoint.health r s g ne missing = cc
route_without_session p Endpoint.ready r s g ne missing = cc
route_without_session p (Endpoint.login_kdf_params q) r s g ne missing = cc
route_without_session p (Endpoint.register b) r s g ne missing = cc
route_without_session p (Endpoint.login b) r s g ne missing = cc
route_without_session p (Endpoint.login_mfa b) r s g ne missing = cc
route_without_session p Endpoint.auth_refresh r s g ne missing = cc
route_without_session p (Endpoint.activity q c) r s g ne missing =
    guarded-Refused p (handler p (Endpoint.activity q c)) r s ne missing
route_without_session p Endpoint.get_items r s g ne missing =
    guarded-Refused p (handler p Endpoint.get_items) r s ne missing
route_without_session p Endpoint.get_snapshot r s g ne missing =
    guarded-Refused p (handler p Endpoint.get_snapshot) r s ne missing
route_without_session p Endpoint.logout r s g ne missing =
    guarded-Refused p (require_csrf (handler p Endpoint.logout)) r s ne missing
route_without_session p Endpoint.remove_user r s g ne missing =
    guarded-Refused p (require_csrf (handler p Endpoint.remove_user)) r s ne missing
route_without_session p (Endpoint.user_key b) r s g ne missing =
    guarded-Refused p (require_csrf (handler p (Endpoint.user_key b))) r s ne missing
route_without_session p (Endpoint.enroll_2fa b) r s g ne missing =
    guarded-Refused p (require_csrf (handler p (Endpoint.enroll_2fa b))) r s ne missing
route_without_session p (Endpoint.disable_2fa b) r s g ne missing =
    guarded-Refused p (require_csrf (handler p (Endpoint.disable_2fa b))) r s ne missing
route_without_session p (Endpoint.regenerate_codes b) r s g ne missing =
    guarded-Refused p (require_csrf (handler p (Endpoint.regenerate_codes b))) r s ne missing
route_without_session p (Endpoint.post_item b) r s g ne missing =
    guarded-Refused p (require_csrf (handler p (Endpoint.post_item b))) r s ne missing
route_without_session p (Endpoint.put_item i b) r s g ne missing =
    guarded-Refused p (require_csrf (handler p (Endpoint.put_item i b))) r s ne missing
route_without_session p (Endpoint.remove_item i) r s g ne missing =
    guarded-Refused p (require_csrf (handler p (Endpoint.remove_item i))) r s ne missing

-- A request to a route that changes state, by its own method and with an X-Vault-CSRF header that is
-- not "1", gets 403, or 401 or 500 where the session guard comes first; no table, limiter, lockout or
-- alert changes, and no cookie is set. This holds whatever session the request carries.
pub serve_without_csrf :
    (p : Primitives) (e : Endpoint) (r : Request) (s : Server)
    → is_safe (method_of e) ≡ false
    → r.method ≡ method_of e
    → bytes_eq r.csrf_header (codes "1") ≡ false
    → Refused (record s { cookies = [] }) (serve p e r s)
unfolding serve
serve_without_csrf p e r s unsafe m missing =
    route_lacking p e (record r { user_id = none }) (record s { cookies = [] }) unsafe
      (ne_options e r.method m) (ap is_safe m ∙ unsafe, missing)

-- A request to a route behind the session guard, by its own method, whose access cookie is missing or
-- fails ValidateAccess (unknown, expired, or a database failure) is refused in the same way: the
-- handler does not run.
pub serve_without_session :
    (p : Primitives) (e : Endpoint) (r : Request) (s : Server)
    → is_guarded e ≡ true
    → r.method ≡ method_of e
    → NoSession p s r.access
    → Refused (record s { cookies = [] }) (serve p e r s)
unfolding serve
serve_without_session p e r s g m missing =
    route_without_session p e (record r { user_id = none }) (record s { cookies = [] }) g
      (ne_options e r.method m) missing
