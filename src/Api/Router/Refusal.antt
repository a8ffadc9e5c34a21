-- ===== src/Api/Router/Refusal.antt =====
-- What a refusal of the middleware of internal/api/middleware.go leaves alone.
use go_vault.Prelude.{
  ℕ, false, Option, none, some, ◌≡◌, refl, ◌⊎◌, inl, inr, arith, Bytes, codes, bytes_eq, ◌≢◌,
}
use go_vault.Errors.{Error, session_invalid, err, Result-cases}
use go_vault.Primitives.{Primitives}
use go_vault.Storage.Db.{Db}
use go_vault.Auth.Session.{validate_access}
use go_vault.Api.Server.{Method, get, options, Request, Response, Server}
use go_vault.Api.Frame.{SameTables, Untouched}
use go_vault.Api.Router.{
  Serve, is_safe, require_csrf, with_session, session_auth, cors, Endpoint, method_of, written,
  authenticate, preflight,
}

-- The outcome of a route as `serve` reports it.
abbrev pub result_of : Serve → Request → Server → Response × Server
result_of h r s = let (out, s') = h r s in (written out, s')

-- A refusal: nothing was touched, no cookie was set, and the status is one of those of the guards.
pub record Refused (s : Server) (result : Response × Server) : Type 0 where
  pub untouched : Untouched s result.1
  pub no_cookie : result.1.cookies ≡ s.cookies
  pub status : (result.0.status ≡ 403) ⊎ (result.0.status ≡ 401) ⊎ (result.0.status ≡ 500)

same : (s : Server) → Untouched s s
same s = record {
  tables = record {
    users = refl;
    sessions = refl;
    items = refl;
    recovery_codes = refl;
    challenges = refl;
    audit_events = refl;
    devices = refl;
  };
  auth = refl;
  alerts = refl;
  notices = refl;
}

abbrev pub LacksCsrf : Request → Type 0
LacksCsrf r = (is_safe r.method ≡ false) × (bytes_eq r.csrf_header (codes "1") ≡ false)

require_csrf-Refused :
    (h : Serve) (r : Request) (s : Server)
    → LacksCsrf r
    → Refused s (result_of (require_csrf h) r s)
unfolding require_csrf
require_csrf-Refused h r s (unsafe, missing) =
    rw (unsafe, missing) (record { untouched = same s; no_cookie = refl; status = inl refl })

-- Looking a session up changes no table.
validate_access-SameTables :
    (p : Primitives) (token : Bytes) (db : Db) → SameTables db (validate_access p token db).1
unfolding validate_access
validate_access-SameTables p token db = ground arith

with_session-failed :
    (h : Serve) (r : Request) (e : Error) (s : Server)
    → Refused s (result_of (λ q. with_session h q (err e)) r s)
unfolding with_session
with_session-failed h r session_invalid s = record {
  untouched = same s;
  no_cookie = refl;
  status = inr (inl refl);
}
with_session-failed h r e s = record {
  untouched = same s;
  no_cookie = refl;
  status = inr (inr refl);
}

-- A refusal after a step that touched nothing.
Refused-after :
    (s t : Server) (out : Response × Server)
    → Untouched s t
    → t.cookies ≡ s.cookies
    → Refused t out
    → Refused s out
Refused-after s t out u c f = ground arith

abbrev after_lookup : Primitives → Bytes → Server → Server
after_lookup p token s = record s { db = (validate_access p token s.db).1 }

looked_up : (p : Primitives) (token : Bytes) (s : Server) → Untouched s (after_lookup p token s)
looked_up p token s = record {
  tables = validate_access-SameTables p token s.db;
  auth = refl;
  alerts = refl;
  notices = refl;
}

-- Behind sessionAuth, a request is refused if the inner handler refuses it.
authenticate-Refused :
    (p : Primitives) (h : Serve) (r : Request) (access : Option Bytes) (s : Server)
    → ((user : ℕ) (t : Server) → Refused t (result_of h (record r { user_id = some user }) t))
    → Refused s (result_of (λ q. authenticate p h q access) r s)
unfolding authenticate with_session
authenticate-Refused p h r none s inner = record {
  untouched = same s;
  no_cookie = refl;
  status = inr (inl refl);
}
authenticate-Refused p h r (some token) s inner =
    elim (Result-cases (validate_access p token s.db).0) [
      | inl (session, found) ↦ rw found (
          Refused-after s (after_lookup p token s) _ (looked_up p token s) refl
            (inner session.user_id (after_lookup p token s)))
      | inr (failure, found) ↦ rw found (
          Refused-after s (after_lookup p token s) _ (looked_up p token s) refl
            (with_session-failed h r failure (after_lookup p token s)))
    ]

-- The access cookie opens no session: there is none, or ValidateAccess fails on it.
abbrev pub NoSession : Primitives → Server → Option Bytes → Type 0
NoSession p s none = Unit
NoSession p s (some token) = (failure : Error) × ((validate_access p token s.db).0 ≡ err failure)

-- With no usable session, it is refused whatever stands behind.
NoSession-Refused :
    (p : Primitives) (h : Serve) (r : Request) (access : Option Bytes) (s : Server)
    → NoSession p s access
    → Refused s (result_of (λ q. authenticate p h q access) r s)
unfolding authenticate with_session
NoSession-Refused p h r none s missing = record {
  untouched = same s;
  no_cookie = refl;
  status = inr (inl refl);
}
NoSession-Refused p h r (some token) s (failure, found) = rw found (
    Refused-after s (after_lookup p token s) _ (looked_up p token s) refl
      (with_session-failed h r failure (after_lookup p token s)))

-- A request that is no preflight goes through cors.
preflight-Refused :
    (h : Serve) (r : Request) (s : Server) (m : Method)
    → m ≢ options
    → Refused s (result_of h r s)
    → Refused s (result_of (λ q. preflight h q m) r s)
unfolding preflight
preflight-Refused h r s get ne f = f
preflight-Refused h r s options ne f = absurd (ne refl)
preflight-Refused h r s m ne f = f

pub ne_options : (e : Endpoint) (m : Method) → m ≡ method_of e → m ≢ options
ne_options Endpoint.health m h o = cc
ne_options Endpoint.ready m h o = cc
ne_options (Endpoint.login_kdf_params q) m h o = cc
ne_options (Endpoint.activity q c) m h o = cc
ne_options Endpoint.get_items m h o = cc
ne_options Endpoint.get_snapshot m h o = cc
ne_options (Endpoint.register b) m h o = cc
ne_options (Endpoint.login b) m h o = cc
ne_options (Endpoint.login_mfa b) m h o = cc
ne_options Endpoint.auth_refresh m h o = cc
ne_options Endpoint.logout m h o = cc
ne_options Endpoint.remove_user m h o = cc
ne_options (Endpoint.user_key b) m h o = cc
ne_options (Endpoint.enroll_2fa b) m h o = cc
ne_options (Endpoint.disable_2fa b) m h o = cc
ne_options (Endpoint.regenerate_codes b) m h o = cc
ne_options (Endpoint.post_item b) m h o = cc
ne_options (Endpoint.put_item i b) m h o = cc
ne_options (Endpoint.remove_item i) m h o = cc

module _ (p : Primitives) (h : Serve) (r : Request) (s : Server) (ne : r.method ≢ options) where
  pub plain-Refused : LacksCsrf r → Refused s (result_of (cors (require_csrf h)) r s)
  unfolding cors
  plain-Refused lacks =
      preflight-Refused (require_csrf h) r s r.method ne (require_csrf-Refused h r s lacks)

  pub behind-Refused :
      LacksCsrf r → Refused s (result_of (cors (session_auth p (require_csrf h))) r s)
  unfolding cors session_auth
  behind-Refused lacks = preflight-Refused (session_auth p (require_csrf h)) r s r.method ne (
      authenticate-Refused p (require_csrf h) r r.access s
        λ user t. require_csrf-Refused h (record r { user_id = some user }) t lacks)

  pub guarded-Refused : NoSession p s r.access → Refused s (result_of (cors (session_auth p h)) r s)
  unfolding cors session_auth
  guarded-Refused missing =
      preflight-Refused (session_auth p h) r s r.method ne
        (NoSession-Refused p h r r.access s missing)
