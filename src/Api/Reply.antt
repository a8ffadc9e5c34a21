-- ===== src/Api/Reply.antt =====
-- internal/api/audit.go recordEvent, cookies.go, and the checks that the handlers share.
pub mod Recording
use go_vault.Prelude.{
  ℕ, ◌+◌, Bool, true, false, not, List, [], ◌∷◌, ◌++◌, Option, none, some, Bytes, quotient,
}
use go_vault.Errors.{Result, ok, err}
use go_vault.Primitives.{Primitives}
use go_vault.Storage.Db.{EventType, login_success, login_failure, Metadata}
use go_vault.Storage.Audit.{append, record_device_hash}
use go_vault.Auth.Manager.{record_login_failure as record_failure}
use go_vault.Auth.Lockout.{second}
use go_vault.Alerts.{Notice, new_device, hash_user_agent, record_login_failure, reset_failures}
use go_vault.Crypto.Kdf.{is_empty}
use go_vault.Api.Server.{
  access_cookie, refresh_cookie, clear_access, clear_refresh, Request, Handler, ◌>>=◌, ◌>>◌, pure,
  reply_if, call, modify, error, client_ip, next,
}

-- The MaxAge of a cookie is in whole seconds, towards zero: net/http writes none for 0, and a negative one
-- deletes the cookie.
unfoldable pub set_auth_cookies : Bytes → Bytes → Handler (Unit {0})
set_auth_cookies access refresh s = (
  next tt,
  record s {
    cookies =
        s.cookies
        ++ access_cookie access (quotient s.auth.access_ttl second)
          ∷ refresh_cookie refresh (quotient s.auth.refresh_ttl second)
          ∷ [];
  },
)

unfoldable pub clear_auth_cookies : Handler (Unit {0})
clear_auth_cookies s =
    (next tt, record s { cookies = s.cookies ++ clear_access ∷ clear_refresh ∷ [] })

-- RecordLoginFailure of the manager, and the sleep.
unfoldable pub delay_login : Bytes → Handler (Unit {0})
delay_login email s =
    let (delay, m) = record_failure s.auth s.db.now email in
    (next tt, record s { auth = m; slept = s.slept + delay })

-- A notice if the device is new; an error is passed over.
abbrev pub device_notice : ℕ → Bytes → Result Bool → List Notice
device_notice id ua (ok true) = new_device id ua ∷ []
device_notice id ua (ok false) = []
device_notice id ua (err e) = []

module _ (p : Primitives) where
  unfoldable pub note_failure : ℕ → Bytes → Handler (Unit {0})
  note_failure id ip s =
      let (raised, t) = record_login_failure s.alerts s.db.now id ip in
      (next tt, record s { alerts = t; notices = s.notices ++ raised })

  unfoldable pub note_device : ℕ → Bytes → Option Bytes → Handler (Unit {0})
  unfolding record_device_hash
  note_device id ua none = pure tt
  note_device id ua (some hash) = do
    r ← call (record_device_hash id hash)
    modify (λ s. record s { notices = s.notices ++ device_notice id ua r })

  -- What recordEvent does beyond the log, by the user and the event.
  unfoldable pub follow_up : Request → Option ℕ → EventType → Handler (Unit {0})
  unfolding note_failure note_device hash_user_agent
  follow_up r (some id) login_failure = note_failure id (client_ip p r)
  follow_up r (some id) login_success = do
    modify (λ s. record s { alerts = reset_failures s.alerts id })
    note_device id r.user_agent (hash_user_agent p r.user_agent)
  follow_up r user_id event_type = pure tt

  -- A failed append is only logged.
  unfoldable pub record_event :
      Request → Option ℕ → EventType → Option ℕ → Metadata → Handler (Unit {0})
  unfolding append follow_up
  record_event r user_id event_type resource_id metadata = do
    call (append user_id event_type (p.parse_ip (client_ip p r)) r.user_agent resource_id metadata)
    follow_up r user_id event_type

  -- `_, err := base64…DecodeString(s); err != nil`
  abbrev pub decodes : Bytes → Bool
  decodes text = elim (p.base64_decode text) [ none ↦ false | some b ↦ true ]

  -- validateCiphertext; the handlers prefix the message with the field's name.
  unfoldable pub validate_ciphertext : Bytes → Handler (Unit {0})
  validate_ciphertext ct = do
    reply_if (is_empty ct) 400 (error "ciphertext must not be empty")
    reply_if (not (decodes ct)) 400 (error "ciphertext must be valid base64 (standard, padded)")

  -- A non-empty auth_hash.
  abbrev pub decode_auth_hash : Bytes → Option Bytes
  decode_auth_hash text = elim (p.base64_decode text) [
    | none ↦ none
    | some [] ↦ none
    | some (c ∷ cs) ↦ some (c ∷ cs)
  ]
