-- ===== src/Api/Keeps.antt =====
-- Properties of the tables that the handlers of internal/api keep, with a rule for each way of composing
-- them, and what recordEvent keeps.
pub mod Login
pub mod Refresh
pub mod Account
pub mod Vault
pub mod Register
use go_vault.Prelude.{
  ℕ, ◌≡◌, refl, Bool, true, false, Option, none, some, arith, if◌then◌else◌, Bytes, ◌++◌,
}
use go_vault.Errors.{Error, Result, ok, err}
use go_vault.Primitives.{Primitives}
use go_vault.Storage.Db.{Db, Query, EventType, login_success, login_failure, Metadata}
use go_vault.Storage.Keeps.{Keeps}
use go_vault.Storage.Closed.{Closed, append-Keeps, record_device_hash-Keeps}
use go_vault.Auth.Manager.{Manager}
use go_vault.Alerts.{reset_failures, hash_user_agent}
use go_vault.Crypto.Kdf.{is_empty}
use go_vault.Api.Server.{
  Request, Response, Server, Body, Outcome, next, stop, Handler, ◌>>=◌, ◌>>◌, pure, reply, reply_if,
  or_reply, ok_or_reply, call, ask_auth, gets, modify, error, client_ip,
}
use go_vault.Api.Reply.{
  set_auth_cookies, clear_auth_cookies, delay_login, note_failure, note_device, follow_up,
  record_event, validate_ciphertext, decodes, device_notice,
}

-- From tables with the property, the handler leaves tables with it, whatever it answers.
pub record HandlerKeeps (P : Db → Type 0) {A : Type 0} (m : Handler A) : Type 0 where
  pub at : (s : Server) → P s.db → P (m s).1.db

module _ {P : Db → Type 0} {A : Type 0} where
  pub h_pure : (a : A) → HandlerKeeps P (pure a)
  h_pure a = record { at = λ s h. h }

  pub h_reply : (status : ℕ) (body : Body) → HandlerKeeps P (reply {A = A} status body)
  h_reply status body = record { at = λ s h. h }

  pub h_gets : (f : Server → A) → HandlerKeeps P (gets f)
  h_gets f = record { at = λ s h. h }

  pub h_or_reply :
      (o : Option A) (status : ℕ) (body : Body) → HandlerKeeps P (or_reply o status body)
  h_or_reply none status body = record { at = λ s h. h }
  h_or_reply (some a) status body = record { at = λ s h. h }

  pub h_ok_or_reply :
      (r : Result A) (status : ℕ) (body : Body) → HandlerKeeps P (ok_or_reply r status body)
  h_ok_or_reply (err e) status body = record { at = λ s h. h }
  h_ok_or_reply (ok a) status body = record { at = λ s h. h }

  pub h_call : {q : Query A} → Keeps P q → HandlerKeeps P (call q)
  h_call k = record { at = λ s h. k.at s.db h }

  pub h_ask_auth : (f : Manager → ℕ → A × Manager) → HandlerKeeps P (ask_auth f)
  h_ask_auth f = record { at = λ s h. h }

  pub h_if :
      {m m' : Handler A} (c : Bool)
      → HandlerKeeps P m
      → HandlerKeeps P m'
      → HandlerKeeps P (if c then m else m')
  h_if true k k' = k
  h_if false k k' = k'

module _ {P : Db → Type 0} {A B : Type 0} where
  pub h_bind :
      {m : Handler A} {f : A → Handler B}
      → HandlerKeeps P m
      → ((a : A) → HandlerKeeps P (f a))
      → HandlerKeeps P (m >>= f)
  h_bind {m} {f} km kf = record { at = λ s h. go (m s) (km.at s h) }
    where
      go : (out : Outcome A × Server) → P out.1.db → P (◌>>=◌ (λ s. out) f out.1).1.db
      go (next a, s) h = (kf a).at s h
      go (stop resp, s) h = h

  pub h_then :
      {m : Handler A} {k : Handler B}
      → HandlerKeeps P m
      → HandlerKeeps P k
      → HandlerKeeps P (m >> k)
  h_then km kk = h_bind km (λ a. kk)

module _ {P : Db → Type 0} where
  pub h_reply_if : (c : Bool) (status : ℕ) (body : Body) → HandlerKeeps P (reply_if c status body)
  h_reply_if c status body = record { at = λ s h. h }

  pub h_modify :
      (f : Server → Server) → ((s : Server) → (f s).db ≡ s.db) → HandlerKeeps P (modify f)
  h_modify f same = record { at = λ s h. rw (same s) h }

  pub set_auth_cookies-HandlerKeeps :
      (access refresh : Bytes) → HandlerKeeps P (set_auth_cookies access refresh)
  unfolding set_auth_cookies
  set_auth_cookies-HandlerKeeps access refresh = record { at = λ s h. h }

  pub clear_auth_cookies-HandlerKeeps : HandlerKeeps P clear_auth_cookies
  unfolding clear_auth_cookies
  clear_auth_cookies-HandlerKeeps = record { at = λ s h. h }

  pub delay_login-HandlerKeeps : (email : Bytes) → HandlerKeeps P (delay_login email)
  unfolding delay_login
  delay_login-HandlerKeeps email = record { at = λ s h. h }

  pub validate_ciphertext-HandlerKeeps :
      (p : Primitives) (ct : Bytes) → HandlerKeeps P (validate_ciphertext p ct)
  unfolding validate_ciphertext
  validate_ciphertext-HandlerKeeps p ct = h_then (h_reply_if _ _ _) (h_reply_if _ _ _)

module _ {P : Db → Type 0} (c : Closed P) (p : Primitives) where
  note_device-HandlerKeeps :
      (id : ℕ) (ua : Bytes) (hash : Option Bytes) → HandlerKeeps P (note_device p id ua hash)
  unfolding note_device
  note_device-HandlerKeeps id ua none = h_pure tt
  note_device-HandlerKeeps id ua (some hash) =
      h_bind (h_call (record_device_hash-Keeps c id hash))
        λ r. h_modify (λ s. record s { notices = s.notices ++ device_notice id ua r }) (λ s. refl)

  follow_up-HandlerKeeps :
      (r : Request) (user_id : Option ℕ) (e : EventType) → HandlerKeeps P (follow_up p r user_id e)
  unfolding follow_up note_failure
  follow_up-HandlerKeeps r none e = h_pure tt
  follow_up-HandlerKeeps r (some id) login_failure = record { at = λ s h. h }
  follow_up-HandlerKeeps r (some id) login_success =
      h_then (h_modify (λ s. record s { alerts = reset_failures s.alerts id }) (λ s. refl))
        (note_device-HandlerKeeps id r.user_agent (hash_user_agent p r.user_agent))
  follow_up-HandlerKeeps r (some id) e = h_pure tt

  pub record_event-HandlerKeeps :
      (r : Request) (user_id : Option ℕ) (e : EventType) (resource : Option ℕ) (meta : Metadata)
      → HandlerKeeps P (record_event p r user_id e resource meta)
  unfolding record_event
  record_event-HandlerKeeps r user_id e resource meta =
      h_bind (h_call (append-Keeps c user_id e _ r.user_agent resource meta))
        (λ _. follow_up-HandlerKeeps r user_id e)
