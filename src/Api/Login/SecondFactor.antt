-- ===== src/Api/Login/SecondFactor.antt =====
-- The second step of a login, internal/api/handlers_phase5.go PostLoginMfa.
use go_vault.Prelude.{ℕ, ◌≡◌, true, false, Option, none, some, arith, Bytes, find, filter, not, suc}
use go_vault.Errors.{ok}
use go_vault.Primitives.{Primitives}
use go_vault.Storage.Db.{MfaChallenge, Db, statement, mfa_failure, no_metadata}
use go_vault.Storage.Mfa.{consume_challenge, consume_mfa_challenge}
use go_vault.Mfa.{validate_totp}
use go_vault.Storage.Mfa.{is_live}
use go_vault.Crypto.Kdf.{is_empty}
use go_vault.Api.Server.{Request, Server, stop, response, error}
use go_vault.Api.Login.{
  LoginMfaRequest, by_totp, credential, verify_second_factor, second_factor_refused,
  second_factor_verified, challenge_consumed, post_login_mfa,
}
use go_vault.Api.Reply.Recording.{record_event-Recorded}

-- Nobody has been signed in.
pub record SignsNobodyIn (s t : Server) : Type 0 where
  pub sessions : t.db.sessions ≡ s.db.sessions
  pub cookies : t.cookies ≡ s.cookies

abbrev pub with_db : Db → Server → Server
with_db db s = record s { db = db }

module _ (p : Primitives) (r : Request) where
  refused :
      (user_id : ℕ) (s : Server)
      → ((second_factor_refused p r user_id s).0 ≡ stop (response 401 (error "invalid MFA code")))
        × SignsNobodyIn s (second_factor_refused p r user_id s).1
        × ((second_factor_refused p r user_id s).1.db.challenges ≡ s.db.challenges)
  unfolding second_factor_refused
  refused user_id s =
      ground (arith, record_event-Recorded p r (some user_id) mfa_failure none no_metadata s)

  wrong_code :
      (user_id : ℕ) (body : LoginMfaRequest) (code secret : Bytes) (s : Server)
      → credential body.recovery_code body.totp_code body.totp_secret ≡ by_totp code secret
      → validate_totp p s.db.now secret code ≡ false
      → challenge_consumed p r body (ok user_id) s ≡ second_factor_refused p r user_id s
  unfolding challenge_consumed verify_second_factor
  wrong_code user_id body code secret s given valid = ground arith

  pub right_code :
      (user_id : ℕ) (body : LoginMfaRequest) (code secret : Bytes) (s : Server)
      → credential body.recovery_code body.totp_code body.totp_secret ≡ by_totp code secret
      → validate_totp p s.db.now secret code ≡ true
      → challenge_consumed p r body (ok user_id) s ≡ second_factor_verified p r user_id s
  unfolding challenge_consumed verify_second_factor
  right_code user_id body code secret s given valid = ground arith

-- The challenge of a token, at the time of the request.
abbrev pub challenge_of : Primitives → LoginMfaRequest → Server → Option MfaChallenge
challenge_of p body s = find (is_live (p.sha256 body.mfa_token) s.db.now) s.db.challenges

-- The tables without the challenge, when a number of statements have been made.
abbrev pub challenge_spent : Primitives → LoginMfaRequest → ℕ → Server → Server
challenge_spent p body queries s =
    with_db
      (record s.db {
        challenges =
            filter (λ c. not (is_live (p.sha256 body.mfa_token) s.db.now c)) s.db.challenges;
        queries = queries;
      })
      s

-- With a live challenge and a code that does not fit the secret it came with, the answer is 401: no
-- session is made, no cookie is written, and the challenge is gone. The database can be reached.
pub post_login_mfa-wrong_code :
    (p : Primitives) (r : Request) (body : LoginMfaRequest) (s : Server) (c : MfaChallenge)
    (code secret : Bytes)
    → s.db.outage s.db.queries ≡ false
    → is_empty body.mfa_token ≡ false
    → challenge_of p body s ≡ some c
    → credential body.recovery_code body.totp_code body.totp_secret ≡ by_totp code secret
    → validate_totp p s.db.now secret code ≡ false
    → let t = post_login_mfa p r (some body) s in
      (t.0 ≡ stop (response 401 (error "invalid MFA code")))
      × SignsNobodyIn s t.1
      × (t.1.db.challenges ≡ (challenge_spent p body (suc s.db.queries) s).db.challenges)
unfolding post_login_mfa consume_challenge consume_mfa_challenge statement
post_login_mfa-wrong_code p r body s c code secret up token live given wrong =
    let spent = challenge_spent p body (suc s.db.queries) s in
    let same = wrong_code p r c.user_id body code secret spent given wrong in
    let out = refused p r c.user_id spent in
    (ground (arith, same, out), ground (arith, same, out), ground (arith, same, out))
