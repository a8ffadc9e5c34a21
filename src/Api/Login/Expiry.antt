-- ===== src/Api/Login/Expiry.antt =====
-- The five minutes of a challenge, internal/api/handlers_phase5.go createMFAToken and PostLoginMfa over
-- internal/storage/sqlcgen/mfa.sql.go.
use go_vault.Prelude.{
  ℕ, ◌+◌, ◌*◌, ◌≤◌, ◌<◌, ◌≡◌, refl, List, [], ◌∷◌, none, some, false, arith, Bytes, ltb,
  bytes_eq_refl, find, find-append_none, if◌then◌else◌, suc,
}
use go_vault.Errors.{not_found, ok, err}
use go_vault.Primitives.{Primitives}
use go_vault.Storage.Db.{MfaChallenge, Db}
use go_vault.Storage.Mfa.{is_live, challenge_by_hash, consume_challenge}
use go_vault.Auth.Lockout.{minute}
use go_vault.Auth.Session.Rotation.{IsUp, at_time}
use go_vault.Crypto.Kdf.{is_empty}
use go_vault.Api.Server.{Request, Server, stop, response, error}
use go_vault.Api.Login.{
  LoginMfaRequest, create_mfa_token, challenge_consumed, post_login_mfa, mfa_challenge_ttl,
}
use go_vault.Api.Login.SecondFactor.{SignsNobodyIn, with_db}

-- A hash that no row has belongs to no live challenge.
find_live_none :
    (hash : Bytes) (now : ℕ) (rows : List MfaChallenge)
    → challenge_by_hash hash rows ≡ none
    → find (is_live hash now) rows ≡ none
find_live_none hash now [] h = refl
find_live_none hash now (c ∷ rows) h = ground (arith, find_live_none hash now rows)

-- What ConsumeChallenge answers with a new token, at any time.
consume-create_mfa_token :
    (p : Primitives) (db : Db) (user_id : ℕ) (token : Bytes) (t : ℕ)
    → IsUp db
    → (create_mfa_token p user_id db).0 ≡ ok token
    → (consume_challenge (p.sha256 token) (at_time t (create_mfa_token p user_id db).1)).0
      ≡ (if ltb t (db.now + mfa_challenge_ttl) then ok user_id else err not_found)
unfolding create_mfa_token consume_challenge
consume-create_mfa_token p db user_id token t up h = ground (
  arith,
  up db.queries,
  up (suc db.queries),
  bytes_eq_refl (p.sha256 token),
  find_live_none (p.sha256 token) t db.challenges,
  find-append_none (is_live (p.sha256 token) t) db.challenges row,
)
  where
    row : MfaChallenge
    row = record {
      id = db.next_id;
      user_id = user_id;
      token_hash = p.sha256 token;
      expires_at = db.now + mfa_challenge_ttl;
    }

refused_with :
    (p : Primitives) (r : Request) (body : LoginMfaRequest) (s : Server)
    → is_empty body.mfa_token ≡ false
    → (consume_challenge (p.sha256 body.mfa_token) s.db).0 ≡ err not_found
    → let u = post_login_mfa p r (some body) s in
      (u.0 ≡ stop (response 401 (error "invalid or expired MFA challenge"))) × SignsNobodyIn s u.1
unfolding post_login_mfa consume_challenge challenge_consumed
refused_with p r body s given gone = ground arith

-- A challenge token that is made at a time is good for its user at any time less than five minutes
-- later, and from five minutes on PostLoginMfa answers 401 to it, makes no session and writes no cookie.
-- The token is not empty, and the database can be reached.
pub post_login_mfa-expired :
    (p : Primitives) (r : Request) (body : LoginMfaRequest) (s : Server) (user_id early late : ℕ)
    → IsUp s.db
    → (create_mfa_token p user_id s.db).0 ≡ ok body.mfa_token
    → is_empty body.mfa_token ≡ false
    → early < s.db.now + 5 * minute
    → s.db.now + 5 * minute ≤ late
    → let made = (create_mfa_token p user_id s.db).1 in
      let s' = with_db (at_time late made) s in
      let u = post_login_mfa p r (some body) s' in
      ((consume_challenge (p.sha256 body.mfa_token) (at_time early made)).0 ≡ ok user_id)
      × (u.0 ≡ stop (response 401 (error "invalid or expired MFA challenge")))
      × SignsNobodyIn s' u.1
post_login_mfa-expired p r body s user_id early late up made given before after =
    let made_db = (create_mfa_token p user_id s.db).1 in
    let refusal =
      refused_with p r body (with_db (at_time late made_db) s) given
        (ground (arith, consume-create_mfa_token p s.db user_id body.mfa_token late up made)) in
    (
      ground (arith, consume-create_mfa_token p s.db user_id body.mfa_token early up made),
      refusal.0,
      refusal.1,
    )
