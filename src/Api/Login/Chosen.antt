-- ===== src/Api/Login/Chosen.antt =====
-- A second factor of the caller's choice, internal/api/handlers_phase5.go PostLoginMfa.
use go_vault.Prelude.{
  ℕ, suc, ◌≡◌, ap, ◌∙◌, List, [], ◌∷◌, ◌++◌, none, some, true, false, arith, Bytes, ==_iff,
  quotient,
}
use go_vault.Errors.{ok}
use go_vault.Primitives.{Primitives, KdfParams}
use go_vault.Storage.Db.{User, MfaChallenge, Db, mfa_success, login_success, no_metadata, statement}
use go_vault.Storage.Mfa.{consume_challenge, consume_mfa_challenge}
use go_vault.Storage.Users.{user_by_id, get_by_id, get_user_by_id}
use go_vault.Auth.Lockout.{second}
use go_vault.Auth.Manager.{Manager}
use go_vault.Auth.Session.{create_session_pair, validate_access}
use go_vault.Auth.Session.Rotation.{IsUp, holder_of, held, lasts, at_time, create_opens}
use go_vault.Mfa.{validate_totp}
use go_vault.Crypto.Kdf.{is_empty}
use go_vault.Api.Server.{
  Request, Server, next, stop, response, logged_in, access_cookie, refresh_cookie,
}
use go_vault.Api.Login.{
  LoginMfaRequest, by_totp, credential, second_factor_verified, post_login_mfa, complete_login,
  session_created, login_decoded,
}
use go_vault.Api.Login.SecondFactor.{with_db, challenge_of, challenge_spent, right_code}
use go_vault.Api.Reply.{set_auth_cookies}
use go_vault.Api.Reply.Recording.{SameVault, record_event-Recorded}

id-user_by_id : (id : ℕ) (rows : List User) (u : User) → user_by_id id rows ≡ some u → u.id ≡ id
id-user_by_id id [] u h = cc
id-user_by_id id (v ∷ rows) u h = ground (arith, ==_iff v.id id, id-user_by_id id rows u)

-- ValidateAccess reads the sessions and the clock.
validate_access-SameVault :
    (p : Primitives) (token : Bytes) (a b : Db)
    → IsUp a
    → SameVault a b
    → (validate_access p token b).0 ≡ (validate_access p token a).0
unfolding validate_access
validate_access-SameVault p token a b up v = ground (arith, up a.queries, up b.queries)

-- CreateSessionPair changes neither the clock nor the failures of the database.
create_session_pair_clock :
    (p : Primitives) (m : Manager) (id : ℕ) (db : Db)
    → ((create_session_pair p m id db).1.now ≡ db.now)
      × ((create_session_pair p m id db).1.outage ≡ db.outage)
unfolding create_session_pair
create_session_pair_clock p m id db = ground arith

-- The tables of a new session, after steps that change none of them, let its access token in.
opens_after :
    (p : Primitives) (m : Manager) (db later : Db) (id : ℕ) (access refresh : Bytes)
    → IsUp db
    → (create_session_pair p m id db).0 ≡ ok (access, refresh)
    → SameVault (create_session_pair p m id db).1 later
    → holder_of (validate_access p access later).0 ≡ held (lasts db.now db.now m.access_ttl) id
opens_after p m db later id access refresh up made v =
    let after = (create_session_pair p m id db).1 in
    let (now, outage) = create_session_pair_clock p m id db in
    let same : SameVault (at_time db.now after) later = record {
      users = v.users;
      sessions = v.sessions;
      items = v.items;
      recovery_codes = v.recovery_codes;
      challenges = v.challenges;
      now = v.now ∙ now;
      outage = v.outage;
    } in
    ap holder_of (
      validate_access-SameVault p access (at_time db.now after) later (λ n. cc (outage, up n)) same)
    ∙ (create_opens p m db up id access refresh db.now made).0

module _ (p : Primitives) (r : Request) (u : User) (params : KdfParams)
    (decodes : p.kdf_of_json u.kdf_params ≡ some params) where
  -- The response, the cookies and the tables after completeLogin.
  complete_login_lem :
      (s : Server) (access refresh : Bytes)
      → (create_session_pair p s.auth u.id s.db).0 ≡ ok (access, refresh)
      → let t = complete_login p r u s in
        (t.0 ≡ next (response 200 (logged_in u.protected_symmetric_key params)))
        × (t.1.cookies
            ≡ s.cookies
              ++ access_cookie access (quotient s.auth.access_ttl second)
                ∷ refresh_cookie refresh (quotient s.auth.refresh_ttl second)
                ∷ [])
        × SameVault (create_session_pair p s.auth u.id s.db).1 t.1.db
  unfolding complete_login session_created login_decoded set_auth_cookies
  complete_login_lem s access refresh created =
      let made = with_db (create_session_pair p s.auth u.id s.db).1 s in
      let signed = (set_auth_cookies access refresh made).1 in
      ground (
        arith,
        decodes,
        record_event-Recorded p r (some u.id) login_success none no_metadata signed,
      )

  verified :
      (id : ℕ) (s : Server) (access refresh : Bytes)
      → IsUp s.db
      → user_by_id id s.db.users ≡ some u
      → let found = with_db (record s.db { queries = suc s.db.queries }) s in
        let t = second_factor_verified p r id s in
        (create_session_pair p s.auth u.id found.db).0 ≡ ok (access, refresh)
        → (t.0 ≡ stop (response 200 (logged_in u.protected_symmetric_key params)))
          × (t.1.cookies
              ≡ s.cookies
                ++ access_cookie access (quotient s.auth.access_ttl second)
                  ∷ refresh_cookie refresh (quotient s.auth.refresh_ttl second)
                  ∷ [])
          × SameVault (create_session_pair p s.auth u.id found.db).1 t.1.db
  unfolding second_factor_verified get_by_id get_user_by_id statement
  verified id s access refresh up exists created =
      let found = with_db (record s.db { queries = suc s.db.queries }) s in
      ground (
        arith,
        up s.db.queries,
        complete_login_lem found access refresh created,
        record_event-Recorded p r (some id) mfa_success none no_metadata
            (complete_login p r u found).1,
      )

reached :
    (p : Primitives) (r : Request) (body : LoginMfaRequest) (s : Server) (c : MfaChallenge)
    (code secret : Bytes)
    → s.db.outage s.db.queries ≡ false
    → is_empty body.mfa_token ≡ false
    → challenge_of p body s ≡ some c
    → credential body.recovery_code body.totp_code body.totp_secret ≡ by_totp code secret
    → validate_totp p s.db.now secret code ≡ true
    → post_login_mfa p r (some body) s
      ≡ second_factor_verified p r c.user_id (challenge_spent p body (suc s.db.queries) s)
unfolding post_login_mfa consume_challenge consume_mfa_challenge statement
reached p r body s c code secret up token live given right =
    let spent = challenge_spent p body (suc s.db.queries) s in
    ground (arith, right_code p r c.user_id body code secret spent given right)

-- With a live challenge, any secret of the caller's choice and a code that fits it sign the user of the
-- challenge in, whatever secret is stored for that user: the answer is 200 with the user's wrapped key, the
-- two tokens of a new session are set as cookies, and the access token opens a session of that user (at
-- once, if its lifetime is not negative). The request has an MFA token that is not empty and no recovery
-- code, the user exists with parameters that decode, CreateSessionPair succeeds, and the database can be
-- reached.
pub post_login_mfa-any_secret :
    (p : Primitives) (r : Request) (body : LoginMfaRequest) (s : Server) (c : MfaChallenge)
    (u : User) (params : KdfParams) (code secret access refresh : Bytes)
    → IsUp s.db
    → is_empty body.mfa_token ≡ false
    → challenge_of p body s ≡ some c
    → user_by_id c.user_id s.db.users ≡ some u
    → p.kdf_of_json u.kdf_params ≡ some params
    → (create_session_pair p s.auth c.user_id
        (challenge_spent p body (suc (suc s.db.queries)) s).db).0
      ≡ ok (access, refresh)
    → credential body.recovery_code body.totp_code body.totp_secret ≡ by_totp code secret
    → validate_totp p s.db.now secret code ≡ true
    → let t = post_login_mfa p r (some body) s in
      (t.0 ≡ stop (response 200 (logged_in u.protected_symmetric_key params)))
      × (t.1.cookies
          ≡ s.cookies
            ++ access_cookie access (quotient s.auth.access_ttl second)
              ∷ refresh_cookie refresh (quotient s.auth.refresh_ttl second)
              ∷ [])
      × (holder_of (validate_access p access t.1.db).0
          ≡ held (lasts s.db.now s.db.now s.auth.access_ttl) c.user_id)
post_login_mfa-any_secret p r body s c u params code secret access refresh up token live exists
      decodes created given right =
    let spent = challenge_spent p body (suc s.db.queries) s in
    let found = challenge_spent p body (suc (suc s.db.queries)) s in
    let same = id-user_by_id c.user_id s.db.users u exists in
    let made : (create_session_pair p s.auth u.id found.db).0 ≡ ok (access, refresh) =
      rw same created in
    let (answer, cookies, vault) =
      verified p r u params decodes c.user_id spent access refresh up exists made in
    let opened = opens_after p s.auth found.db _ u.id access refresh up made vault in
    rw (reached p r body s c code secret (up _) token live given right)
      (answer, cookies, rw same at opened)
