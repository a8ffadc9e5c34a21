-- ===== src/Auth/Session/Rotation.antt =====
-- What a token is good for over the life of its session, internal/auth/session.go.
use go_vault.Prelude.{
  ℕ, suc, ◌+◌, ◌≡◌, ◌≢◌, refl, Bool, true, false, not, List, [], ◌∷◌, Option, none, some, arith,
  Bytes, ◌==◌, bytes_eq, bytes_eq_refl, find, filter, inl, inr, find-append_none, find-filter-not,
  Option-cases, ℤ, pos_part, neg_part, leb, add_duration, is_after-add_duration,
}
use go_vault.Errors.{session_invalid, Result, ok, err}
use go_vault.Primitives.{Primitives}
use go_vault.Storage.Db.{Session, Db}
use go_vault.Storage.Sessions.{by_access, by_refresh, by_id, tokens}
use go_vault.Storage.Sessions.Unique.{IsUnique}
use go_vault.Storage.Sessions.Rotate.{by_id-find, find_old, find_new}
use go_vault.Auth.Manager.{Manager}
use go_vault.Auth.Session.{
  create_session_pair, validate_access, refresh_lookup, refresh_session, revoke_session,
  revoke_all_sessions,
}

abbrev pub IsUp : Db → Type 0
IsUp db = (n : ℕ) → db.outage n ≡ false

-- The user that a lookup answers with.
abbrev pub user_of : Result Session → Option ℕ
user_of (ok s) = some s.user_id
user_of (err e) = none

-- The same, with the error of a lookup that is refused.
abbrev pub holder_of : Result Session → Result ℕ
holder_of (ok s) = ok s.user_id
holder_of (err e) = err e

-- A lifetime from a start on, which may be negative, holds the time.
abbrev pub lasts : ℕ → ℕ → ℤ → Bool
lasts t start ttl = leb (t + neg_part ttl) (start + pos_part ttl)

-- What a good token is answered.
abbrev pub held : Bool → ℕ → Result ℕ
held true user_id = ok user_id
held false user_id = err session_invalid

-- The same tables at another time.
abbrev pub at_time : ℕ → Db → Db
at_time t db = record db { now = t }

module _ (p : Primitives) (m : Manager) (db : Db) (up : IsUp db) where
  -- At any time the access token that CreateSessionPair returned opens a session for its user exactly
  -- when the time is no later than the creation and the access lifetime of the manager together, and
  -- the refresh token exactly when it is no later than the creation and the refresh lifetime; otherwise
  -- ValidateAccess and RefreshSession's lookup answer ErrSessionInvalid. A lifetime may be zero or
  -- negative. Every statement reaches the database.
  pub create_opens :
      (user_id : ℕ) (access refresh : Bytes) (t : ℕ)
      → (create_session_pair p m user_id db).0 ≡ ok (access, refresh)
      → let db' = at_time t (create_session_pair p m user_id db).1 in
        (holder_of (validate_access p access db').0 ≡ held (lasts t db.now m.access_ttl) user_id)
        × (holder_of (refresh_lookup p refresh db').0 ≡ held (lasts t db.now m.refresh_ttl) user_id)
  unfolding create_session_pair validate_access refresh_lookup
  create_opens user_id access refresh t h = (
    ground (
      arith,
      up db.queries,
      up (suc db.queries),
      bytes_eq_refl (p.sha256 access),
      find-append_none (λ s. bytes_eq s.access_token_hash (p.sha256 access)) db.sessions row,
      is_after-add_duration t db.now m.access_ttl,
    ),
    ground (
      arith,
      up db.queries,
      up (suc db.queries),
      bytes_eq_refl (p.sha256 refresh),
      find-append_none (λ s. bytes_eq s.refresh_token_hash (p.sha256 refresh)) db.sessions row,
      is_after-add_duration t db.now m.refresh_ttl,
    ),
  )
    where
      row : Session
      row = record {
        id = db.next_id;
        user_id = user_id;
        access_token_hash = p.sha256 access;
        access_expires_at = add_duration db.now m.access_ttl;
        refresh_token_hash = p.sha256 refresh;
        refresh_expires_at = add_duration db.now m.refresh_ttl;
        created_at = db.now;
      }

-- A session is found by its refresh token and by its access token, and RefreshSession exchanges
-- them for new ones whose hashes differ from theirs: then the old refresh token and the old access
-- token are refused at any time, and each new one opens a session of the same user exactly at the times
-- that are no later than the exchange and the token's lifetime together, which may be zero or negative,
-- and is refused at any other. No two sessions share an id or a hash. Every statement reaches the
-- database.
pub refresh_rotates :
    (p : Primitives) (m : Manager) (db : Db) (s : Session) (token old access refresh : Bytes)
    (t : ℕ)
    → IsUp db
    → IsUnique db
    → by_refresh (p.sha256 token) db.sessions ≡ some s
    → by_access (p.sha256 old) db.sessions ≡ some s
    → (refresh_session p m token db).0 ≡ ok (access, refresh)
    → bytes_eq (p.sha256 refresh) (p.sha256 token) ≡ false
    → bytes_eq (p.sha256 access) (p.sha256 old) ≡ false
    → let db' = at_time t (refresh_session p m token db).1 in
      ((refresh_lookup p token db').0 ≡ err session_invalid)
      × ((validate_access p old db').0 ≡ err session_invalid)
      × (holder_of (refresh_lookup p refresh db').0 ≡ held (lasts t db.now m.refresh_ttl) s.user_id)
      × (holder_of (validate_access p access db').0 ≡ held (lasts t db.now m.access_ttl) s.user_id)
unfolding refresh_session validate_access refresh_lookup
refresh_rotates p m db s token old access refresh t up u found e h ner nea = (
  ground (
    arith,
    facts,
    find_old (λ r. r.refresh_token_hash) f (p.sha256 refresh) (λ r. refl) (p.sha256 token)
        db.sessions s u.refresh ner found,
  ),
  ground (
    arith,
    facts,
    find_old (λ r. r.access_token_hash) f (p.sha256 access) (λ r. refl) (p.sha256 old) db.sessions s
        u.access nea e,
  ),
  ground (
    arith,
    facts,
    find_new (λ r. r.refresh_token_hash) f (p.sha256 refresh) (λ r. refl) s.id db.sessions s,
    is_after-add_duration t db.now m.refresh_ttl,
  ),
  ground (
    arith,
    facts,
    find_new (λ r. r.access_token_hash) f (p.sha256 access) (λ r. refl) s.id db.sessions s,
    is_after-add_duration t db.now m.access_ttl,
  ),
)
  where
    f : Session → Session
    f =
        tokens (p.sha256 access) (add_duration db.now m.access_ttl) (p.sha256 refresh)
          (add_duration db.now m.refresh_ttl)

    by_its_id : by_id s.id db.sessions ≡ some s
    by_its_id = by_id-find (λ r. r.refresh_token_hash) (p.sha256 token) db.sessions s u.ids found

    facts :
        (db.outage db.queries ≡ false)
        × (db.outage (suc db.queries) ≡ false)
        × (db.outage (suc (suc db.queries)) ≡ false)
        × (by_id s.id db.sessions ≡ some s)
    facts = (up _, up _, up _, by_its_id)

find-sub :
    (q p : Session → Bool) (rows : List Session) (s : Session)
    → find q (filter p rows) ≡ some s
    → p s ≡ true
find-sub q p [] s h = cc
find-sub q p (t ∷ rows) s h = ground (arith, find-sub q p rows s)

-- After Logout the access token is refused; and after RevokeAllSessions no token, access or
-- refresh, opens a session of the user any more. Every statement reaches the database.
pub revoked_for_good :
    (p : Primitives) (db : Db) (token : Bytes) (user_id : ℕ)
    → IsUp db
    → ((validate_access p token (revoke_session p token db).1).0 ≡ err session_invalid)
      × (user_of (validate_access p token (revoke_all_sessions user_id db).1).0 ≢ some user_id)
      × (user_of (refresh_lookup p token (revoke_all_sessions user_id db).1).0 ≢ some user_id)
unfolding validate_access refresh_lookup revoke_session revoke_all_sessions
revoked_for_good p db token user_id up = (
  ground (
    arith,
    up db.queries,
    up (suc db.queries),
    find-filter-not (λ s. bytes_eq s.access_token_hash (p.sha256 token)) db.sessions,
  ),
  λ h. elim (Option-cases (by_access (p.sha256 token) others)) [
    | inl none_left ↦ ground (arith, up db.queries, up (suc db.queries))
    | inr (s, e) ↦ ground (
      arith,
      up db.queries,
      up (suc db.queries),
      find-sub (λ r. bytes_eq r.access_token_hash (p.sha256 token)) not_theirs db.sessions s e,
    )
  ],
  λ h. elim (Option-cases (by_refresh (p.sha256 token) others)) [
    | inl none_left ↦ ground (arith, up db.queries, up (suc db.queries))
    | inr (s, e) ↦ ground (
      arith,
      up db.queries,
      up (suc db.queries),
      find-sub (λ r. bytes_eq r.refresh_token_hash (p.sha256 token)) not_theirs db.sessions s e,
    )
  ],
)
  where
    not_theirs : Session → Bool
    not_theirs s = not (s.user_id == user_id)

    others : List Session
    others = filter not_theirs db.sessions
