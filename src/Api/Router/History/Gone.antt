-- ===== src/Api/Router/History/Gone.antt =====
-- An account that DeleteUser of internal/api/handlers.go has deleted, through any history.
use go_vault.Prelude.{
  ℕ, ◌<◌, ◌≡◌, refl, Bool, true, false, List, [], ◌∷◌, Option, none, some, arith, ◌==◌, ==_iff,
  find,
}
use go_vault.Errors.{not_found, Result, ok, err}
use go_vault.Primitives.{Primitives}
use go_vault.Storage.Db.{User, AuditEvent, Db, user_exists}
use go_vault.Storage.Users
use go_vault.Storage.Audit.{may_refer, belongs_to}
use go_vault.Storage.Rows.{Every}
use go_vault.Storage.Sound.{IsTable, IsSound, has_user}
use go_vault.Storage.Sound.Closed.{IsSound-Closed}
use go_vault.Storage.Absent.{IsAbsent}
use go_vault.Storage.Absent.Closed.{IsAbsent-Closed}
use go_vault.Auth.Session.{revoke_all_sessions}
use go_vault.Api.Server.{Request, Server, Outcome, stop, response, no_body}
use go_vault.Api.Account.{user_removed, delete_user}
use go_vault.Api.Account.Deletion.{IsErased, gone}
use go_vault.Api.Keeps.Account.{user_removed-HandlerKeeps, delete_user-HandlerKeeps}
use go_vault.Api.Router.History.{Act, run, Steady, run-keeps}
use go_vault.Api.Router.History.Sound.{run-IsSound}

IsAbsent-Steady : (id : ℕ) → Steady (IsAbsent id)
IsAbsent-Steady id = record {
  closed = IsAbsent-Closed id;
  world = λ db now outage entropy h. record { given = h.given; absent = h.absent };
}

find-Every :
    {A : Type 0} (p q : A → Bool) (rows : List A)
    → ((x : A) → p x ≡ true → q x ≡ false)
    → Every p rows
    → find q rows ≡ none
find-Every p q [] f e = refl
find-Every p q (x ∷ rows) f e = rw (f x e.0) (find-Every p q rows f e.1)

-- A row that belongs to a user who is there belongs to no absent one.
other_owner :
    (users : List User) (id k : ℕ)
    → user_exists users id ≡ false
    → user_exists users k ≡ true
    → k == id ≡ false
other_owner users id k a h = ground (arith, ==_iff k id)

find-owner :
    {A : Type 0} {key : A → ℕ} (owner : A → ℕ) {n : ℕ} {users : List User} {rows : List A} (id : ℕ)
    → user_exists users id ≡ false
    → IsTable key (λ x. some (owner x)) n users rows
    → find (λ x. owner x == id) rows ≡ none
find-owner owner {users} {rows} id a t =
    find-Every (λ x. user_exists users (owner x)) (λ x. owner x == id) rows
      (λ x. other_owner users id (owner x) a) t.owned

find-absent :
    (users : List User) (id : ℕ)
    → user_exists users id ≡ false
    → find (λ u. u.id == id) users ≡ none
find-absent [] id h = refl
find-absent (u ∷ users) id h = ground (arith, find-absent users id)

no_event_of :
    (users : List User) (id : ℕ)
    → user_exists users id ≡ false
    → (ev : AuditEvent) → may_refer users ev.user_id ≡ true
    → belongs_to id ev ≡ false
no_event_of users id a ev h = go ev.user_id h
  where
    go :
        (o : Option ℕ)
        → may_refer users o ≡ true
        → elim o [ none ↦ false | some uid ↦ uid == id ] ≡ false
    go none h = refl
    go (some uid) h = other_owner users id uid a h

-- Where a user is absent and the tables meet their constraints, nothing of the user is left.
IsAbsent-IsErased :
    (id : ℕ) (db : Db)
    → IsAbsent id db
    → IsSound db
    → IsErased id db × (find (belongs_to id) db.audit_events ≡ none)
IsAbsent-IsErased id db a s = (
  record {
    no_user = find-absent db.users id a.absent;
    no_session = find-owner (λ x. x.user_id) id a.absent s.sessions;
    no_item = find-owner (λ x. x.user_id) id a.absent s.items;
    no_code = find-owner (λ x. x.user_id) id a.absent s.codes;
    no_challenge = find-owner (λ x. x.user_id) id a.absent s.challenges;
    no_device =
        find-Every (has_user db.users) (λ d. d.user_id == id) db.devices
          (λ d. other_owner db.users id d.user_id a.absent) s.devices;
  },
  find-Every (λ e. may_refer db.users e.user_id) (belongs_to id) db.audit_events
      (no_event_of db.users id a.absent) s.events.owned,
)

-- The results after which DeleteUser answers 204.
abbrev is_removed : Result (Unit {0}) → Bool
is_removed (ok u) = true
is_removed (err not_found) = true
is_removed (err e) = false

delete_user-IsAbsent :
    (id : ℕ) (db : Db)
    → id < db.next_id
    → is_removed (Users.delete_user id db).0 ≡ true
    → IsAbsent id (Users.delete_user id db).1
unfolding Users.delete_user
delete_user-IsAbsent id db h e = record {
  given = ground arith;
  absent = ground (arith, gone id db.users);
}

revoked_next : (id : ℕ) (db : Db) → (revoke_all_sessions id db).1.next_id ≡ db.next_id
unfolding revoke_all_sessions
revoked_next id db = ground arith

removed_if_204 :
    (p : Primitives) (r : Request) (id : ℕ) (removed : Result (Unit {0})) (s : Server)
    → (user_removed p r id removed s).0 ≡ stop (response 204 no_body)
    → is_removed removed ≡ true
unfolding user_removed
removed_if_204 p r id (ok u) s h = refl
removed_if_204 p r id (err not_found) s h = refl
removed_if_204 p r id (err e) s h = ground arith

-- The tables after the sessions were revoked, whether or not that failed.
abbrev revoked : ℕ → Server → Db
revoked id s = (revoke_all_sessions id s.db).1

-- The handler from its call of the repository on.
abbrev ended : Primitives → Request → ℕ → Server → Outcome (Unit {0}) × Server
ended p r id s =
    user_removed p r id (Users.delete_user id (revoked id s)).0
      (record s { db = (Users.delete_user id (revoked id s)).1 })

delete_user-ended :
    (p : Primitives) (r : Request) (id : ℕ) (s : Server)
    → r.user_id ≡ some id
    → delete_user p r s ≡ ended p r id s
unfolding delete_user
delete_user-ended p r id s e = rw e refl

ended-IsAbsent :
    (p : Primitives) (r : Request) (id : ℕ) (s : Server)
    → id < s.db.next_id
    → (ended p r id s).0 ≡ stop (response 204 no_body)
    → IsAbsent id (ended p r id s).1.db
ended-IsAbsent p r id s h answer =
    let after : Server = record s { db = (Users.delete_user id (revoked id s)).1 } in
    let removed = (Users.delete_user id (revoked id s)).0 in
    (user_removed-HandlerKeeps (IsAbsent-Closed id) p r id removed).at after (
      delete_user-IsAbsent id (revoked id s) (rw (revoked_next id s.db) h)
        (removed_if_204 p r id removed after answer))

-- Once DeleteUser has answered 204, whether or not its statements reached the database, no history
-- of requests, failures, restarts and lapses of time brings anything of the user back: no user has
-- the id, no session, item, recovery code, challenge or device belongs to it, and no audit event
-- names it. The id is one that was given out, and the tables met the constraints of the schema.
pub deleted_for_good :
    (p : Primitives) (r : Request) (id : ℕ) (acts : List Act) (s : Server)
    → IsSound s.db
    → id < s.db.next_id
    → r.user_id ≡ some id
    → (delete_user p r s).0 ≡ stop (response 204 no_body)
    → let db = (run p acts (delete_user p r s).1).db in
      IsErased id db × (find (belongs_to id) db.audit_events ≡ none)
deleted_for_good p r id acts s sound h e answer =
    let same = delete_user-ended p r id s e in
    let t = (delete_user p r s).1 in
    let absent : IsAbsent id t.db = rw same (ended-IsAbsent p r id s h (rw same at answer)) in
    IsAbsent-IsErased id (run p acts t).db (run-keeps (IsAbsent-Steady id) p acts t absent)
      (run-IsSound p acts t ((delete_user-HandlerKeeps IsSound-Closed p r).at s sound))
