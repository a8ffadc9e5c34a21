-- ===== src/Api/Account/Deletion.antt =====
-- What DeleteUser of internal/api/handlers.go leaves behind.
use go_vault.Prelude.{
  ℕ, suc, ◌≡◌, refl, true, false, not, List, [], ◌∷◌, ◌++◌, none, some, arith, ◌==◌, find, filter,
  update_where, find-filter-not,
}
use go_vault.Primitives.{Primitives}
use go_vault.Storage.Db.{User, Session, Db, user_exists, user_delete, no_metadata}
use go_vault.Storage.Users.{cascade, forget_user}
use go_vault.Api.Server.{Request, Server, stop, response, no_body, clear_access, clear_refresh}
use go_vault.Api.Account.{delete_user, account_deleted}
use go_vault.Api.Reply.{record_event}
use go_vault.Api.Reply.Recording.{record_event-Recorded}

pub gone :
    (id : ℕ) (users : List User) → user_exists (filter (λ u. not (u.id == id)) users) id ≡ false
gone id [] = refl
gone id (u ∷ users) = ground (arith, gone id users)

-- Neither the user nor a session, item, code, challenge or device of the user is in the tables.
pub record IsErased (id : ℕ) (db : Db) : Type 0 where
  pub no_user : find (λ u. u.id == id) db.users ≡ none
  pub no_session : find (λ s. s.user_id == id) db.sessions ≡ none
  pub no_item : find (λ i. i.user_id == id) db.items ≡ none
  pub no_code : find (λ c. c.user_id == id) db.recovery_codes ≡ none
  pub no_challenge : find (λ c. c.user_id == id) db.challenges ≡ none
  pub no_device : find (λ d. d.user_id == id) db.devices ≡ none

-- An event that names a user who is not there is refused by the foreign key.
record_event_lost :
    (p : Primitives) (r : Request) (id : ℕ) (s : Server)
    → user_exists s.db.users id ≡ false
    → (record_event p r (some id) user_delete none no_metadata s).1.db.audit_events
      ≡ s.db.audit_events
unfolding record_event
record_event_lost p r id s h = ground arith

-- What the end of the handler does where the user is gone.
record Ended (s t : Server) : Type 0 where
  users : t.db.users ≡ s.db.users
  sessions : t.db.sessions ≡ s.db.sessions
  items : t.db.items ≡ s.db.items
  recovery_codes : t.db.recovery_codes ≡ s.db.recovery_codes
  challenges : t.db.challenges ≡ s.db.challenges
  devices : t.db.devices ≡ s.db.devices
  audit_events : t.db.audit_events ≡ s.db.audit_events
  cookies : t.cookies ≡ s.cookies ++ clear_access ∷ clear_refresh ∷ []

account_deleted-Ended :
    (p : Primitives) (r : Request) (id : ℕ) (s : Server)
    → user_exists s.db.users id ≡ false
    → ((account_deleted p r id s).0 ≡ stop (response 204 no_body))
      × Ended s (account_deleted p r id s).1
unfolding account_deleted
account_deleted-Ended p r id s h = ground (
  arith,
  record_event-Recorded p r (some id) user_delete none no_metadata cleared,
  record_event_lost p r id cleared h,
)
  where
    cleared : Server
    cleared = record s { cookies = s.cookies ++ clear_access ∷ clear_refresh ∷ [] }

abbrev others : List Session → ℕ → List Session
others rows id = filter (λ s. not (s.user_id == id)) rows

-- After DeleteUser the user and all that belongs to it is gone, and the cookies are cleared. The
-- event user_delete is not in the audit log: it is appended after the user is deleted, and the
-- foreign key refuses it. The log only has the user's earlier events made anonymous. Every
-- statement reaches the database.
pub delete_user_erases :
    (p : Primitives) (r : Request) (id : ℕ) (s : Server)
    → ((n : ℕ) → s.db.outage n ≡ false)
    → r.user_id ≡ some id
    → let (out, t) = delete_user p r s in
      (out ≡ stop (response 204 no_body))
      × IsErased id t.db
      × (t.db.audit_events ≡ update_where (λ ev. true) (forget_user id) s.db.audit_events)
      × (t.cookies ≡ s.cookies ++ clear_access ∷ clear_refresh ∷ [])
unfolding delete_user
delete_user_erases p r id s up e = ground (
  arith,
  up s.db.queries,
  up (suc s.db.queries),
  account_deleted-Ended p r id erased (gone id s.db.users),
  find-filter-not (λ u. u.id == id) s.db.users,
  find-filter-not (λ x. x.user_id == id) (others s.db.sessions id),
  find-filter-not (λ x. x.user_id == id) s.db.items,
  find-filter-not (λ x. x.user_id == id) s.db.recovery_codes,
  find-filter-not (λ x. x.user_id == id) s.db.challenges,
  find-filter-not (λ x. x.user_id == id) s.db.devices,
)
  where
    revoked : Db
    revoked = record s.db { sessions = others s.db.sessions id; queries = suc s.db.queries }

    erased : Server
    erased = record s { db = record (cascade id revoked) { queries = suc (suc s.db.queries) } }
