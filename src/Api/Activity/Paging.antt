-- ===== src/Api/Activity/Paging.antt =====
-- Pages of the activity log, internal/api/handlers_phase5.go GetActivity.
use go_vault.Prelude.{
  ℕ, zero, suc, ◌+◌, ◌≤◌, ◌<◌, ◌≡◌, refl, ap, false, List, [], ◌∷◌, Option, none, some, arith,
  Bytes, ltb, if◌then◌else◌, take, length, length-take,
}
use go_vault.Storage.Db.{AuditEvent, statement}
use go_vault.Storage.Audit.{timeline, audit_limit, list_by_user, list_audit_events_by_user}
use go_vault.Api.Server.{Request, Server, Outcome, stop, response, activity}
use go_vault.Api.Activity.{query_limit, page, last_id, get_activity}

take-take : (n : ℕ) (xs : List AuditEvent) → take n (take (suc n) xs) ≡ take n xs
take-take zero xs = refl
take-take (suc n) [] = refl
take-take (suc n) (x ∷ xs) = ap (λ ys. x ∷ ys) (take-take n xs)

take-all : (n : ℕ) (xs : List AuditEvent) → length xs ≤ n → take (suc n) xs ≡ take n xs
take-all zero [] h = refl
take-all zero (x ∷ xs) h = ground (arith, h)
take-all (suc n) [] h = refl
take-all (suc n) (x ∷ xs) h = ap (λ ys. x ∷ ys) (take-all n xs (omega (arith, h)))

succ : (n : ℕ) → n + 1 ≡ suc n
succ n = omega arith

-- The page that a limit should give: that many of the events, and a cursor if there are more.
abbrev pub page_of : ℕ → List AuditEvent → List AuditEvent × Option ℕ
page_of limit events =
    (take limit events, if ltb limit (length events) then last_id (take limit events) else none)

page-page_of :
    (limit : ℕ) (events : List AuditEvent)
    → page limit (take (limit + 1) events) ≡ page_of limit events
unfolding page
page-page_of limit events = ground (
  arith,
  succ limit,
  length-take (suc limit) events,
  take-take limit events,
  take-all limit events,
)

page-overlong :
    (limit : ℕ) (events : List AuditEvent)
    → 100 < limit
    → page limit (take 51 events) ≡ (take 51 events, none)
unfolding page
page-overlong limit events h = ground (arith, length-take 51 events)

-- The answer that shows a page.
abbrev pub shows : List AuditEvent × Option ℕ → Outcome (Unit {0})
shows p = stop (response 200 (activity p.0 p.1))

-- For a signed-in user and a limit of 1 to 100, while the database can be reached, the answer is the
-- first `limit` events of the user's timeline below the cursor, with a cursor to go on from exactly
-- when there are more events than that.
pub get_activity-page_of :
    (r : Request) (raw : Bytes) (cursor : Option ℕ) (s : Server) (id : ℕ)
    → r.user_id ≡ some id
    → s.db.outage s.db.queries ≡ false
    → 1 ≤ query_limit raw
    → query_limit raw ≤ 100
    → (get_activity r raw cursor s).0
      ≡ shows (page_of (query_limit raw) (timeline id cursor s.db.audit_events))
unfolding get_activity list_by_user audit_limit list_audit_events_by_user statement
get_activity-page_of r raw cursor s id user up low high =
    ground (arith, page-page_of (query_limit raw) (timeline id cursor s.db.audit_events))

-- For a limit above 100 the store falls back to 50 and returns up to 51 events, which are all
-- shown, and no cursor is given even when there are more. The user is signed in, and the statement
-- reaches the database.
pub get_activity-overlong :
    (r : Request) (raw : Bytes) (cursor : Option ℕ) (s : Server) (id : ℕ)
    → r.user_id ≡ some id
    → s.db.outage s.db.queries ≡ false
    → 100 < query_limit raw
    → (get_activity r raw cursor s).0 ≡ shows (take 51 (timeline id cursor s.db.audit_events), none)
unfolding get_activity list_by_user audit_limit list_audit_events_by_user statement
get_activity-overlong r raw cursor s id user up high =
    ground (arith, page-overlong (query_limit raw) (timeline id cursor s.db.audit_events))
