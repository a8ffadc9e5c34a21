-- ===== src/Api/Activity/Walk.antt =====
-- The whole log of a user, page by page: GET /api/activity with each answer's next_cursor.
use go_vault.Prelude.{
  ℕ, zero, suc, ◌+◌, ◌-◌, ◌<◌, ◌≤◌, ◌≡◌, refl, true, false, List, [], ◌∷◌, ◌++◌, Option, ◌&&◌, none,
  some, arith, Bytes, ◌==◌, ltb, find, filter, take, drop, length, All, Distinct, ap, sym, ◌∙◌, inl,
  inr, Bool-cases,
}
use go_vault.Storage.Db.{AuditEvent, statement}
use go_vault.Storage.Audit.{
  belongs_to, before, timeline, list_by_user, audit_limit, list_audit_events_by_user,
}
use go_vault.Storage.Rows.{same_number}
use go_vault.Api.Server.{Request, Server, Outcome, next, stop, Body, activity}
use go_vault.Api.Activity.{query_limit, last_id, get_activity}
use go_vault.Api.Activity.Paging.{page_of, shows, get_activity-page_of}
use go_vault.Api.Activity.Timeline.{
  same_time, Falling, timeline-earlier, timeline-Falling, timeline-found, cut,
}

-- The events of an answer, and those of the page that its cursor names.
abbrev of_body : Body → (ℕ → List AuditEvent) → List AuditEvent
of_body (activity shown none) more = shown
of_body (activity shown (some cursor)) more = shown ++ more cursor
of_body b more = []

abbrev collect : Outcome (Unit {0}) → (ℕ → List AuditEvent) → List AuditEvent
collect (next u) more = []
collect (stop resp) more = of_body resp.body more

-- A client that asks for a page, and goes on with the cursor as long as there is one.
unfoldable pub walk : ℕ → Request → Bytes → Option ℕ → Server → List AuditEvent
unfolding get_activity
walk zero r raw cursor s = []
walk (suc pages) r raw cursor s =
    let (out, t) = get_activity r raw cursor s in collect out (λ id. walk pages r raw (some id) t)

take-drop : (n : ℕ) (es : List AuditEvent) → take n es ++ drop n es ≡ es
take-drop zero es = refl
take-drop (suc n) [] = refl
take-drop (suc n) (e ∷ es) = ap (λ xs. e ∷ xs) (take-drop n es)

take-whole : (n : ℕ) (es : List AuditEvent) → length es ≤ n → take n es ≡ es
take-whole zero [] h = refl
take-whole zero (e ∷ es) h = ground (arith, h)
take-whole (suc n) [] h = refl
take-whole (suc n) (e ∷ es) h = ap (λ xs. e ∷ xs) (take-whole n es (omega (arith, h)))

drop-none : (k : ℕ) → drop {A = AuditEvent} k [] ≡ []
drop-none zero = refl
drop-none (suc k) = refl

drop-drop : (m n : ℕ) (es : List AuditEvent) → drop n (drop m es) ≡ drop (m + n) es
drop-drop zero n es = ap (λ k. drop k es) (omega arith)
drop-drop (suc m) n [] = drop-none n ∙ sym (drop-none (suc m + n))
drop-drop (suc m) n (e ∷ es) =
    drop-drop m n es ∙ ap (λ k. drop k (e ∷ es)) {x = suc (m + n)} (omega arith)

length-drop : (n : ℕ) (es : List AuditEvent) → length (drop n es) ≡ length es - n
length-drop zero es = omega arith
length-drop (suc n) [] = omega arith
length-drop (suc n) (e ∷ es) = omega (arith, length-drop n es)

-- An answer leaves the tables as they are.
abbrev asked : Server → Server
asked s = record s { db = record s.db { queries = suc s.db.queries } }

get_activity-asked :
    (r : Request) (raw : Bytes) (cursor : Option ℕ) (s : Server) (id : ℕ)
    → r.user_id ≡ some id
    → s.db.outage s.db.queries ≡ false
    → (get_activity r raw cursor s).1 ≡ asked s
unfolding get_activity list_by_user audit_limit list_audit_events_by_user statement
get_activity-asked r raw cursor s id user up = ground arith

walk-suc :
    (pages : ℕ) (r : Request) (raw : Bytes) (cursor : Option ℕ) (s : Server) (id : ℕ)
    → r.user_id ≡ some id
    → s.db.outage s.db.queries ≡ false
    → 1 ≤ query_limit raw
    → query_limit raw ≤ 100
    → walk (suc pages) r raw cursor s
      ≡ collect
          (shows (page_of (query_limit raw) (timeline id cursor s.db.audit_events)))
          (λ c. walk pages r raw (some c) (asked s))
unfolding walk
walk-suc pages r raw cursor s id user up low high =
    rw
      (
        get_activity-page_of r raw cursor s id user up low high,
        get_activity-asked r raw cursor s id user up,
      )
      refl

-- A page that more events follow leaves fewer than there were.
page_room :
    (m n : ℕ) (es : List AuditEvent) → ltb (suc n) (length (drop m es)) ≡ true → m + n < length es
page_room m n es h = ground (arith, length-drop m es)

page_shrinks :
    (m n pages : ℕ) (es : List AuditEvent)
    → ltb (suc n) (length (drop m es)) ≡ true
    → length (drop m es) < suc pages
    → length (drop (m + suc n) es) < pages
page_shrinks m n pages es h enough = ground (arith, length-drop m es, length-drop (m + suc n) es)

-- What a page and those after it show together.
module _ (n : ℕ) (es : List AuditEvent) (more : ℕ → List AuditEvent) where
  page_at_end : ltb (suc n) (length es) ≡ false → collect (shows (page_of (suc n) es)) more ≡ es
  page_at_end h = rw h (take-whole (suc n) es (ground arith))

  page_then :
      (c : ℕ)
      → ltb (suc n) (length es) ≡ true
      → last_id (take (suc n) es) ≡ some c
      → more c ≡ drop (suc n) es
      → collect (shows (page_of (suc n) es)) more ≡ es
  page_then c h last rest = rw (h, last, rest) (take-drop (suc n) es)

abbrev Found : Server → AuditEvent → Type 0
Found s e = find (λ c. c.id == e.id) s.db.audit_events ≡ some e

module _ (r : Request) (raw : Bytes) (id n : ℕ) (user : r.user_id ≡ some id)
    (limit : query_limit raw ≡ suc n) (small : suc n ≤ 100) where
  walk-drop :
      (pages m : ℕ) (cursor : Option ℕ) (s : Server)
      → ((k : ℕ) → s.db.outage k ≡ false)
      → Falling (timeline id none s.db.audit_events)
      → All
          (λ e. find (λ c. c.id == e.id) s.db.audit_events ≡ some e)
          (timeline id none s.db.audit_events)
      → timeline id cursor s.db.audit_events ≡ drop m (timeline id none s.db.audit_events)
      → length (drop m (timeline id none s.db.audit_events)) < pages
      → walk pages r raw cursor s ≡ drop m (timeline id none s.db.audit_events)
  walk-drop zero m cursor s up f p same enough = ground (arith, enough)
  walk-drop (suc pages) m cursor s up f p same enough =
      walk-suc pages r raw cursor s id user (up s.db.queries) (rw limit (omega arith))
        (rw limit small)
      ∙ ap (λ l. collect (shows (page_of l (timeline id cursor s.db.audit_events))) more) limit
      ∙ ap (λ x. collect (shows (page_of (suc n) x)) more) same
      ∙ elim (Bool-cases (ltb (suc n) (length rest))) [
        | inl there ↦
            let c = cut (Found s) m n all f p (page_room m n all there) in
            page_then n rest more c.end.id there c.last (
              walk-drop pages (m + suc n) (some c.end.id) (asked s) up f p
                (timeline-earlier id s.db.audit_events c.end c.holds
                  ∙ c.rest
                  ∙ drop-drop m (suc n) all)
                (page_shrinks m n pages all there enough)
              ∙ sym (drop-drop m (suc n) all))
        | inr ended ↦ page_at_end n rest more ended
      ]
    where
      all : List AuditEvent
      all = timeline id none s.db.audit_events

      rest : List AuditEvent
      rest = drop m all

      more : ℕ → List AuditEvent
      more c = walk pages r raw (some c) (asked s)

own_events :
    (id : ℕ) (all rows : List AuditEvent)
    → filter (λ ev. belongs_to id ev && before all none ev) rows ≡ filter (belongs_to id) rows
own_events id all [] = refl
own_events id all (e ∷ rows) = ground (arith, own_events id all rows)

-- A client that asks for pages of the activity log and follows the cursor of each answer is shown
-- every event of the user exactly once, the newest first, within one more page than there are
-- events. The limit is from 1 to 100, the user is signed in, the database can be reached, ids are
-- distinct, and no two events of the user have the same time.
pub walk_shows_all :
    (r : Request) (raw : Bytes) (id pages : ℕ) (s : Server)
    → r.user_id ≡ some id
    → 1 ≤ query_limit raw
    → query_limit raw ≤ 100
    → ((k : ℕ) → s.db.outage k ≡ false)
    → Distinct (same_number (λ e. e.id)) s.db.audit_events
    → Distinct same_time (filter (belongs_to id) s.db.audit_events)
    → length (timeline id none s.db.audit_events) < pages
    → walk pages r raw none s ≡ timeline id none s.db.audit_events
walk_shows_all r raw id pages s user low high up ids times enough =
    walk-drop r raw id (query_limit raw - 1) user (omega (arith, low)) (omega (arith, low, high))
      pages 0 none s up
      (timeline-Falling id s.db.audit_events
        (rw (own_events id s.db.audit_events s.db.audit_events) times))
      (timeline-found id s.db.audit_events ids) refl enough
