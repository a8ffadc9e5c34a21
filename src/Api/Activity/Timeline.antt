-- ===== src/Api/Activity/Timeline.antt =====
-- The timeline of a user, the rows of ListAuditEventsByUser below a cursor, as parts of one sequence.
use go_vault.Prelude.{
  ℕ, zero, suc, ◌+◌, ◌<◌, ◌≡◌, refl, Bool, true, false, ◌&&◌, List, [], ◌∷◌, none, some,
  if◌then◌else◌, arith, ◌==◌, ==_iff, ltb, leb, find, filter, insert_desc, sort_desc, take, drop,
  length, ap, sym, ◌∙◌, All, Distinct,
}
use go_vault.Storage.Db.{AuditEvent}
use go_vault.Storage.Audit.{belongs_to, before, timeline}
use go_vault.Storage.Rows.{same_number}
use go_vault.Api.Activity.{last_id}

abbrev pub same_time : AuditEvent → AuditEvent → Bool
same_time e d = d.created_at == e.created_at

abbrev at : AuditEvent → ℕ
at e = e.created_at

-- The events from the newest on, no two at one time.
abbrev pub Falling : List AuditEvent → Type 0
Falling [] = Unit
Falling (e ∷ es) = All (λ d. d.created_at < e.created_at) es × Falling es

module _ (P Q : AuditEvent → Type 0) where
  All-both : (es : List AuditEvent) → All P es → All Q es → All (λ e. P e × Q e) es
  All-both [] p q = tt
  All-both (e ∷ es) p q = ((p.0, q.0), All-both es p.1 q.1)

  All-implies : (es : List AuditEvent) → ((e : AuditEvent) → P e → Q e) → All P es → All Q es
  All-implies [] f p = tt
  All-implies (e ∷ es) f p = (f e p.0, All-implies es f p.1)

module _ (P : AuditEvent → Type 0) where
  All-filter : (keep : AuditEvent → Bool) (es : List AuditEvent) → All P es → All P (filter keep es)
  All-filter keep [] p = tt
  All-filter keep (e ∷ es) p =
      elim (keep e) as (λ b. All P (if b then e ∷ filter keep es else filter keep es)) [
        | true ↦ (p.0, All-filter keep es p.1)
        | false ↦ All-filter keep es p.1
      ]

  All-insert :
      (e : AuditEvent) (es : List AuditEvent) → P e → All P es → All P (insert_desc at e es)
  All-insert e [] h p = (h, tt)
  All-insert e (d ∷ es) h p =
      elim (leb d.created_at e.created_at)
        as (λ b. All P (if b then e ∷ d ∷ es else d ∷ insert_desc at e es)) [
          | true ↦ (h, p)
          | false ↦ (p.0, All-insert e es h p.1)
        ]

  All-sort : (es : List AuditEvent) → All P es → All P (sort_desc at es)
  All-sort [] p = tt
  All-sort (e ∷ es) p = All-insert e (sort_desc at es) p.0 (All-sort es p.1)

-- Rows that no search finds.
none-All :
    (p : AuditEvent → Bool) (es : List AuditEvent) → find p es ≡ none → All (λ e. p e ≡ false) es
none-All p [] h = tt
none-All p (e ∷ es) h = (ground arith, none-All p es (ground arith))

Falling-insert :
    (e : AuditEvent) (es : List AuditEvent)
    → All (λ d. d.created_at == e.created_at ≡ false) es
    → Falling es
    → Falling (insert_desc at e es)
Falling-insert e [] n f = (tt, tt)
Falling-insert e (d ∷ es) n f =
    let rest = Falling-insert e es n.1 f.1 in go (leb d.created_at e.created_at) refl rest
  where
    go :
        (b : Bool)
        → leb d.created_at e.created_at ≡ b
        → Falling (insert_desc at e es)
        → Falling (if b then e ∷ d ∷ es else d ∷ insert_desc at e es)
    go true h rest =
        let lower : d.created_at < e.created_at =
          ground (arith, ==_iff d.created_at e.created_at, n.0) in
        (
          (
            lower,
            All-implies (λ x. x.created_at < d.created_at) (λ x. x.created_at < e.created_at) es
                (λ x b. omega (arith, b, lower)) f.0,
          ),
          f,
        )
    go false h rest = (All-insert (λ x. x.created_at < d.created_at) e es (ground arith) f.0, rest)

pub Falling-sort : (es : List AuditEvent) → Distinct same_time es → Falling (sort_desc at es)
Falling-sort [] d = tt
Falling-sort (e ∷ es) d =
    Falling-insert e (sort_desc at es)
      (All-sort (λ d. d.created_at == e.created_at ≡ false) es (none-All (same_time e) es d.0))
      (Falling-sort es d.1)

-- Every row is found by its id.
found_itself :
    (rows : List AuditEvent)
    → Distinct (same_number (λ e. e.id)) rows
    → All (λ e. find (λ c. c.id == e.id) rows ≡ some e) rows
found_itself [] d = tt
found_itself (e ∷ rows) d = (
  ground (arith, ==_iff e.id e.id),
  All-implies (λ x. Found x × Other x) (λ x. find (λ c. c.id == x.id) (e ∷ rows) ≡ some x) rows
      (λ x (found, other). ground (arith, ==_iff e.id x.id, ==_iff x.id e.id))
      (All-both Found Other rows (found_itself rows d.1) (none-All (λ x. x.id == e.id) rows d.0)),
)
  where
    Found : AuditEvent → Type 0
    Found x = find (λ c. c.id == x.id) rows ≡ some x

    Other : AuditEvent → Type 0
    Other x = x.id == e.id ≡ false

abbrev pub earlier : ℕ → AuditEvent → Bool
earlier t e = ltb e.created_at t

filter-insert :
    (t : ℕ) (e : AuditEvent) (es : List AuditEvent)
    → filter (earlier t) (insert_desc at e es)
      ≡ (if earlier t e then insert_desc at e (filter (earlier t) es) else filter (earlier t) es)
filter-insert t e [] = refl
filter-insert t e (d ∷ es) = ground (arith, filter-insert t e es)

filter-sort :
    (t : ℕ) (es : List AuditEvent)
    → filter (earlier t) (sort_desc at es) ≡ sort_desc at (filter (earlier t) es)
filter-sort t [] = refl
filter-sort t (e ∷ es) = ground (arith, filter-insert t e (sort_desc at es), filter-sort t es)

before-found :
    (all : List AuditEvent) (e d : AuditEvent)
    → find (λ c. c.id == e.id) all ≡ some e
    → before all (some e.id) d ≡ earlier e.created_at d
before-found all e d found = rw (before, found) refl

filter-before :
    (id : ℕ) (all rows : List AuditEvent) (e : AuditEvent)
    → find (λ c. c.id == e.id) all ≡ some e
    → filter (λ ev. belongs_to id ev && before all (some e.id) ev) rows
      ≡ filter (earlier e.created_at) (filter (λ ev. belongs_to id ev && before all none ev) rows)
filter-before id all [] e found = refl
filter-before id all (d ∷ rows) e found =
    ground (arith, before-found all e d found, filter-before id all rows e found)

-- What is below a cursor that names an event is what of the whole timeline is earlier.
pub timeline-earlier :
    (id : ℕ) (rows : List AuditEvent) (e : AuditEvent)
    → find (λ c. c.id == e.id) rows ≡ some e
    → timeline id (some e.id) rows ≡ filter (earlier e.created_at) (timeline id none rows)
timeline-earlier id rows e found =
    ap (sort_desc at) (filter-before id rows rows e found)
    ∙ sym (filter-sort e.created_at (filter (λ ev. belongs_to id ev && before rows none ev) rows))

-- The timeline of a table with distinct ids, whose events of this user have distinct times.
pub timeline-Falling :
    (id : ℕ) (rows : List AuditEvent)
    → Distinct same_time (filter (λ ev. belongs_to id ev && before rows none ev) rows)
    → Falling (timeline id none rows)
timeline-Falling id rows d =
    Falling-sort (filter (λ ev. belongs_to id ev && before rows none ev) rows) d

pub timeline-found :
    (id : ℕ) (rows : List AuditEvent)
    → Distinct (same_number (λ e. e.id)) rows
    → All (λ e. find (λ c. c.id == e.id) rows ≡ some e) (timeline id none rows)
timeline-found id rows d =
    All-sort Found (filter (λ ev. belongs_to id ev && before rows none ev) rows)
      (All-filter Found (λ ev. belongs_to id ev && before rows none ev) rows (found_itself rows d))
  where
    Found : AuditEvent → Type 0
    Found x = find (λ c. c.id == x.id) rows ≡ some x

-- Where a page of `suc n` events, after `m` events, is cut: its last event, which the property holds
-- of, and the events earlier than that.
pub record IsCut (P : AuditEvent → Type 0) (m n : ℕ) (es : List AuditEvent) : Type 0 where
  pub end : AuditEvent
  pub last : last_id (take (suc n) (drop m es)) ≡ some end.id
  pub holds : P end
  pub rest : filter (earlier end.created_at) es ≡ drop (suc n) (drop m es)

filter-earlier :
    (t : ℕ) (es : List AuditEvent) → All (λ d. d.created_at < t) es → filter (earlier t) es ≡ es
filter-earlier t [] a = refl
filter-earlier t (e ∷ es) a = ground (arith, a.0, filter-earlier t es a.1)

last-cons :
    (e : AuditEvent) (n : ℕ) (es : List AuditEvent)
    → n < length es
    → last_id (e ∷ take (suc n) es) ≡ last_id (take (suc n) es)
unfolding last_id
last-cons e n [] h = ground (arith, h)
last-cons e n (d ∷ es) h = refl

pub cut :
    (P : AuditEvent → Type 0) (m n : ℕ) (es : List AuditEvent)
    → Falling es
    → All P es
    → m + n < length es
    → IsCut P m n es
unfolding last_id
cut P m n [] f p h = ground (arith, h)
cut P zero zero (e ∷ es) f p h = record {
  end = e;
  last = refl;
  holds = p.0;
  rest = ground (arith, filter-earlier e.created_at es f.0);
}
cut P zero (suc n) (e ∷ es) f p h =
    let inner =
      cut (λ d. P d × (d.created_at < e.created_at)) zero n es f.1
        (All-both P (λ d. d.created_at < e.created_at) es p.1 f.0) (omega (arith, h)) in
    record {
      end = inner.end;
      last = last-cons e n es (omega (arith, h)) ∙ inner.last;
      holds = inner.holds.0;
      rest = ground (arith, inner.rest, inner.holds.1);
    }
cut P (suc m) n (e ∷ es) f p h =
    let inner =
      cut (λ d. P d × (d.created_at < e.created_at)) m n es f.1
        (All-both P (λ d. d.created_at < e.created_at) es p.1 f.0) (omega (arith, h)) in
    record {
      end = inner.end;
      last = inner.last;
      holds = inner.holds.0;
      rest = ground (arith, inner.rest, inner.holds.1);
    }
