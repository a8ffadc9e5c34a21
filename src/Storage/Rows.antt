-- ===== src/Storage/Rows.antt =====
-- Tables as lists of rows: a column without repeats, ids that were given out, and a test that every
-- row passes, under what INSERT, DELETE and UPDATE do to the list.
use go_vault.Prelude.{
  ℕ, ◌<◌, ◌≤◌, ◌≡◌, refl, Bool, true, false, List, [], ◌∷◌, ◌++◌, none, if◌then◌else◌, arith, Bytes,
  ◌==◌, bytes_eq, bytes_eq_iff, find, filter, update_where, Distinct, inl, inr, Bool-cases, ◌⊎◌,
  find-append_none,
}

module _ {A : Type 0} where
  -- Every row passes the test.
  abbrev pub Every : (A → Bool) → List A → Type 0
  Every p [] = Unit
  Every p (x ∷ rows) = (p x ≡ true) × Every p rows

  pub Every-append :
      (p : A → Bool) (rows : List A) (x : A) → Every p rows → p x ≡ true → Every p (rows ++ x ∷ [])
  Every-append p [] x e h = (h, tt)
  Every-append p (y ∷ rows) x e h = (e.0, Every-append p rows x e.1 h)

  -- Of the rows that a filter leaves, those that passed one test pass another.
  pub Every-filter :
      (p q : A → Bool) (keep : A → Bool) (rows : List A)
      → ((x : A) → keep x ≡ true → p x ≡ true → q x ≡ true)
      → Every p rows
      → Every q (filter keep rows)
  Every-filter p q keep [] f e = tt
  Every-filter p q keep (x ∷ rows) f e = ground (arith, f x, Every-filter p q keep rows f e.1)

  pub Every-update :
      (p q : A → Bool) (hit : A → Bool) (f : A → A) (rows : List A)
      → ((x : A) → hit x ≡ false → p x ≡ true → q x ≡ true)
      → ((x : A) → hit x ≡ true → p x ≡ true → q (f x) ≡ true)
      → Every p rows
      → Every q (update_where hit f rows)
  Every-update p q hit f [] k g e = tt
  Every-update p q hit f (x ∷ rows) k g e =
      (ground (arith, k x, g x, e.0), Every-update p q hit f rows k g e.1)

  pub Every-implies :
      (p q : A → Bool) (rows : List A)
      → ((x : A) → p x ≡ true → q x ≡ true)
      → Every p rows
      → Every q rows
  Every-implies p q [] f e = tt
  Every-implies p q (x ∷ rows) f e = (f x e.0, Every-implies p q rows f e.1)

-- A relation of rows that is symmetric, as equality of a column is.
module _ {A : Type 0} (same : A → A → Bool)
    (swap : (s t : A) → same s t ≡ true → same t s ≡ true) where
  pub Distinct-append :
      (rows : List A) (s : A)
      → find (same s) rows ≡ none
      → Distinct same rows
      → Distinct same (rows ++ s ∷ [])
  Distinct-append [] s h d = (refl, tt)
  Distinct-append (t ∷ rows) s h d = (
    ground (arith, swap t s, find-append_none (same t) rows s d.0),
    ground (arith, Distinct-append rows s),
  )

  find-filter-none :
      (p : A → Bool) (s : A) (rows : List A)
      → find (same s) rows ≡ none
      → find (same s) (filter p rows) ≡ none
  find-filter-none p s [] h = refl
  find-filter-none p s (t ∷ rows) h = ground (arith, find-filter-none p s rows)

  pub Distinct-filter :
      (p : A → Bool) (rows : List A) → Distinct same rows → Distinct same (filter p rows)
  Distinct-filter p [] d = tt
  Distinct-filter p (s ∷ rows) d =
      ground (arith, Distinct-filter p rows d.1, find-filter-none p s rows d.0)

-- An update that leaves what the relation reads.
module _ {A : Type 0} (same : A → A → Bool) (hit : A → Bool) (f : A → A)
    (left : (s t : A) → same (f s) t ≡ same s t) (right : (s t : A) → same s (f t) ≡ same s t) where
  find-update-none :
      (s : A) (rows : List A)
      → find (same s) rows ≡ none
      → find (same s) (update_where hit f rows) ≡ none
  find-update-none s [] h = refl
  find-update-none s (t ∷ rows) h = ground (arith, right s t, find-update-none s rows)

  pub Distinct-update :
      (rows : List A) → Distinct same rows → Distinct same (update_where hit f rows)
  Distinct-update [] d = tt
  Distinct-update (s ∷ rows) d = (go (Bool-cases (hit s)), Distinct-update rows d.1)
    where
      same_as : (rows : List A) → find (same s) rows ≡ none → find (same (f s)) rows ≡ none
      same_as [] h = refl
      same_as (t ∷ rows) h = ground (arith, left s t, same_as rows)

      go :
          (hit s ≡ true) ⊎ (hit s ≡ false)
          → find (same (if hit s then f s else s)) (update_where hit f rows) ≡ none
      go (inl e) = rw e (same_as (update_where hit f rows) (find-update-none s rows d.0))
      go (inr e) = rw e (find-update-none s rows d.0)

-- The id of a row.
module _ {A : Type 0} (id : A → ℕ) where
  abbrev pub same_number : A → A → Bool
  same_number s t = id t == id s

  -- The ids are below the next one.
  abbrev pub Below : ℕ → List A → Type 0
  Below n [] = Unit
  Below n (s ∷ rows) = (id s < n) × Below n rows

  pub Below-later : (n m : ℕ) (rows : List A) → n ≤ m → Below n rows → Below m rows
  Below-later n m [] h b = tt
  Below-later n m (s ∷ rows) h b = (omega arith, Below-later n m rows h b.1)

  pub find_above :
      (n k : ℕ) (rows : List A) → n ≤ k → Below n rows → find (λ s. id s == k) rows ≡ none
  find_above n k [] h b = refl
  find_above n k (s ∷ rows) h b = ground (arith, find_above n k rows h b.1)

  pub Below-append :
      (n : ℕ) (rows : List A) (s : A) → Below n rows → id s < n → Below n (rows ++ s ∷ [])
  Below-append n [] s b h = (h, tt)
  Below-append n (t ∷ rows) s b h = (b.0, Below-append n rows s b.1 h)

  pub Below-filter : (n : ℕ) (p : A → Bool) (rows : List A) → Below n rows → Below n (filter p rows)
  Below-filter n p [] b = tt
  Below-filter n p (s ∷ rows) b = ground (arith, Below-filter n p rows b.1)

  pub Below-update :
      (n : ℕ) (hit : A → Bool) (f : A → A) (keeps : (s : A) → id (f s) ≡ id s) (rows : List A)
      → Below n rows
      → Below n (update_where hit f rows)
  Below-update n hit f keeps [] b = tt
  Below-update n hit f keeps (s ∷ rows) b =
      (ground (arith, keeps s), Below-update n hit f keeps rows b.1)

pub swap_bytes : (a b : Bytes) → bytes_eq a b ≡ true → bytes_eq b a ≡ true
swap_bytes a b h = ground (arith, bytes_eq_iff a b, bytes_eq_iff b a)
