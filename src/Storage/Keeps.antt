-- ===== src/Storage/Keeps.antt =====
-- Properties of the tables that queries keep, with a rule for each way of composing them.
use go_vault.Prelude.{Bool, true, false, Option, none, some, if◌then◌else◌}
use go_vault.Errors.{Error, Result, ok, err}
use go_vault.Storage.Db.{
  Db, Query, ◌>>=◌, ◌>>◌, pure, fail, gets, one, try, of_result, guard, or_not_found,
}

-- From tables with the property, the query leaves tables with it, whether or not it fails.
pub record Keeps (P : Db → Type 0) {A : Type 0} (q : Query A) : Type 0 where
  pub at : (db : Db) → P db → P (q db).1

module _ {P : Db → Type 0} {A : Type 0} where
  pub kept_pure : (a : A) → Keeps P (pure a)
  kept_pure a = record { at = λ db h. h }

  pub kept_fail : (e : Error) → Keeps P (fail {A = A} e)
  kept_fail e = record { at = λ db h. h }

  pub kept_gets : (f : Db → A) → Keeps P (gets f)
  kept_gets f = record { at = λ db h. h }

  pub kept_of_result : (r : Result A) → Keeps P (of_result r)
  kept_of_result r = record { at = λ db h. h }

  pub kept_one : (o : Option A) → Keeps P (one o)
  kept_one none = record { at = λ db h. h }
  kept_one (some a) = record { at = λ db h. h }

  pub kept_try : (q : Query A) → Keeps P q → Keeps P (try q)
  kept_try q k = record { at = k.at }

  pub kept_if : {q q' : Query A} (c : Bool) → Keeps P q → Keeps P q' → Keeps P (if c then q else q')
  kept_if true k k' = k
  kept_if false k k' = k'

  pub kept_or_not_found : (q : Query A) → Keeps P q → Keeps P (or_not_found q)
  kept_or_not_found q k = record { at = λ db h. go (q db) (k.at db h) }
    where
      go : (out : Result A × Db) → P out.1 → P (or_not_found (λ db. out) out.1).1
      go (ok a, db) h = h
      go (err e, db) h = h

module _ {P : Db → Type 0} {A B : Type 0} where
  pub kept_bind :
      {m : Query A} {f : A → Query B} → Keeps P m → ((a : A) → Keeps P (f a)) → Keeps P (m >>= f)
  kept_bind {m} {f} km kf = record { at = λ db h. go (m db) (km.at db h) }
    where
      go : (out : Result A × Db) → P out.1 → P (◌>>=◌ (λ db. out) f out.1).1
      go (ok a, db) h = (kf a).at db h
      go (err e, db) h = h

  pub kept_then : {m : Query A} {k : Query B} → Keeps P m → Keeps P k → Keeps P (m >> k)
  kept_then km kk = kept_bind km (λ a. kk)

pub kept_guard : {P : Db → Type 0} (c : Bool) (e : Error) → Keeps P (guard c e)
kept_guard c e = record { at = λ db h. h }

pub ruleset kept_rules = (
  kept_pure, kept_fail, kept_gets, kept_of_result, kept_one, kept_if, kept_bind, kept_then,
  kept_guard,
)
