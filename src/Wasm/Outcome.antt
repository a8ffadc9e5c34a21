-- ===== src/Wasm/Outcome.antt =====
-- How a call of cmd/wasm/main.go ends.
use go_vault.Errors.{Result, ok, err}

-- What a call gives: a value, a panic, or, in the model only, that its fuel ran out.
pub data Outcome {ℓ} (A : Type ℓ) : Type ℓ where
  returns : A → Outcome A
  panics : Outcome A
  runs_on : Outcome A

infixl 5 ◌>>=◌
abbrev pub ◌>>=◌ {ℓ κ} : {A : Type ℓ} {B : Type κ} → Outcome A → (A → Outcome B) → Outcome B
returns a >>= f = f a
panics >>= f = panics
runs_on >>= f = runs_on

-- `if err != nil { panic(err.Error()) }`
abbrev pub or_panic {ℓ} : {A : Type ℓ} → Result A → Outcome A
or_panic (ok a) = returns a
or_panic (err e) = panics
