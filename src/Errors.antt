-- ===== src/Errors.antt =====
-- The error values of the program and of the database driver. Wrapping by `fmt.Errorf("…: %w", err)`
-- keeps what `errors.Is` sees, and is the identity here.
use go_vault.Prelude.{◌≡◌, refl, ◌⊎◌, inl, inr}

pub data Error : Type 0 where
  -- pgx.ErrNoRows, the Postgres constraint failures, and any other failure of a statement
  no_rows unique_violation foreign_key_violation check_violation unavailable : Error
  -- internal/storage: ErrNotFound, ErrConflict, and revisionAsInt32's error
  not_found conflict revision_out_of_range : Error
  -- internal/auth: ErrSessionInvalid
  session_invalid : Error
  -- crypto/rand failed
  no_entropy : Error
  -- internal/crypto
  hkdf_failed empty_password empty_salt empty_master_key empty_auth_hash invalid_kdf_params : Error
  invalid_key_size ciphertext_too_short open_failed nil_item bad_json : Error

-- A value or an error, as a function with two results returns them.
pub data Result {ℓ} (A : Type ℓ) : Type ℓ where
  ok : A → Result A
  err : Error → Result A

infixl 5 ◌>>=◌ ◌>>◌
abbrev pub ◌>>=◌ {ℓ κ} : {A : Type ℓ} {B : Type κ} → Result A → (A → Result B) → Result B
ok a >>= f = f a
err e >>= f = err e

abbrev pub ◌>>◌ {ℓ κ} : {A : Type ℓ} {B : Type κ} → Result A → Result B → Result B
m >> k = m >>= λ _. k

pub Result-cases {ℓ} :
    {A : Type ℓ} (r : Result A) → ((a : A) × (r ≡ ok a)) ⊎ ((e : Error) × (r ≡ err e))
Result-cases (ok a) = inl (a, refl)
Result-cases (err e) = inr (e, refl)
