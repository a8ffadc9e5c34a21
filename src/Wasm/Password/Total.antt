-- ===== src/Wasm/Password/Total.antt =====
-- The loop of cmd/wasm/main.go jsGeneratePassword ends, with as many characters as were asked for.
use go_vault.Prelude.{
  ◌*◌, if◌then◌else◌, ℕ, zero, suc, ◌+◌, ◌*◌, ◌≤◌, ◌≡◌, Bool, true, false, ◌||◌, [], ◌∷◌, Option,
  some, Bytes, ltb, ◌&&◌, ◌==◌, length,
}
use go_vault.Wasm.Outcome.{Outcome, returns, panics}
use go_vault.Wasm.Password.{Classes, charset, max_byte}

abbrev pub has : Bytes → ℕ → Bool
has [] c = false
has (x ∷ xs) c = x == c || has xs c

-- Every character of the text is one of `chars`.
abbrev pub only : Bytes → Bytes → Bool
only chars [] = true
only chars (c ∷ cs) = has chars c && only chars cs

-- How many bytes of a buffer are not rejected.
abbrev pub accepted : ℕ → Bytes → ℕ
accepted n [] = 0
accepted n (b ∷ bs) = if ltb b (max_byte n) then suc (accepted n bs) else accepted n bs

-- What every result so far satisfies.
abbrev Fits : Bytes → ℕ → Bytes → Type 0
Fits chars size result = (length result ≤ size) × (only chars result ≡ true)

-- Each read succeeds; `bufs` are the buffers.
abbrev pub Reads : (ℕ → ℕ → Option Bytes) → (ℕ → Bytes) → Type 0
Reads draws bufs = (read size : ℕ) → draws read size ≡ some (bufs read)

-- The accepted bytes of the next `rounds` buffers.
abbrev pub supply : ℕ → (ℕ → Bytes) → ℕ → ℕ → ℕ
supply n bufs read zero = 0
supply n bufs read (suc rounds) = accepted n (bufs read) + supply n bufs (read + 1) rounds

abbrev pub Password : Bytes → ℕ → Outcome Bytes → Type 0
Password chars size o =
    (out : Bytes) × (o ≡ returns out) × (length out ≡ size) × (only chars out ≡ true)

-- A length that is out of range, or no class.
abbrev pub refuses : ℕ → Classes → Bool
refuses size c = size == 0 || ltb 128 size || length (charset c) == 0

abbrev pub Answer : Bytes → ℕ → Bool → Outcome Bytes → Type 0
Answer chars size true o = o ≡ panics
Answer chars size false o = Password chars size o
