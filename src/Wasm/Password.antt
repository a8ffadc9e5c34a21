-- ===== src/Wasm/Password.antt =====
-- cmd/wasm/main.go jsGeneratePassword. `draws` stands for crypto/rand: the buffer that its n-th read
-- fills, whose size is given.
pub mod Uniform
pub mod Total
use go_vault.Prelude.{
  ℕ, zero, suc, ◌+◌, ◌-◌, ◌*◌, ◌%◌, Bool, true, false, ◌||◌, List, [], ◌∷◌, ◌++◌, Option, none,
  some, if◌then◌else◌, Bytes, codes, ltb, ◌==◌, length,
}
use go_vault.Wasm.Outcome.{Outcome, returns, panics, runs_on}

abbrev pub upper_chars : Bytes
upper_chars = codes "ABCDEFGHIJKLMNOPQRSTUVWXYZ"

abbrev pub lower_chars : Bytes
lower_chars = codes "abcdefghijklmnopqrstuvwxyz"

abbrev pub digit_chars : Bytes
digit_chars = codes "0123456789"

abbrev pub symbol_chars : Bytes
symbol_chars = codes "!@#$%^&*()_+-=[]{}|;:,.<>?"

pub record Classes : Type 0 where
  pub uppercase : Bool
  pub lowercase : Bool
  pub digits : Bool
  pub symbols : Bool

abbrev pub class_chars : Bool → Bytes → Bytes
class_chars true chars = chars
class_chars false chars = []

unfoldable pub charset : Classes → Bytes
charset c =
    class_chars c.uppercase upper_chars
    ++ (class_chars c.lowercase lower_chars
        ++ (class_chars c.digits digit_chars ++ class_chars c.symbols symbol_chars))

-- The largest multiple of `n` up to 256.
abbrev pub max_byte : ℕ → ℕ
max_byte n = 256 - 256 % n

-- `charset[i]`, which is within bounds.
unfoldable pub char_at : Bytes → ℕ → ℕ
char_at [] i = 0
char_at (c ∷ cs) zero = c
char_at (c ∷ cs) (suc i) = char_at cs i

-- The characters that a buffer gives, at most `room` of them: the inner loop with its break.
unfoldable pub take_chars : Bytes → ℕ → Bytes → Bytes
unfolding char_at
take_chars chars zero buf = []
take_chars chars (suc room) [] = []
take_chars chars (suc room) (b ∷ buf) = elim (ltb b (max_byte (length chars))) [
  | true ↦ char_at chars (b % length chars) ∷ take_chars chars room buf
  | false ↦ take_chars chars (suc room) buf
]

-- One round: the result so far with what the buffer gives.
abbrev pub grown : Bytes → ℕ → Bytes → Bytes → Bytes
grown chars size result buf = result ++ take_chars chars (size - length result) buf

-- `for len(result) < length`, with the rounds left as fuel and the number of the next read. A read
-- that fails panics.
unfoldable pub fill : (ℕ → ℕ → Option Bytes) → Bytes → ℕ → ℕ → ℕ → Bytes → Outcome Bytes
unfolding take_chars
fill draws chars size zero n result = if ltb (length result) size then runs_on else returns result
fill draws chars size (suc fuel) n result = elim (ltb (length result) size) [
  | false ↦ returns result
  | true ↦ elim (draws n (size * 4)) [
    | none ↦ panics
    | some buf ↦ fill draws chars size fuel (n + 1) (grown chars size result buf)
  ]
]

-- The length is an int in the source: one that is not positive is 0 here.
unfoldable pub generate_password : (ℕ → ℕ → Option Bytes) → ℕ → ℕ → Classes → Outcome Bytes
unfolding charset fill
generate_password draws fuel size classes =
    if size == 0 || ltb 128 size
    then panics
    else if length (charset classes) == 0
    then panics
    else fill draws (charset classes) size fuel 0 []
