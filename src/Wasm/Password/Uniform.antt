-- ===== src/Wasm/Password/Uniform.antt =====
-- No modulo bias: cmd/wasm/main.go, the inner loop of jsGeneratePassword over every value of a byte.
use go_vault.Prelude.{
  ℕ, zero, suc, ◌/◌, ◌<◌, ◌≡◌, refl, Bool, true, false, ◌&&◌, [], ◌∷◌, arith, Bytes, ◌==◌, length,
  filter,
}
use go_vault.Wasm.Password.{Classes, charset, char_at, take_chars}

abbrev pub occurrences : ℕ → Bytes → ℕ
occurrences c s = length (filter (λ x. x == c) s)

-- The numbers below `n`, the largest first.
abbrev pub below : ℕ → Bytes
below zero = []
below (suc n) = n ∷ below n

-- Whether each of `cs` occurs `n` times in `s`.
abbrev evenly : ℕ → Bytes → Bytes → Bool
evenly n s [] = true
evenly n s (c ∷ cs) = occurrences c s == n && evenly n s cs

evenly-holds :
    (n : ℕ) (s cs : Bytes) (i : ℕ)
    → evenly n s cs ≡ true
    → i < length cs
    → occurrences (char_at cs i) s ≡ n
unfolding char_at
evenly-holds n s [] i h lt = omega arith
evenly-holds n s (c ∷ cs) zero h lt = ground arith
evenly-holds n s (c ∷ cs) (suc i) h lt = ground (arith, evenly-holds n s cs i)

-- What the inner loop makes of a buffer that holds every byte once.
abbrev pub one_of_each : Classes → Bytes
one_of_each c = take_chars (charset c) 256 (below 256)

abbrev pick : Bool → Bool → Bool → Bool → Classes
pick u l d s = record { uppercase = u; lowercase = l; digits = d; symbols = s }

abbrev is_even : Classes → Bool
is_even c = evenly (256 / length (charset c)) (one_of_each c) (charset c)

abbrev both : (Bool → Bool) → Bool
both p = p false && p true

both-holds : (p : Bool → Bool) (b : Bool) → both p ≡ true → p b ≡ true
both-holds p false h = ground arith
both-holds p true h = ground arith

abbrev some_digits : Bool → Bool → Bool → Bool
some_digits u l d = both (λ s. is_even (pick u l d s))

every_selection : both (λ u. both (λ l. both (some_digits u l))) ≡ true
unfolding charset take_chars char_at
every_selection = refl

is_even-holds : (c : Classes) → is_even c ≡ true
is_even-holds c =
    let at_u = both-holds (λ u. both (λ l. both (some_digits u l))) c.uppercase every_selection in
    let at_l = both-holds (λ l. both (some_digits c.uppercase l)) c.lowercase at_u in
    let at_d = both-holds (some_digits c.uppercase c.lowercase) c.digits at_l in
    both-holds (λ s. is_even (pick c.uppercase c.lowercase c.digits s)) c.symbols at_d

-- Whichever classes are selected, over the 256 values of a byte each character of the charset is taken
-- equally often: 256 divided by the size of the charset, rounded down.
pub take_chars-uniform :
    (c : Classes) (i : ℕ)
    → i < length (charset c)
    → occurrences (char_at (charset c) i) (one_of_each c) ≡ 256 / length (charset c)
take_chars-uniform c i h =
    evenly-holds (256 / length (charset c)) (one_of_each c) (charset c) i (is_even-holds c) h
