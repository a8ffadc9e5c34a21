-- ===== src/Tests/Wasm.antt =====
-- Witnesses for go_vault.Wasm.
use go_vault.Prelude.{
  ◌%◌, ◌==◌, if◌then◌else◌, ℕ, zero, suc, ◌≡◌, refl, ap, true, false, [], ◌∷◌, some, Bytes,
  replicate, codes, arith, length, Option,
}
use go_vault.Primitives.{Primitives}
use go_vault.Crypto.Kdf.{default_kdf_params, validate}
use go_vault.Crypto.Text.{normalize_email}
use go_vault.Wasm.Outcome.{returns, ◌>>=◌}
use go_vault.Wasm.Password.{Classes, charset, char_at}
use go_vault.Wasm.Password.Uniform.{occurrences, one_of_each, take_chars-uniform}
use go_vault.Wasm.Bindings.Sound.{Sound}
use go_vault.Wasm.Bindings.Device.{Draws, first_device, second_device, second_device-first_device}
use go_vault.Tests.Data.{plain}
use go_vault.Tests.Crypto.{fields, fields-ReadsBack, note}

abbrev digits_only : Classes
digits_only = record { uppercase = false; lowercase = false; digits = true; symbols = false }

take_chars-uniform_example :
    occurrences (char_at (charset digits_only) 3) (one_of_each digits_only) ≡ 25
unfolding charset char_at
take_chars-uniform_example = take_chars-uniform digits_only 3 (omega arith)

-- Every second buffer has one byte that is accepted.
abbrev meagre : ℕ → Bytes
meagre read = if read % 2 == 0 then 255 ∷ [] else 13 ∷ 250 ∷ []

abbrev one_good : ℕ → ℕ → Option Bytes
one_good read size = some (meagre read)

length-replicate : (n x : ℕ) → length (replicate n x) ≡ n
length-replicate zero x = refl
length-replicate (suc n) x = ap suc (length-replicate n x)

-- Derived keys are made of one byte, of the size that is asked for.
abbrev sized : Primitives
sized = record plain {
  argon2id = λ pw salt iterations memory parallelism size. replicate size 1;
  hkdf_expand = λ secret info size. some (replicate size 2);
}

sized-Sound : Sound sized (λ b. b) fields
sized-Sound = record {
  opens = λ key nonce text aad. refl;
  reads = fields-ReadsBack;
  decodes = λ b. refl;
  argon2id-length = λ pw salt i m t n. length-replicate n 1;
  hkdf-length = λ secret info n h. (replicate n 2, refl, length-replicate n 2);
}

abbrev device_draws : Draws
device_draws = record {
  vault_key = replicate 32 3;
  wrap_nonce = replicate 24 4;
  item_nonce = replicate 24 5;
  totp_nonce = replicate 24 6;
}

second_device-first_device_example :
    (first_device sized
        (λ b. b)
        fields
        device_draws
        (codes "pw")
        (codes "al")
        []
        (fields.marshal note)
        (7 ∷ [])
      >>= λ stored. second_device sized (λ b. b) fields (codes "pw") (codes " al") [] stored)
    ≡ returns (fields.marshal note, 7 ∷ [])
unfolding normalize_email validate
second_device-first_device_example =
    second_device-first_device sized (λ b. b) fields device_draws (codes "pw") (codes "al")
      (codes " al") [] (7 ∷ []) default_kdf_params note sized-Sound (refl, refl, refl, refl) refl
      refl refl refl refl
