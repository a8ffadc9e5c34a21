-- ===== src/Tests/Crypto.antt =====
-- Witnesses for go_vault.Crypto.
use go_vault.Prelude.{zero, suc, ◌≡◌, refl, [], ◌∷◌, some, Bytes, replicate}
use go_vault.Errors.{ok, ◌>>=◌}
use go_vault.Crypto.Aead.{wrap_key, unwrap_key}
use go_vault.Crypto.Aead.RoundTrip.{ReadsBack, seals_open}
use go_vault.Crypto.Item.{
  Item, ItemJson, encrypt_item, decrypt_item, wrap_totp_secret, unwrap_totp_secret,
}
use go_vault.Tests.Data.{plain}

-- A field is ended by a zero, and its bytes are raised by one.
pub put : Bytes → Bytes → Bytes
put [] rest = 0 ∷ rest
put (x ∷ xs) rest = suc x ∷ put xs rest

pub take_field : Bytes → Bytes × Bytes
take_field [] = ([], [])
take_field (zero ∷ rest) = ([], rest)
take_field (suc x ∷ rest) = let (xs, left) = take_field rest in (x ∷ xs, left)

take_field-put : (xs rest : Bytes) → take_field (put xs rest) ≡ (xs, rest)
unfolding take_field put
take_field-put [] rest = refl
take_field-put (x ∷ xs) rest = rw (take_field-put xs rest) refl

abbrev pub fields : ItemJson
fields = record {
  marshal = λ i.
      put i.name (put i.username (put i.password (put i.url (put i.notes (put i.totp_seed [])))));
  unmarshal = λ b.
      let (name, b1) = take_field b in
      let (username, b2) = take_field b1 in
      let (password, b3) = take_field b2 in
      let (url, b4) = take_field b3 in
      let (notes, b5) = take_field b4 in
      let (totp_seed, b6) = take_field b5 in
      some (record {
        name = name;
        username = username;
        password = password;
        url = url;
        notes = notes;
        totp_seed = totp_seed;
      });
}

pub fields-ReadsBack : ReadsBack fields
fields-ReadsBack i = simp take_field-put

abbrev key : Bytes
key = replicate 32 1

abbrev nonce : Bytes
nonce = replicate 24 2

abbrev pub note : Item
note = record {
  name = 1 ∷ [];
  username = [];
  password = 2 ∷ 0 ∷ [];
  url = [];
  notes = [];
  totp_seed = [];
}

seals_open_example :
    ((wrap_key plain (some nonce) key (3 ∷ []) [] >>= λ blob. unwrap_key plain key blob [])
      ≡ ok (3 ∷ []))
    × ((wrap_totp_secret plain (some nonce) key (4 ∷ []) >>= λ blob.
          unwrap_totp_secret plain key blob)
        ≡ ok (4 ∷ []))
    × ((encrypt_item plain fields (some nonce) key (some note) [] >>= λ blob.
          decrypt_item plain fields key blob [])
        ≡ ok note)
seals_open_example =
    seals_open plain fields nonce key (3 ∷ []) (4 ∷ []) [] note (λ k n t a. refl) fields-ReadsBack
      refl refl
