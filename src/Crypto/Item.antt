-- ===== src/Crypto/Item.antt =====
-- internal/crypto/item.go and totp_wrap.go. encoding/json on the struct Item is a parameter. The
-- zeroing of transient buffers leaves no trace in values and is left out.
use go_vault.Prelude.{Option, none, some, Bytes, codes}
use go_vault.Errors.{nil_item, bad_json, Result, ok, err, ◌>>=◌}
use go_vault.Primitives.{Primitives}
use go_vault.Crypto.Aead.{seal, open_blob}

pub record Item : Type 0 where
  pub name : Bytes
  pub username : Bytes
  pub password : Bytes
  pub url : Bytes
  pub notes : Bytes
  pub totp_seed : Bytes

-- json.Marshal and json.Unmarshal on Item.
pub record ItemJson : Type 0 where
  pub marshal : Item → Bytes
  pub unmarshal : Bytes → Option Item

abbrev pub or_bad_json : Option Item → Result Item
or_bad_json none = err bad_json
or_bad_json (some i) = ok i

abbrev pub totp_aad : Bytes
totp_aad = codes "totp-secret-v1"

module _ (p : Primitives) (json : ItemJson) where
  -- A nil pointer is `none`.
  unfoldable pub encrypt_item : Option Bytes → Bytes → Option Item → Bytes → Result Bytes
  unfolding seal
  encrypt_item random vault_key none aad = err nil_item
  encrypt_item random vault_key (some item) aad = seal p random vault_key (json.marshal item) aad

  unfoldable pub decrypt_item : Bytes → Bytes → Bytes → Result Item
  unfolding open_blob
  decrypt_item vault_key blob aad = do
    plaintext ← open_blob p vault_key blob aad
    or_bad_json (json.unmarshal plaintext)

module _ (p : Primitives) where
  unfoldable pub wrap_totp_secret : Option Bytes → Bytes → Bytes → Result Bytes
  unfolding seal
  wrap_totp_secret random vault_key secret = seal p random vault_key secret totp_aad

  unfoldable pub unwrap_totp_secret : Bytes → Bytes → Result Bytes
  unfolding open_blob
  unwrap_totp_secret vault_key wrapped = open_blob p vault_key wrapped totp_aad
