-- ===== src/Api/Account/Rotation.antt =====
-- A change of the password, internal/api/handlers.go PutUserKey.
use go_vault.Prelude.{
  ℕ, ◌≡◌, refl, suc, List, [], ◌∷◌, none, some, arith, Bytes, ◌==◌, update_where, inl, inr,
  Option-cases, sym, ap, ◌∙◌,
}
use go_vault.Errors.{ok, Result-cases}
use go_vault.Primitives.{Primitives}
use go_vault.Storage.Db.{User, Db, key_rotation, no_metadata}
use go_vault.Storage.Users.{user_by_id, update_auth_credentials}
use go_vault.Crypto.Keys.{
  new_server_salt, derive_server_auth_hash, default_server_auth_params, server_salt_size_bytes,
}
use go_vault.Api.Server.{Request, Server, stop, response, no_body}
use go_vault.Api.Login.SecondFactor.{with_db}
use go_vault.Api.Reply.{validate_ciphertext, decode_auth_hash}
use go_vault.Api.Reply.Recording.{record_event-Recorded}
use go_vault.Api.Account.{UpdateKeyRequest, rekey, put_user_key}

user_by_id-update :
    (id : ℕ) (f : User → User) (users : List User) (u : User)
    → user_by_id id users ≡ some u
    → (f u).id ≡ u.id
    → user_by_id id (update_where (λ x. x.id == id) f users) ≡ some (f u)
user_by_id-update id f [] u h e = cc
user_by_id-update id f (x ∷ users) u h e = ground (arith, user_by_id-update id f users u)

-- The credentials that a user signs in with.
abbrev pub with_credentials : Bytes → Bytes → Bytes → Bytes → User → User
with_credentials hash salt kdf key u = record u {
  auth_hash = hash;
  auth_hash_salt = salt;
  kdf_params = kdf;
  protected_symmetric_key = key;
}

-- What a user's row shows of a new password.
pub record Rekeyed (p : Primitives) (body : UpdateKeyRequest) (client_hash : Bytes) (u : User)
    : Type 0 where
  pub verifies :
      derive_server_auth_hash p client_hash u.auth_hash_salt default_server_auth_params
      ≡ ok u.auth_hash
  pub key : u.protected_symmetric_key ≡ body.protected_symmetric_key
  pub kdf : u.kdf_params ≡ p.kdf_to_json body.kdf

-- The store takes new credentials.
update-users :
    (id : ℕ) (hash salt kdf key : Bytes) (db : Db) (u : User)
    → user_by_id id db.users ≡ some u
    → (update_auth_credentials id hash salt kdf key db).0
      ≡ ok (with_credentials hash salt kdf key u)
    → user_by_id id (update_auth_credentials id hash salt kdf key db).1.users
      ≡ some (with_credentials hash salt kdf key u)
unfolding update_auth_credentials
update-users id hash salt kdf key db u here done =
    ground (arith, user_by_id-update id (with_credentials hash salt kdf key) db.users u here refl)

module _ (p : Primitives) (r : Request) (body : UpdateKeyRequest) (id : ℕ) (u : User) where
  rekey-users :
      (hash salt : Bytes) (s : Server)
      → user_by_id id s.db.users ≡ some u
      → (rekey p r id body hash salt s).0 ≡ stop (response 200 no_body)
      → let t = (rekey p r id body hash salt s).1 in
        (user_by_id id t.db.users
          ≡ some
              (with_credentials hash salt (p.kdf_to_json body.kdf) body.protected_symmetric_key u))
        × (t.db.items ≡ s.db.items)
        × (t.db.sessions ≡ s.db.sessions)
  unfolding rekey update_auth_credentials
  rekey-users hash salt s here done =
      let made =
        update_auth_credentials id hash salt (p.kdf_to_json body.kdf) body.protected_symmetric_key
          s.db in
      ground (
        arith,
        update-users id hash salt (p.kdf_to_json body.kdf) body.protected_symmetric_key s.db u here,
        record_event-Recorded p r (some id) key_rotation none no_metadata (with_db made.1 s),
      )

abbrev drawn_once : Server → Server
drawn_once s = with_db (record s.db { draws = suc s.db.draws }) s

module _ (p : Primitives) (r : Request) (body : UpdateKeyRequest) (s : Server) (id : ℕ)
    (client_hash : Bytes) (who : r.user_id ≡ some id)
    (decoded : decode_auth_hash p body.auth_hash ≡ some client_hash) where
  -- An answer of 200 comes from the end of the handler.
  put_user_key-rekey :
      (salt hash : Bytes)
      → s.db.entropy s.db.draws server_salt_size_bytes ≡ some salt
      → derive_server_auth_hash p client_hash salt default_server_auth_params ≡ ok hash
      → (put_user_key p r (some body) s).0 ≡ stop (response 200 no_body)
      → put_user_key p r (some body) s ≡ rekey p r id body hash salt (drawn_once s)
  unfolding put_user_key validate_ciphertext new_server_salt
  put_user_key-rekey salt hash drawn derived done = ground (arith, drawn, derived, done)

  -- Then a salt was drawn, and a hash derived under it.
  put_user_key-derives :
      (put_user_key p r (some body) s).0 ≡ stop (response 200 no_body)
      → (salt : Bytes) × (hash : Bytes) × (s.db.entropy s.db.draws server_salt_size_bytes
          ≡ some salt)
        × (derive_server_auth_hash p client_hash salt default_server_auth_params ≡ ok hash)
  unfolding put_user_key validate_ciphertext new_server_salt
  put_user_key-derives done = elim (Option-cases (s.db.entropy s.db.draws server_salt_size_bytes)) [
    | inl dry ↦ ground (arith, dry, done)
    | inr (salt, drawn) ↦
        elim (Result-cases
          (derive_server_auth_hash p client_hash salt default_server_auth_params)) [
            | inl (hash, derived) ↦ (salt, hash, drawn, derived)
            | inr (e, failed) ↦ ground (arith, drawn, failed, done)
          ]
  ]

-- When PutUserKey answers 200, the stored user has the new wrapped key and KDF parameters, and the
-- stored hash is the one that a login with the new password derives under the stored salt. No item
-- and no session has changed.
pub put_user_key-Rekeyed :
    (p : Primitives) (r : Request) (body : UpdateKeyRequest) (s : Server) (id : ℕ) (u : User)
    (client_hash : Bytes)
    → r.user_id ≡ some id
    → user_by_id id s.db.users ≡ some u
    → decode_auth_hash p body.auth_hash ≡ some client_hash
    → (put_user_key p r (some body) s).0 ≡ stop (response 200 no_body)
    → let t = (put_user_key p r (some body) s).1 in
      ((u' : User) × (user_by_id id t.db.users ≡ some u') × Rekeyed p body client_hash u')
      × (t.db.items ≡ s.db.items)
      × (t.db.sessions ≡ s.db.sessions)
put_user_key-Rekeyed p r body s id u client_hash who here decoded done =
    let (salt, hash, drawn, derived) =
      put_user_key-derives p r body s id client_hash who decoded done in
    let same =
      put_user_key-rekey p r body s id client_hash who decoded salt hash drawn derived done in
    let stored =
      rekey-users p r body id u hash salt (drawn_once s) here (sym (ap (λ x. x.0) same) ∙ done) in
    (
      (
        with_credentials hash salt (p.kdf_to_json body.kdf) body.protected_symmetric_key u,
        ap (λ x. user_by_id id x.1.db.users) same ∙ stored.0,
        record { verifies = derived; key = refl; kdf = refl },
      ),
      ap (λ x. x.1.db.items) same ∙ stored.1,
      ap (λ x. x.1.db.sessions) same ∙ stored.2,
    )
