-- ===== src/Api/Register/Silent.antt =====
-- Registration tells nobody which emails are taken, internal/api/handlers.go PostRegister.
use go_vault.Prelude.{ℕ, ◌≡◌, false, List, Option, none, some, arith, Bytes}
use go_vault.Errors.{ok}
use go_vault.Primitives.{Primitives}
use go_vault.Storage.Db.{User}
use go_vault.Api.Server.{Request, Server, stop, response, no_body}
use go_vault.Api.Register.{RegisterRequest, registered, store_user, post_register}
use go_vault.Api.Reply.Recording.{record_event-Recorded}
use go_vault.Storage.Db.{register, outcome_created}

module _ (p : Primitives) (r : Request) where
  registered_ok :
      (user : User) (s : Server) → (registered p r (ok user) s).0 ≡ stop (response 201 no_body)
  unfolding registered
  registered_ok user s =
      ground (arith, record_event-Recorded p r none register none outcome_created s)

  store_user-answer :
      (email kdf hash salt key : Bytes) (s : Server)
      → s.db.outage s.db.queries ≡ false
      → (store_user p r email kdf hash salt key s).0 ≡ stop (response 201 no_body)
  unfolding store_user
  store_user-answer email kdf hash salt key s up = grind (arith, registered_ok)

abbrev pub with_users : List User → Server → Server
with_users users s = record s { db = record s.db { users = users } }

-- Whatever a registration asks for, the answer is the same whichever users there are: an email that is
-- taken and one that is free cannot be told apart. The database is reached.
pub post_register_silent :
    (p : Primitives) (r : Request) (body : Option RegisterRequest) (users : List User) (s : Server)
    → ((n : ℕ) → s.db.outage n ≡ false)
    → (post_register p r body (with_users users s)).0 ≡ (post_register p r body s).0
unfolding post_register
post_register_silent p r none users s up = ground arith
post_register_silent p r (some b) users s up = grind (arith, store_user-answer, up s.db.queries)
