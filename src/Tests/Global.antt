-- ===== src/Tests/Global.antt =====
-- Witnesses for go_vault.Api.Global: a handler that panics after its status, and a user's items.
use go_vault.Prelude.{◌≡◌, refl, [], ◌∷◌, List, none, some, Bytes, codes, bytes_eq, All, true}
use go_vault.Api.Server.{get, Cookie}
use go_vault.Api.Http.{Call, Step, sets, sends, panic, deliver, content_type}
use go_vault.Api.Global.{new_request_id, exchange}
use go_vault.Api.Global.Hardened.{hardening, answer, exchange-hardening}
use go_vault.Api.Global.Logged.{Outcome, exchange-Outcome}
use go_vault.Api.Global.Served.{Carries, mux, exchange-Carries}
use go_vault.Api.Router.{get_items, serve}
use go_vault.Tests.Data.{plain, server, bare}

abbrev fails_late : Call → List Step
fails_late c = sets content_type (codes "text/plain") ∷ sends 201 ∷ panic ∷ []

abbrev asks : Call
asks = record {
  method = get;
  path = codes "/api/items";
  user_agent = codes "browser";
  request_id = none;
  agent = none;
  body_limit = none;
}

exchange-hardening_example :
    All
      (λ (name, value).
        (answer (some (1 ∷ [])) [] (codes "https://vault") fails_late asks).headers name
        ≡ value ∷ [])
      (hardening (new_request_id (some (1 ∷ [])) []) (codes "https://vault"))
unfolding bytes_eq
exchange-hardening_example =
    exchange-hardening (some (1 ∷ [])) [] (codes "https://vault") fails_late asks (λ c. refl)

exchange-Outcome_example :
    Outcome
      (codes "now")
      asks
      true
      201
      (exchange none (codes "now") (codes "https://vault") fails_late asks)
unfolding new_request_id
exchange-Outcome_example =
    exchange-Outcome none (codes "now") (codes "https://vault") fails_late asks refl

abbrev cookie_text : Cookie → Bytes
cookie_text c = codes "cookie"

exchange-Carries_example :
    Carries cookie_text get
      (serve plain get_items (record (bare get) { user_agent = codes "browser" }) server).0
      (serve plain get_items (record (bare get) { user_agent = codes "browser" }) server).1.cookies
      (deliver get
        (exchange none
          (codes "now")
          (codes "https://vault")
          (mux plain cookie_text get_items (bare get) server)
          asks).1.writer)
exchange-Carries_example =
    exchange-Carries none (codes "now") (codes "https://vault") plain cookie_text get_items
      (bare get) server asks
