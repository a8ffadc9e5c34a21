-- ===== src/Tests/History.antt =====
-- Histories of a concrete server.
use go_vault.Prelude.{pos, ◌≡◌, refl, arith, List, [], ◌∷◌, none, some, true, codes, find, bytes_eq}
use go_vault.Storage.Audit.{belongs_to, timeline}
use go_vault.Storage.Sound.{IsSound}
use go_vault.Api.Server.{get, delete}
use go_vault.Api.Account.{delete_user}
use go_vault.Api.Account.Deletion.{IsErased}
use go_vault.Api.Router.{get_items, remove_user}
use go_vault.Api.Router.History.{Act, asks, waits, suffers, restarts, run}
use go_vault.Api.Router.History.Sound.{run-IsSound}
use go_vault.Api.Router.History.Gone.{deleted_for_good}
use go_vault.Api.Activity.{query_limit}
use go_vault.Api.Activity.Walk.{walk, walk_shows_all}
use go_vault.Tests.Data.{plain, server, bare, of}

server-IsSound : IsSound server.db
unfolding bytes_eq
server-IsSound = record {
  users = record {
    ids = (refl, (refl, tt));
    given = (omega arith, (omega arith, tt));
    owned = (refl, (refl, tt));
  };
  emails = (refl, (refl, tt));
  sessions = record {
    ids = (refl, (refl, tt));
    given = (omega arith, (omega arith, tt));
    owned = (refl, (refl, tt));
  };
  access = (refl, (refl, tt));
  refresh = (refl, (refl, tt));
  items = record {
    ids = (refl, (refl, tt));
    given = (omega arith, (omega arith, tt));
    owned = (refl, (refl, tt));
  };
  valid = (refl, (refl, tt));
  codes = record { ids = (refl, tt); given = (omega arith, tt); owned = (refl, tt) };
  challenges = record { ids = (refl, tt); given = (omega arith, tt); owned = (refl, tt) };
  tokens = (refl, tt);
  events = record {
    ids = (refl, (refl, (refl, tt)));
    given = (omega arith, (omega arith, (omega arith, tt)));
    owned = (refl, (refl, (refl, tt)));
  };
  devices = tt;
}

-- Alice deletes an account and the process is restarted while the database is out.
abbrev acts : List Act
acts =
    asks get_items (record (bare get) { access = some (1 ∷ []) })
    ∷ asks remove_user (record (bare delete) { access = some (1 ∷ []); csrf_header = codes "1" })
    ∷ waits 60
    ∷ suffers (λ n. true)
    ∷ restarts (pos 100) (pos 200)
    ∷ asks get_items (record (bare get) { access = some (3 ∷ []) })
    ∷ []

run-IsSound_example : IsSound (run plain acts server).db
run-IsSound_example = run-IsSound plain acts server server-IsSound

deleted_for_good_example :
    let db = (run plain acts (delete_user plain (of delete 1) server).1).db in
    IsErased 1 db × (find (belongs_to 1) db.audit_events ≡ none)
unfolding delete_user
deleted_for_good_example =
    deleted_for_good plain (of delete 1) 1 acts server server-IsSound (omega arith) refl refl

-- Pages of two events.
walk_shows_all_example :
    walk 4 (of get 1) (codes "2") none server ≡ timeline 1 none server.db.audit_events
unfolding query_limit
walk_shows_all_example =
    walk_shows_all (of get 1) (codes "2") 1 4 server refl (omega arith) (omega arith) (λ k. refl)
      (refl, (refl, (refl, tt))) (refl, (refl, (refl, tt))) (omega arith)
