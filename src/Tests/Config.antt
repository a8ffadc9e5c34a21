-- ===== src/Tests/Config.antt =====
-- Witnesses for go_vault.Config and go_vault.Startup.
use go_vault.Prelude.{◌≡◌, false, true, none, some, if◌then◌else◌, bytes_eq, codes, negsuc}
use go_vault.Config.{Platform, is_local, load}
use go_vault.Startup.{Host, signalled, run, exit_status}
use go_vault.Startup.Lifecycle.{Clean, run-Clean}
use go_vault.Config.Verdict.{Verdict, load-Verdict}

-- A DSN, and a negative lifetime for the access token.
abbrev negative_lifetime : Platform
negative_lifetime = record {
  lookup_env = λ key.
      if bytes_eq key (codes "DATABASE_URL")
      then some (codes "postgres:")
      else if bytes_eq key (codes "ACCESS_TOKEN_DURATION")
      then some (codes "-1ns")
      else none;
  atoi = λ s. true;
  parse_duration = λ s. some (negsuc 0);
  hostname = λ s. some (codes "localhost");
}

load-Verdict_example : Verdict negative_lifetime true (load negative_lifetime)
unfolding bytes_eq is_local
load-Verdict_example = load-Verdict negative_lifetime

-- The database answers, and a signal comes, but the shutdown takes too long.
abbrev slow_host : Host
slow_host = record {
  opens_pool = λ dsn. true;
  answers = true;
  waited = signalled;
  shuts_down = false;
}

run-Clean_example :
    Clean negative_lifetime (run slow_host negative_lifetime).1
    × (exit_status (run slow_host negative_lifetime) ≡ 1)
unfolding bytes_eq is_local
run-Clean_example = run-Clean slow_host negative_lifetime
