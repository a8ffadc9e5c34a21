-- ===== src/Api/Activity.antt =====
-- internal/api/handlers_phase5.go GetActivity and helpers.go parseIntParam. An event in a response
-- is its row.
pub mod Paging
pub mod Timeline
pub mod Walk
use go_vault.Prelude.{
  ℕ, ◌+◌, ◌-◌, ◌*◌, ◌%◌, ◌^◌, Bool, true, false, ◌&&◌, ◌||◌, List, [], ◌∷◌, Option, none, some,
  if◌then◌else◌, Bytes, ltb, leb, ◌==◌, take, length,
}
use go_vault.Storage.Db.{AuditEvent}
use go_vault.Storage.Audit
use go_vault.Api.Server.{
  Request, Handler, ◌>>=◌, ◌>>◌, pure, reply, or_reply, ok_or_reply, call, error, activity,
  authentication_required,
}

abbrev pub int_size : ℕ
int_size = 2 ^ 64

-- The loop of parseIntParam on int64 as bit patterns: n*10 + digit wraps.
unfoldable pub parse_digits : ℕ → Bytes → Option ℕ
parse_digits n [] = some n
parse_digits n (c ∷ cs) = elim (ltb c b'0' || ltb b'9' c) [
  | true ↦ none
  | false ↦ parse_digits ((n * 10 + (c - b'0')) % int_size) cs
]

unfoldable pub parse_int_param : Bytes → Option ℕ
unfolding parse_digits
parse_int_param s = parse_digits 0 s

-- `n > 0` on an int64: the upper half of the patterns is negative.
abbrev pub is_positive : ℕ → Bool
is_positive n = ltb 0 n && ltb n (2 ^ 63)

abbrev pub positive_or : ℕ → Option ℕ → ℕ
positive_or default none = default
positive_or default (some n) = if is_positive n then n else default

-- The limit that getActivity passes on; an empty parameter is an absent one.
unfoldable pub query_limit : Bytes → ℕ
unfolding parse_int_param
query_limit [] = 50
query_limit (c ∷ cs) = positive_or 50 (parse_int_param (c ∷ cs))

-- `events[len(events)-1].ID`
unfoldable pub last_id : List AuditEvent → Option ℕ
last_id [] = none
last_id (ev ∷ []) = some ev.id
last_id (ev ∷ next ∷ rest) = last_id (next ∷ rest)

-- A page and its cursor, of the events that the store returned.
unfoldable pub page : ℕ → List AuditEvent → List AuditEvent × Option ℕ
unfolding last_id
page limit events =
    if ltb limit (length events)
    then (take limit events, last_id (take limit events))
    else (events, none)

-- The cursor is the parsed query parameter: one that does not parse is absent.
unfoldable pub get_activity : Request → Bytes → Option ℕ → Handler (Unit {0})
unfolding query_limit Audit.list_by_user page
get_activity r raw_limit cursor = do
  user_id ← or_reply r.user_id 401 authentication_required
  found ← call (Audit.list_by_user user_id cursor (query_limit raw_limit))
  events ← ok_or_reply found 500 (error "failed to load activity")
  let shown = page (query_limit raw_limit) events
  reply 200 (activity shown.0 shown.1)
