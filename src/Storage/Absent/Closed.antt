-- ===== src/Storage/Absent/Closed.antt =====
-- Every statement that the handlers reach leaves an absent user absent.
use go_vault.Prelude.{ℕ}
use go_vault.Storage.Closed.{Closed}
use go_vault.Storage.Absent.{IsAbsent}
use go_vault.Storage.Absent.Users.{
  statement-IsAbsent, random_bytes-IsAbsent, create_user-IsAbsent, update_user-IsAbsent,
  delete_user-IsAbsent, enable_totp-IsAbsent, disable_totp-IsAbsent,
}
use go_vault.Storage.Absent.Rows.{
  create_session_pair-IsAbsent, rotate_session_tokens-IsAbsent, delete_by_access-IsAbsent,
  delete_all_sessions-IsAbsent, create_item-IsAbsent, update_item-IsAbsent, delete_item-IsAbsent,
  append_event-IsAbsent, insert_device-IsAbsent,
}
use go_vault.Storage.Absent.Mfa.{
  delete_codes-IsAbsent, replace_codes-IsAbsent, mark_code-IsAbsent, create_challenge-IsAbsent,
  consume_challenge-IsAbsent,
}

module _ (id : ℕ) where
  pub IsAbsent-Closed : Closed (IsAbsent id)
  IsAbsent-Closed = record {
    reads = statement-IsAbsent id;
    draws = random_bytes-IsAbsent id;
    creates_user = create_user-IsAbsent id;
    updates_user = update_user-IsAbsent id;
    deletes_user = delete_user-IsAbsent id;
    creates_session = create_session_pair-IsAbsent id;
    rotates_session = rotate_session_tokens-IsAbsent id;
    deletes_session = delete_by_access-IsAbsent id;
    deletes_sessions = delete_all_sessions-IsAbsent id;
    creates_item = create_item-IsAbsent id;
    updates_item = update_item-IsAbsent id;
    deletes_item = delete_item-IsAbsent id;
    enables_totp = enable_totp-IsAbsent id;
    disables_totp = disable_totp-IsAbsent id;
    deletes_codes = delete_codes-IsAbsent id;
    replaces_codes = replace_codes-IsAbsent id;
    marks_code = mark_code-IsAbsent id;
    creates_challenge = create_challenge-IsAbsent id;
    consumes_challenge = consume_challenge-IsAbsent id;
    appends_event = append_event-IsAbsent id;
    inserts_device = insert_device-IsAbsent id;
  }
