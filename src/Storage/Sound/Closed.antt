-- ===== src/Storage/Sound/Closed.antt =====
-- The constraints of db/schema.sql are kept by every statement that the handlers reach.
use go_vault.Storage.Closed.{Closed}
use go_vault.Storage.Sound.{IsSound}
use go_vault.Storage.Sound.Statements.{
  statement-IsSound, random_bytes-IsSound, create_user-IsSound, update_user-IsSound,
  delete_user-IsSound,
}
use go_vault.Storage.Sound.Sessions.{
  create_session_pair-IsSound, rotate_session_tokens-IsSound, delete_by_access-IsSound,
  delete_all_sessions-IsSound,
}
use go_vault.Storage.Sound.Items.{create_item-IsSound, update_item-IsSound, delete_item-IsSound}
use go_vault.Storage.Sound.Mfa.{
  enable_totp-IsSound, disable_totp-IsSound, delete_codes-IsSound, mark_code-IsSound,
  create_challenge-IsSound, consume_challenge-IsSound,
}
use go_vault.Storage.Sound.Transaction.{replace_codes-IsSound}
use go_vault.Storage.Sound.Audit.{append_event-IsSound, insert_device-IsSound}

pub IsSound-Closed : Closed IsSound
IsSound-Closed = record {
  reads = statement-IsSound;
  draws = random_bytes-IsSound;
  creates_user = create_user-IsSound;
  updates_user = update_user-IsSound;
  deletes_user = delete_user-IsSound;
  creates_session = create_session_pair-IsSound;
  rotates_session = rotate_session_tokens-IsSound;
  deletes_session = delete_by_access-IsSound;
  deletes_sessions = delete_all_sessions-IsSound;
  creates_item = create_item-IsSound;
  updates_item = update_item-IsSound;
  deletes_item = delete_item-IsSound;
  enables_totp = enable_totp-IsSound;
  disables_totp = disable_totp-IsSound;
  deletes_codes = delete_codes-IsSound;
  replaces_codes = replace_codes-IsSound;
  marks_code = mark_code-IsSound;
  creates_challenge = create_challenge-IsSound;
  consumes_challenge = consume_challenge-IsSound;
  appends_event = append_event-IsSound;
  inserts_device = insert_device-IsSound;
}
