-- ===== src/Tests/Sessions.antt =====
-- Sessions on the sample of accounts.
use easyrepair.Auth.Phone.{
  phone_lookup_variants, all_chars, drop_text, text_length, is_national, strip_prefix, keep_chars,
  to_e164, is_pakistani_mobile, compact, normalize_pakistani_phone,
}
use easyrepair.Prelude.{zero, suc, ◌+◌, ◌≡◌, refl, none, arith, ltb, if◌then◌else◌}
use easyrepair.Steps.{failed, done}
use easyrepair.Auth.State.{AuthDb, invalid_refresh_token}
use easyrepair.Auth.Sessions.{
  delete_account, save_fcm_token, logout, Session, refresh_tokens, refresh_stored, rotate,
  rotate_refresh_token, create_refresh_token,
}
use easyrepair.Auth.Sessions.Laws.{RefreshOutcome, refresh_outcome, refresh_retry}
use easyrepair.Auth.Sessions.SignOut.{
  GivesNone, HasOneUserPerDevice, sign_out_ends_sessions, devices-HasOneUserPerDevice,
}
use easyrepair.Auth.Phone.Laws.{AllNormalize, lookup_variants_normalize}
use easyrepair.Tests.Accounts.{local, clients, client_user, client_token, account_db, config}

lookup_variants_normalize_example : AllNormalize clients (phone_lookup_variants clients)
unfolding normalize_pakistani_phone compact is_pakistani_mobile to_e164 keep_chars strip_prefix
    is_national text_length drop_text all_chars
lookup_variants_normalize_example = lookup_variants_normalize local refl

refresh_outcome_example :
    RefreshOutcome config 200000 71 70
      (account_db.refresh_tokens 70)
      account_db
      (refresh_tokens config 200000 71 70 account_db)
refresh_outcome_example = refresh_outcome config 200000 71 70 account_db

-- After the client's token was rotated.
abbrev rotated_db : AuthDb
unfolding refresh_tokens
rotated_db = (refresh_tokens config 200000 71 70 account_db).1

abbrev rotated_session : Session
rotated_session = record { user_id = 0; refresh_token = 71 }

rotated : refresh_tokens config 200000 71 70 account_db ≡ (done rotated_session, rotated_db)
unfolding refresh_tokens refresh_stored rotate rotate_refresh_token create_refresh_token
rotated = refl

refresh_retry_example : refresh_tokens config 230000 72 70 rotated_db ≡ (
    if ltb 230000 (200000 + 60000)
    then (done rotated_session, rotated_db)
    else (failed invalid_refresh_token, rotated_db))
refresh_retry_example =
    refresh_retry config 200000 71 70 230000 72 client_token rotated_session account_db rotated_db
      refl refl rotated (omega arith)

sign_out_ends_sessions_example :
    GivesNone 0 (refresh_tokens config 230000 72 70 (logout 0 none account_db).1)
    × GivesNone 0 (refresh_tokens config 230000 72 70 (delete_account 220000 0 account_db).1)
sign_out_ends_sessions_example =
    sign_out_ends_sessions config 0 220000 230000 72 70 client_user account_db refl

one_device : HasOneUserPerDevice account_db
one_device zero zero device here there = refl
one_device (suc zero) j device here there = cc
one_device (suc (suc zero)) j device here there = cc
one_device (suc (suc (suc i))) j device here there = absurd here
one_device zero (suc zero) device here there = cc
one_device zero (suc (suc zero)) device here there = cc
one_device zero (suc (suc (suc j))) device here there = absurd there

devices-HasOneUserPerDevice_example :
    HasOneUserPerDevice (save_fcm_token 1 900 account_db).1
    × HasOneUserPerDevice (logout 1 none account_db).1
    × HasOneUserPerDevice (delete_account 220000 1 account_db).1
devices-HasOneUserPerDevice_example =
    devices-HasOneUserPerDevice 220000 1 900 none account_db one_device
