-- ===== src/Tests/Registrations.antt =====
-- Logins, registrations and forgotten passwords on the sample of accounts.
use easyrepair.Auth.Reset.Probe.{second_request_tells}
use easyrepair.Auth.Rows.{update_where, count_where, find_where}
use easyrepair.Auth.Login.Unlisted.{register_bare_lost}
use easyrepair.Auth.Reset.{
  consume_all_active_otps, create_password_reset_otp, issue_reset_code, request_reset_of,
  count_recent_otp_requests, request_reset, forgot_password_request, most_recent_reset_otp,
  normalize_phone,
}
use easyrepair.Auth.Sessions.{create_refresh_token, build_auth_response}
use easyrepair.Auth.Login.{
  worker_otp_login, client_otp_login, admin_login, not_admin, client_password_login, login,
  not_worker,
}
use easyrepair.Auth.Login.Entries.{LoginOutcome, named_and, by_its_password, by_its_code}
use easyrepair.Auth.Login.Outcome.{login_outcome}
use easyrepair.Auth.Phone.{
  national_significant, drop_text, strip_prefix, keep_chars, to_e164, same_text,
  phone_lookup_variants, text_length, is_pakistani_mobile, all_chars, compact, is_support_phone,
  normalize_pakistani_phone, is_national,
}
use easyrepair.Auth.Register.{register}
use easyrepair.Auth.Users.{
  is_one_of, create_user_with_profile, find_user_by_phone, find_user_by_phone_variants,
  find_account,
}
use easyrepair.Prelude.{
  ℕ, zero, ◌+◌, ◌≡◌, refl, true, ◌&&◌, Option, none, some, arith, find_first, is_row,
}
use easyrepair.Steps.{failed, done}
use easyrepair.Auth.State.{
  client_login_register, worker_login, is_worker_role, AuthDb, Role, phone_not_registered, User,
}
use easyrepair.Tests.Accounts.{
  worker_user, client_user, workers, clients, unused, unused_bare, bcrypt, account_db, config,
}

login_outcome_example :
    LoginOutcome config 200000 not_worker
      (named_and clients (by_its_password bcrypt 42))
      account_db
      (login config bcrypt 200000 71 clients 42 account_db)
    × LoginOutcome config 200000 not_admin
        (λ u. same_text u.phone clients && by_its_password bcrypt 42 clients u)
        account_db
        (admin_login config bcrypt 200000 71 clients 42 account_db)
    × LoginOutcome config 200000 is_worker_role
        (named_and clients (by_its_password bcrypt 42))
        account_db
        (client_password_login config bcrypt 200000 71 clients 42 account_db)
    × LoginOutcome config 200000 is_worker_role
        (named_and clients (by_its_code bcrypt 200000 client_login_register 123456 account_db))
        account_db
        (client_otp_login config bcrypt 200000 71 clients 123456 account_db)
    × LoginOutcome config 200000 not_worker
        (named_and clients (by_its_code bcrypt 200000 worker_login 123456 account_db))
        account_db
        (worker_otp_login config bcrypt 200000 71 clients 123456 account_db)
login_outcome_example = login_outcome config bcrypt 200000 71 clients 42 123456 account_db

-- After a registration of a number without its prefix.
abbrev registered_db : AuthDb
unfolding register find_user_by_phone create_user_with_profile build_auth_response
    create_refresh_token national_significant find_first same_text is_support_phone
registered_db = (register config bcrypt 200000 71 0 unused_bare 42 Role.client none account_db).1

registered :
    register config bcrypt 200000 71 0 unused_bare 42 Role.client none account_db
    ≡ (done (record { user_id = 3; refresh_token = 71 }), registered_db)
unfolding register find_user_by_phone create_user_with_profile build_auth_response
    create_refresh_token national_significant find_first same_text is_support_phone
registered = refl

unused_missing : find_account unused account_db ≡ none
unfolding find_account find_user_by_phone_variants phone_lookup_variants find_first is_one_of
    same_text strip_prefix
unused_missing = refl

register_bare_lost_example :
    (is_row (λ (u : User). same_text u.phone unused_bare) (registered_db.users 3) ≡ true)
    × (find_account unused registered_db ≡ none)
    × ((login config bcrypt 300000 72 unused_bare 42 registered_db).0 ≡ failed phone_not_registered)
    × ((client_password_login config bcrypt 300000 72 unused_bare 42 registered_db).0
        ≡ failed phone_not_registered)
unfolding is_national all_chars text_length
register_bare_lost_example =
    register_bare_lost config bcrypt unused_bare refl 200000 71 0 42 300000 72 42 Role.client none
      (record { user_id = 3; refresh_token = 71 }) account_db registered_db unused_missing
      registered

workers_found : find_account (normalize_phone workers) account_db ≡ some (1, worker_user)
unfolding normalize_pakistani_phone compact is_pakistani_mobile to_e164 keep_chars strip_prefix
    is_national text_length drop_text all_chars find_account find_user_by_phone_variants
    phone_lookup_variants find_first is_one_of same_text
workers_found = refl

no_account : find_account (normalize_phone unused_bare) account_db ≡ none
unfolding normalize_pakistani_phone compact is_pakistani_mobile to_e164 keep_chars strip_prefix
    is_national text_length drop_text all_chars find_account find_user_by_phone_variants
    phone_lookup_variants find_first is_one_of same_text
no_account = refl

abbrev requested_db : AuthDb
requested_db = (forgot_password_request config bcrypt 200000 555555 0 true workers account_db).1

one_request : count_recent_otp_requests 230000 (normalize_phone workers) requested_db ≡ 1
unfolding forgot_password_request request_reset request_reset_of issue_reset_code
    create_password_reset_otp consume_all_active_otps count_recent_otp_requests
    most_recent_reset_otp count_where find_where update_where normalize_pakistani_phone compact
    is_pakistani_mobile to_e164 keep_chars strip_prefix is_national text_length drop_text all_chars
    find_account find_user_by_phone_variants phone_lookup_variants find_first is_one_of same_text
    is_support_phone
one_request = refl

second_request_tells_example :
    ((forgot_password_request config bcrypt 230000 666666 0 true workers requested_db).0
      ≡ done (200000 + 300000))
    × ((forgot_password_request config bcrypt 230000 666666 0 true unused_bare requested_db).0
        ≡ done (230000 + 300000))
unfolding is_support_phone most_recent_reset_otp count_recent_otp_requests find_where count_where
second_request_tells_example =
    second_request_tells config bcrypt workers 1 worker_user 200000 555555 0 true account_db
      workers_found refl refl refl (omega arith) unused_bare 230000 666666 0 true refl no_account
      (omega arith) (omega (arith, one_request))

abbrev one_account : ℕ → Option User
one_account zero = some client_user
one_account _ = none

abbrev one_account_db : AuthDb
one_account_db = record account_db { users = one_account; next_user = 1 }
