-- ===== src/Auth/Reset/Probe.antt =====
-- What the answers to requests for a new password say about a number.
use easyrepair.Auth.Otp.Pacing.{same_text_refl}
use easyrepair.Auth.Otp.{otp_expiry_ms}
use easyrepair.Auth.Rows.{find_where}
use easyrepair.Auth.Reset.{
  issue_reset_code, request_reset_of, request_reset, consume_all_active_otps,
  create_password_reset_otp, forgot_password_request, count_recent_otp_requests,
  most_recent_reset_otp, cooling, normalize_phone,
}
use easyrepair.Auth.Users.{find_user_by_phone_variants, find_account}
use easyrepair.Auth.Phone.{is_support_phone, Text}
use easyrepair.Prelude.{
  ==_iff, ℕ, ◌+◌, ◌<◌, ◌≡◌, refl, ap, ◌∙◌, Bool, true, false, none, some, arith,
}
use easyrepair.Steps.{done}
use easyrepair.Auth.State.{PasswordResetOtp, Role, same_role, AuthDb, Bcrypt, AuthConfig, User}

module _ (config : AuthConfig) (b : Bcrypt) (raw : Text) (id : ℕ) (u : User) (now code salt : ℕ)
    (sent : Bool) (db : AuthDb) (account : find_account (normalize_phone raw) db ≡ some (id, u))
    (a_worker : same_role u.role Role.worker ≡ true)
    (other : is_support_phone raw config.support_phone ≡ false)
    (first : cooling now (most_recent_reset_otp id (normalize_phone raw) db) ≡ none)
    (few : count_recent_otp_requests now (normalize_phone raw) db < 3) where
  -- The database after a request that issues a code.
  abbrev issued : AuthDb
  issued =
      create_password_reset_otp now (b.hash salt code) id (normalize_phone raw)
        (consume_all_active_otps now id (normalize_phone raw) db)

  first_request :
      forgot_password_request config b now code salt sent raw db ≡ (done (now + 300000), issued)
  unfolding forgot_password_request request_reset request_reset_of issue_reset_code
  first_request = rw (other, account, a_worker, first) (ground arith)

  issued_users : (phone : Text) → find_account phone issued ≡ find_account phone db
  unfolding find_account find_user_by_phone_variants create_password_reset_otp
      consume_all_active_otps
  issued_users phone = refl

  issued_newest :
      (later : ℕ)
      → later < now + 60000
      → (o : PasswordResetOtp) × (cooling later
            (most_recent_reset_otp id (normalize_phone raw) issued)
          ≡ some o)
        × (o.expires_at ≡ now + 300000)
  unfolding create_password_reset_otp consume_all_active_otps most_recent_reset_otp find_where
  issued_newest later soon = (
    record {
      id = db.next_otp;
      user_id = id;
      phone = normalize_phone raw;
      otp_hash = b.hash salt code;
      expires_at = now + otp_expiry_ms;
      consumed_at = none;
      attempts = 0;
      created_at = now;
    },
    rw (same_text_refl (normalize_phone raw), (==_iff id id).1 refl) (ground arith),
    refl,
  )

  second_request :
      (later code' salt' : ℕ) (sent' : Bool) (o : PasswordResetOtp) (after : AuthDb)
      → find_account (normalize_phone raw) after ≡ some (id, u)
      → cooling later (most_recent_reset_otp id (normalize_phone raw) after) ≡ some o
      → count_recent_otp_requests later (normalize_phone raw) after < 3
      → (forgot_password_request config b later code' salt' sent' raw after).0 ≡ done o.expires_at
  unfolding forgot_password_request request_reset request_reset_of
  second_request later code' salt' sent' o after there newest fewer =
      rw (other, there, a_worker, newest) (ground arith)

  stranger_request :
      (stranger : Text) (later code' salt' : ℕ) (sent' : Bool) (after : AuthDb)
      → is_support_phone stranger config.support_phone ≡ false
      → find_account (normalize_phone stranger) after ≡ none
      → (forgot_password_request config b later code' salt' sent' stranger after).0
        ≡ done (later + 300000)
  unfolding forgot_password_request request_reset
  stranger_request stranger later code' salt' sent' after no_support unknown =
      rw (no_support, unknown) refl

  -- A number of a worker's account for which a code is asked, with no code of the last minute and less
  -- than three of the last half hour, and asked again within a minute, where still less than three
  -- codes count: the second answer names the same time as the first one, five minutes after the first
  -- request. For a number without an account it names the time five minutes after the second request.
  -- So where time has passed the two answers tell whether a worker has this number.
  pub second_request_tells :
      (stranger : Text) (later code' salt' : ℕ) (sent' : Bool)
      → is_support_phone stranger config.support_phone ≡ false
      → find_account (normalize_phone stranger) db ≡ none
      → later < now + 60000
      → count_recent_otp_requests later
          (normalize_phone raw)
          (forgot_password_request config b now code salt sent raw db).1
        < 3
      → ((forgot_password_request config b later code' salt' sent' raw
            (forgot_password_request config b now code salt sent raw db).1).0
          ≡ done (now + 300000))
        × ((forgot_password_request config b later code' salt' sent' stranger
              (forgot_password_request config b now code salt sent raw db).1).0
            ≡ done (later + 300000))
  second_request_tells stranger later code' salt' sent' no_support unknown soon fewer =
      let (o, newest, expiry) = issued_newest later soon in
      rw first_request (
        second_request later code' salt' sent' o issued
              (issued_users (normalize_phone raw) ∙ account) newest (rw first_request at fewer)
            ∙ ap done expiry,
        stranger_request stranger later code' salt' sent' issued no_support
            (issued_users (normalize_phone stranger) ∙ unknown),
      )
