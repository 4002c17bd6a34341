-- ===== src/Tests/Codes.antt =====
-- One-time codes on the sample of accounts.
use easyrepair.Auth.Otp.Pacing.{RequestOutcome, request_outcome}
use easyrepair.Auth.Otp.Refinement.{verify_refines, spec_check, code_of}
use easyrepair.Auth.Phone.{same_text}
use easyrepair.Auth.Otp.{request_otp_for, verify_auth_otp, request_otp}
use easyrepair.Auth.Rows.{find_where, count_where}
use easyrepair.Auth.Otp.Guesses.{guess_limit, accepts, first_wrong}
use easyrepair.Prelude.{ℕ, ◌≡◌, refl, true, false, none, List, [], ◌∷◌, arith}
use easyrepair.Auth.State.{client_login_register, worker_login}
use easyrepair.Auth.Otp.Coherence.{IsCoherent, otp-IsCoherent}
use easyrepair.Tests.Accounts.{workers, clients, local, bcrypt, account_db, config}

account_db-IsCoherent : IsCoherent account_db
unfolding count_where same_text
account_db-IsCoherent = record { numbered = omega arith; one_open = λ phone purpose. ground arith }

otp-IsCoherent_example :
    IsCoherent
      (request_otp config bcrypt 200000 555555 0 true none local client_login_register account_db).1
    × IsCoherent (verify_auth_otp bcrypt 200000 local client_login_register 555555 account_db).1
otp-IsCoherent_example =
    otp-IsCoherent config bcrypt 200000 555555 client_login_register 0 true none local account_db
      account_db-IsCoherent

verify_refines_example :
    ((
      (verify_auth_otp bcrypt 200000 clients client_login_register 123456 account_db).0,
      code_of clients client_login_register
          (verify_auth_otp bcrypt 200000 clients client_login_register 123456 account_db).1,
    )
      ≡ spec_check bcrypt 200000 123456 (code_of clients client_login_register account_db))
    × (code_of workers worker_login
          (verify_auth_otp bcrypt 200000 clients client_login_register 123456 account_db).1
        ≡ code_of workers worker_login account_db)
unfolding same_text
verify_refines_example =
    verify_refines bcrypt 200000 123456 clients client_login_register account_db
      account_db-IsCoherent workers worker_login refl

-- Five wrong guesses, of which one is too many, and then the right one.
abbrev guesses : List (ℕ × ℕ)
guesses =
    (200000, 111111)
    ∷ (201000, 222222)
    ∷ (202000, 333333)
    ∷ (203000, 444444)
    ∷ (204000, 555555)
    ∷ (205000, 123456)
    ∷ []

guess_limit_example : accepts bcrypt clients client_login_register guesses account_db ≡ false
unfolding first_wrong find_where same_text
guess_limit_example =
    guess_limit bcrypt clients client_login_register guesses account_db account_db-IsCoherent refl

request_outcome_example :
    RequestOutcome config bcrypt 200000 555555 0 clients client_login_register account_db (
      request_otp_for config bcrypt 200000 555555 0 true none clients client_login_register
        account_db)
request_outcome_example =
    request_outcome config bcrypt 200000 555555 0 clients client_login_register true none account_db
      account_db-IsCoherent
