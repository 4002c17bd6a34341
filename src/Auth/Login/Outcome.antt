-- ===== src/Auth/Login/Outcome.antt =====
-- Who gets in by the five logins.
use easyrepair.Auth.Otp.{
  read_phone, assert_not_support_account, update_auth_otp, check_code, verify_auth_otp,
}
use easyrepair.Auth.Phone.{
  phone_lookup_variants, same_text, is_support_phone, normalize_pakistani_phone, Text,
}
use easyrepair.Auth.Users.{is_one_of, find_user_by_phone}
use easyrepair.Auth.Sessions.{Session}
use easyrepair.Auth.Login.{
  not_worker, worker_otp_login, not_admin, client_otp_login, require, client_password_login,
  admin_login, login, find_account_for, enter_verified, account_for, enter_with_password,
}
use easyrepair.Prelude.{
  ℕ, ◌≡◌, refl, inl, inr, Bool, true, ◌&&◌, some, arith, Bool-cases, Option-cases,
}
use easyrepair.Steps.{require_rule, ◌>>=◌, ◌>>◌, Answer, done, failed}
use easyrepair.Auth.State.{
  worker_login, client_login_register, phone_not_registered, is_worker_role, Auth, AuthOtpPurpose,
  AuthError, Bcrypt, AuthDb, Role, AuthConfig, User,
}
use easyrepair.Auth.Login.Entries.{
  password_outcome, verified_outcome, after_lookup, account_entered, LoginOutcome, named_and,
  named_and_lem, by_its_password, by_its_code, is_done,
}

-- A check of a code writes to the codes only.
pub verify_keeps :
    (b : Bcrypt) (now guess : ℕ) (phone : Text) (purpose : AuthOtpPurpose) (db : AuthDb)
    → ((verify_auth_otp b now phone purpose guess db).1.users ≡ db.users)
      × ((verify_auth_otp b now phone purpose guess db).1.refresh_tokens ≡ db.refresh_tokens)
      × ((verify_auth_otp b now phone purpose guess db).1.next_user ≡ db.next_user)
unfolding verify_auth_otp check_code update_auth_otp
verify_keeps b now guess phone purpose db = ground arith

module _ (config : AuthConfig) (b : Bcrypt) (now fresh : ℕ) where
  by_password :
      (refused : Role → Bool) (entitled : User → Bool) (phone : Text) (password : ℕ) (db : AuthDb)
      → ((u : User)
          → is_one_of (phone_lookup_variants phone) u.phone ≡ true
          → by_its_password b password phone u ≡ true
          → entitled u ≡ true)
      → LoginOutcome config now refused entitled db
          ((find_account_for refused phone >>= enter_with_password config b now fresh password) db)
  by_password refused entitled phone password db right =
      after_lookup config b now fresh refused entitled phone
        (enter_with_password config b now fresh password) db db refl refl refl
        (λ id u found kept role named.
          password_outcome config b now fresh refused entitled password id u db found kept role
            (right u named))

  by_code :
      (refused : Role → Bool) (entitled : User → Bool) (phone : Text) (purpose : AuthOtpPurpose)
      (code : ℕ) (db : AuthDb)
      → ((u : User)
          → is_one_of (phone_lookup_variants phone) u.phone ≡ true
          → by_its_code b now purpose code db phone u ≡ true
          → entitled u ≡ true)
      → LoginOutcome config now refused entitled db (
          (verify_auth_otp b now phone purpose code
              >> (find_account_for refused phone >>= enter_verified config now fresh))
            db)
  by_code refused entitled phone purpose code db right =
      go (verify_auth_otp b now phone purpose code db) (verify_keeps b now code phone purpose db)
        right
    where
      go :
          (r : Answer AuthError (Unit {0}) × AuthDb)
          → (r.1.users ≡ db.users)
            × (r.1.refresh_tokens ≡ db.refresh_tokens)
            × (r.1.next_user ≡ db.next_user)
          → ((u : User)
              → is_one_of (phone_lookup_variants phone) u.phone ≡ true
              → is_done r.0 ≡ true
              → entitled u ≡ true)
          → LoginOutcome config now refused entitled db
              (elim r.0 as (λ _. Answer AuthError Session × AuthDb) [
                | done a ↦ (find_account_for refused phone >>= enter_verified config now fresh) r.1
                | failed e ↦ (failed e, r.1)
              ])
      go (failed e, after) (users, tokens, next) right = (tokens, next)
      go (done tt, after) (users, tokens, next) right =
          after_lookup config b now fresh refused entitled phone (enter_verified config now fresh)
            after db users tokens next
            (λ id u found kept role named.
              verified_outcome config b now fresh refused entitled id u after db users tokens next
                (rw (← users) found) kept role (right u named refl))

  admin_outcome :
      (phone : Text) (password : ℕ) (db : AuthDb)
      → LoginOutcome config now not_admin
          (λ u. same_text u.phone phone && by_its_password b password phone u)
          db
          (admin_login config b now fresh phone password db)
  unfolding admin_login find_user_by_phone
  admin_outcome phone password db =
      elim (Bool-cases (is_support_phone phone config.support_phone)) [
        | inl support ↦ rw support (refl, refl)
        | inr other ↦ rw other (
            require_rule
              (LoginOutcome config now not_admin
                (λ u. same_text u.phone phone && by_its_password b password phone u) db)
              db (account_for not_admin (find_user_by_phone phone db)) phone_not_registered
              (enter_with_password config b now fresh password) (refl, refl)
              (λ account found. entered account found))
      ]
    where
      entered :
          (account : ℕ × User)
          → account_for not_admin (find_user_by_phone phone db) ≡ some account
          → LoginOutcome config now not_admin
              (λ u. same_text u.phone phone && by_its_password b password phone u)
              db
              (enter_with_password config b now fresh password account db)
      entered (id, u) found =
          let (there, kept, role, named) =
            account_entered not_admin (λ i (u : User). same_text u.phone phone) db found in
          password_outcome config b now fresh not_admin
            (λ u. same_text u.phone phone && by_its_password b password phone u) password id u db
            there kept role (λ right. rw (named, right) refl)

  -- The phone is read, or the login fails with nothing written.
  after_phone :
      (refused : Role → Bool) (test : Text → User → Bool) (phone : Text) (k : Text → Auth Session)
      (e : AuthError) (db : AuthDb)
      → ((p : Text)
          → normalize_pakistani_phone phone ≡ some p
          → LoginOutcome config now refused (named_and phone test) db (k p db))
      → LoginOutcome config now refused (named_and phone test) db (
          (assert_not_support_account config phone
              >> (require (normalize_pakistani_phone phone) e >>= k))
            db)
  after_phone refused test phone k e db next =
      elim (Bool-cases (is_support_phone phone config.support_phone)) [
        | inl support ↦ rw support (refl, refl)
        | inr other ↦ elim (Option-cases (normalize_pakistani_phone phone)) [
          | inl bad ↦ rw (other, bad) (refl, refl)
          | inr (p, good) ↦ rw (other, good) (next p good)
        ]
      ]

  after_read_phone :
      (refused : Role → Bool) (test : Text → User → Bool) (phone : Text) (k : Text → Auth Session)
      (db : AuthDb)
      → ((p : Text)
          → normalize_pakistani_phone phone ≡ some p
          → LoginOutcome config now refused (named_and phone test) db (k p db))
      → LoginOutcome config now refused
          (named_and phone test)
          db
          ((read_phone config phone >>= k) db)
  unfolding read_phone
  after_read_phone refused test phone k db next =
      elim (Bool-cases (is_support_phone phone config.support_phone)) [
        | inl support ↦ rw support (refl, refl)
        | inr other ↦ elim (Option-cases (normalize_pakistani_phone phone)) [
          | inl bad ↦ rw (other, bad) (refl, refl)
          | inr (p, good) ↦ rw (other, good) (next p good)
        ]
      ]

  -- Each of the five logins (worker by password, administrator, client by password, client by code,
  -- worker by code) either fails, and then stores no token and creates no user; or it answers with a
  -- session of a stored account that is active, not deleted and of a role that the login takes (the
  -- client's logins: any but a worker), stores a new token of that user, and creates no user. That
  -- account has the number that was sent, in one of the forms of its normalized number (for the
  -- administrator: exactly as it was sent), and its password is the one sent, or, in the logins by
  -- code, the check of the code for that number and that purpose has accepted the code.
  pub login_outcome :
      (phone : Text) (password code : ℕ) (db : AuthDb)
      → LoginOutcome config now not_worker
          (named_and phone (by_its_password b password))
          db
          (login config b now fresh phone password db)
        × LoginOutcome config now not_admin
            (λ u. same_text u.phone phone && by_its_password b password phone u)
            db
            (admin_login config b now fresh phone password db)
        × LoginOutcome config now is_worker_role
            (named_and phone (by_its_password b password))
            db
            (client_password_login config b now fresh phone password db)
        × LoginOutcome config now is_worker_role
            (named_and phone (by_its_code b now client_login_register code db))
            db
            (client_otp_login config b now fresh phone code db)
        × LoginOutcome config now not_worker
            (named_and phone (by_its_code b now worker_login code db))
            db
            (worker_otp_login config b now fresh phone code db)
  unfolding login client_password_login client_otp_login worker_otp_login read_phone
  login_outcome phone password code db = (
    after_phone not_worker (by_its_password b password) phone
        (λ p. find_account_for not_worker p >>= enter_with_password config b now fresh password)
        phone_not_registered db
        (λ p normal.
          by_password not_worker (named_and phone (by_its_password b password)) p password db
            (λ u. named_and_lem phone p (by_its_password b password) u normal)),
    admin_outcome phone password db,
    after_read_phone is_worker_role (by_its_password b password) phone
        (λ p. find_account_for is_worker_role p >>= enter_with_password config b now fresh password)
        db
        (λ p normal.
          by_password is_worker_role (named_and phone (by_its_password b password)) p password db
            (λ u. named_and_lem phone p (by_its_password b password) u normal)),
    after_read_phone is_worker_role (by_its_code b now client_login_register code db) phone
        (λ p.
          verify_auth_otp b now p client_login_register code
          >> (find_account_for is_worker_role p >>= enter_verified config now fresh))
        db
        (λ p normal.
          by_code is_worker_role (named_and phone (by_its_code b now client_login_register code db))
            p client_login_register code db
            (λ u.
              named_and_lem phone p (by_its_code b now client_login_register code db) u normal)),
    after_read_phone not_worker (by_its_code b now worker_login code db) phone
        (λ p.
          verify_auth_otp b now p worker_login code
          >> (find_account_for not_worker p >>= enter_verified config now fresh))
        db
        (λ p normal.
          by_code not_worker (named_and phone (by_its_code b now worker_login code db)) p
            worker_login code db
            (λ u. named_and_lem phone p (by_its_code b now worker_login code db) u normal)),
  )
