-- ===== src/Auth/Login/Entries.antt =====
-- What the rest of a login leaves, once its account is looked up.
use easyrepair.Auth.Phone.{normalize_pakistani_phone, phone_lookup_variants, Text}
use easyrepair.Auth.Users.{is_one_of, find_user_by_phone_variants, find_account, update_user}
use easyrepair.Auth.Otp.{verify_auth_otp}
use easyrepair.Auth.Sessions.{create_refresh_token, build_auth_response, Session}
use easyrepair.Auth.Login.{find_account_for, enter_verified, account_for, enter_with_password}
use easyrepair.Prelude.{
  ℕ, ◌+◌, ◌≡◌, refl, Bool, true, false, ◌&&◌, Option, none, some, arith, find_first,
  find_first-some,
}
use easyrepair.Steps.{require_rule, ◌>>=◌, Answer, done, failed}
use easyrepair.Auth.State.{
  phone_not_registered, password_matches, AuthOtpPurpose, Auth, AuthError, Bcrypt, AuthDb, Role,
  AuthConfig, User,
}

-- The account may use this login, and is the one that the credentials entitle to.
abbrev pub MayEnter : (Role → Bool) → (User → Bool) → Option User → Type 0
MayEnter refused entitled none = ⊥
MayEnter refused entitled (some u) =
    (u.is_active ≡ true) × (u.deleted_at ≡ none) × (refused u.role ≡ false) × (entitled u ≡ true)

-- The number, once it is normalized, is the account's in one of its forms, and the test of the
-- credential holds.
abbrev pub named_as : Option Text → (Text → User → Bool) → User → Bool
named_as none test u = false
named_as (some phone) test u = is_one_of (phone_lookup_variants phone) u.phone && test phone u

abbrev pub named_and : Text → (Text → User → Bool) → User → Bool
named_and raw_phone test u = named_as (normalize_pakistani_phone raw_phone) test u

pub named_and_lem :
    (raw_phone phone : Text) (test : Text → User → Bool) (u : User)
    → normalize_pakistani_phone raw_phone ≡ some phone
    → is_one_of (phone_lookup_variants phone) u.phone ≡ true
    → test phone u ≡ true
    → named_and raw_phone test u ≡ true
named_and_lem raw_phone phone test u normal named right = rw (normal, named, right) refl

abbrev pub by_its_password : Bcrypt → (password : ℕ) → Text → User → Bool
by_its_password b password phone u = password_matches b password u.password_hash

abbrev pub is_done : {A : Type 0} → Answer AuthError A → Bool
is_done (done a) = true
is_done (failed e) = false

abbrev pub by_its_code :
    Bcrypt → (now : ℕ) → AuthOtpPurpose → (code : ℕ) → AuthDb → Text → User → Bool
by_its_code b now purpose code db phone u = is_done (verify_auth_otp b now phone purpose code db).0

-- The session is that of an account that may enter, under a token that was not there.
pub record IsEntered (config : AuthConfig) (now : ℕ) (refused : Role → Bool)
    (entitled : User → Bool) (db : AuthDb) (s : Session) (db' : AuthDb) : Type 0 where
  pub account : MayEnter refused entitled (db.users s.user_id)
  pub was_free : db.refresh_tokens s.refresh_token ≡ none
  pub now_stored :
      db'.refresh_tokens s.refresh_token
      ≡ some (record {
        user_id = s.user_id;
        expires_at = now + config.refresh_expires_ms;
        replaced_by_token = none;
        superseded_at = none;
      })

abbrev pub LoginOutcome :
    AuthConfig
    → (now : ℕ) → (Role → Bool)
    → (User → Bool)
    → AuthDb
    → Answer AuthError Session × AuthDb
    → Type 0
LoginOutcome config now refused entitled db (failed e, db') =
    (db'.refresh_tokens ≡ db.refresh_tokens) × (db'.next_user ≡ db.next_user)
LoginOutcome config now refused entitled db (done s, db') =
    IsEntered config now refused entitled db s db' × (db'.next_user ≡ db.next_user)

-- What an account that is found is.
pub account_entered :
    (refused : Role → Bool) (p : ℕ → User → Bool) (db : AuthDb) {id : ℕ} {u : User}
    → account_for refused (find_first p db.next_user db.users) ≡ some (id, u)
    → (db.users id ≡ some u) × (u.deleted_at ≡ none) × (refused u.role ≡ false) × (p id u ≡ true)
account_entered refused p db {id} {u} h = go (find_first p db.next_user db.users) refl h
  where
    go :
        (o : Option (ℕ × User))
        → find_first p db.next_user db.users ≡ o
        → account_for refused o ≡ some (id, u)
        → (db.users id ≡ some u)
          × (u.deleted_at ≡ none)
          × (refused u.role ≡ false)
          × (p id u ≡ true)
    go none e k = cc
    go (some (i, v)) e k = ground (arith, find_first-some p db.next_user db.users e)

module _ (config : AuthConfig) (b : Bcrypt) (now fresh : ℕ) (refused : Role → Bool)
    (entitled : User → Bool) where
  pub password_outcome :
      (password id : ℕ) (u : User) (db : AuthDb)
      → db.users id ≡ some u
      → u.deleted_at ≡ none
      → refused u.role ≡ false
      → (password_matches b password u.password_hash ≡ true → entitled u ≡ true)
      → LoginOutcome config now refused entitled db
          (enter_with_password config b now fresh password (id, u) db)
  unfolding enter_with_password build_auth_response create_refresh_token
  password_outcome password id u db found kept role right = ground (arith, right)

  pub verified_outcome :
      (id : ℕ) (u : User) (db before : AuthDb)
      → db.users ≡ before.users
      → db.refresh_tokens ≡ before.refresh_tokens
      → db.next_user ≡ before.next_user
      → before.users id ≡ some u
      → u.deleted_at ≡ none
      → refused u.role ≡ false
      → entitled u ≡ true
      → LoginOutcome config now refused entitled before (enter_verified config now fresh (id, u) db)
  unfolding enter_verified build_auth_response create_refresh_token update_user
  verified_outcome id u db before users tokens next found kept role right = ground arith

  -- A lookup, in a database with the users of the one before, and what follows it.
  pub after_lookup :
      (phone : Text) (k : ℕ × User → Auth Session) (db before : AuthDb)
      → db.users ≡ before.users
      → db.refresh_tokens ≡ before.refresh_tokens
      → db.next_user ≡ before.next_user
      → ((id : ℕ) (u : User)
          → db.users id ≡ some u
          → u.deleted_at ≡ none
          → refused u.role ≡ false
          → is_one_of (phone_lookup_variants phone) u.phone ≡ true
          → LoginOutcome config now refused entitled before (k (id, u) db))
      → LoginOutcome config now refused entitled before ((find_account_for refused phone >>= k) db)
  unfolding find_account_for find_account find_user_by_phone_variants
  after_lookup phone k db before users tokens next enter =
      require_rule (LoginOutcome config now refused entitled before) db
        (account_for refused (find_account phone db)) phone_not_registered k (tokens, next)
        (λ account found. entered account found)
    where
      entered :
          (account : ℕ × User)
          → account_for refused (find_account phone db) ≡ some account
          → LoginOutcome config now refused entitled before (k account db)
      entered (id, u) found =
          let (there, kept, role, named) =
            account_entered refused
              (λ i (u : User). is_one_of (phone_lookup_variants phone) u.phone) db found in
          enter id u there kept role named
