-- ===== src/Auth/Sessions/SignOut.antt =====
-- The end of a user's sessions, and the devices that notifications go to.
use easyrepair.Prelude.{ℕ, ◌≡◌, ◌≢◌, ◌⊎◌, inl, inr, Option, none, some, arith, Option-cases}
use easyrepair.Steps.{Answer, done, failed}
use easyrepair.Auth.State.{User, RefreshToken, AuthDb, AuthError, AuthConfig}
use easyrepair.Auth.Sessions.{
  Session, refresh_tokens, delete_account, drop_user_tokens, logout, save_fcm_token,
}
use easyrepair.Auth.Sessions.Laws.{refresh_outcome, RefreshOutcome, StoredOutcome}

-- Whose token it is.
abbrev Owns : ℕ → Option RefreshToken → Type 0
Owns user none = ⊥
Owns user (some t) = t.user_id ≡ user

abbrev pub HasNoToken : ℕ → AuthDb → Type 0
HasNoToken user db = (token : ℕ) → ¬ Owns user (db.refresh_tokens token)

drop_user_tokens-Owns :
    (user : ℕ) (tokens : ℕ → Option RefreshToken) (token : ℕ)
    → ¬ Owns user (drop_user_tokens user tokens token)
unfolding drop_user_tokens
drop_user_tokens-Owns user tokens token = ground arith

-- A refresh answers with a user for whom a token is stored.
outcome-Owns :
    (config : AuthConfig) (now fresh token : ℕ) (row : RefreshToken) (replaced : Option ℕ)
    (db : AuthDb) (s : Session) (db' : AuthDb)
    → db.refresh_tokens token ≡ some row
    → HasNoToken s.user_id db
    → ¬ StoredOutcome config now fresh token row replaced db (done s, db')
outcome-Owns config now fresh token row none db s db' found without r =
    ground (arith, without token)
outcome-Owns config now fresh token row (some next) db s db' found without r =
    ground (arith, without next)

answered-Owns :
    (config : AuthConfig) (now fresh token : ℕ) (db : AuthDb) (s : Session) (db' : AuthDb)
    → HasNoToken s.user_id db
    → ¬ RefreshOutcome config now fresh token (db.refresh_tokens token) db (done s, db')
answered-Owns config now fresh token db s db' without =
    elim (Option-cases (db.refresh_tokens token)) [
      | inl missing ↦ rw missing (λ e. cc)
      | inr (row, found) ↦
          rw found
            (outcome-Owns config now fresh token row row.replaced_by_token db s db' found without)
    ]

-- No session of this user is handed out.
abbrev pub GivesNone : ℕ → Answer AuthError Session × AuthDb → Type 0
GivesNone user (failed e, db) = Unit
GivesNone user (done s, db) = s.user_id ≢ user

refused :
    (config : AuthConfig) (user now fresh token : ℕ) (db : AuthDb)
    → HasNoToken user db
    → GivesNone user (refresh_tokens config now fresh token db)
refused config user now fresh token db without =
    go (refresh_tokens config now fresh token db) (refresh_outcome config now fresh token db)
  where
    go :
        (r : Answer AuthError Session × AuthDb)
        → RefreshOutcome config now fresh token (db.refresh_tokens token) db r
        → GivesNone user r
    go (failed e, db') outcome = tt
    go (done s, db') outcome =
        λ same. answered-Owns config now fresh token db s db' (rw same without) outcome

-- After a logout of a stored user that names no token, and after the deletion of the account, no
-- token gives a session of that user, whenever it is used: neither one that was live nor one in its minute of grace.
pub sign_out_ends_sessions :
    (config : AuthConfig) (user now later fresh token : ℕ) (row : User) (db : AuthDb)
    → db.users user ≡ some row
    → GivesNone user (refresh_tokens config later fresh token (logout user none db).1)
      × GivesNone user (refresh_tokens config later fresh token (delete_account now user db).1)
unfolding logout delete_account
sign_out_ends_sessions config user now later fresh token row db found = (
  refused config user later fresh token (logout user none db).1
      (drop_user_tokens-Owns user db.refresh_tokens),
  refused config user later fresh token (delete_account now user db).1
      (λ t. ground (arith, drop_user_tokens-Owns user db.refresh_tokens t)),
)

-- A device's token is at one user at most.
abbrev pub Carries : ℕ → Option User → Type 0
Carries device none = ⊥
Carries device (some u) = u.fcm_token ≡ some device

abbrev pub HasOneUserPerDevice : AuthDb → Type 0
HasOneUserPerDevice db =
    (i j device : ℕ) → Carries device (db.users i) → Carries device (db.users j) → i ≡ j

save_device_row :
    (user token : ℕ) (row : User) (db : AuthDb) (i device : ℕ)
    → db.users user ≡ some row
    → Carries device ((save_fcm_token user token db).1.users i)
    → ((i ≡ user) × (device ≡ token)) ⊎ (Carries device (db.users i) × (device ≢ token))
unfolding save_fcm_token
save_device_row user token row db i device found h = elim (Option-cases (db.users i)) [
  | inl none_there ↦ ground arith
  | inr (u, there) ↦ ground arith
]

save_device_missing :
    (user token : ℕ) (db : AuthDb) → db.users user ≡ none → (save_fcm_token user token db).1 ≡ db
unfolding save_fcm_token
save_device_missing user token db missing = ground arith

save_device :
    (user token : ℕ) (db : AuthDb)
    → HasOneUserPerDevice db
    → HasOneUserPerDevice (save_fcm_token user token db).1
save_device user token db h = elim (Option-cases (db.users user)) [
  | inl missing ↦ rw (save_device_missing user token db missing) h
  | inr (row, found) ↦ λ i j device here there. ground (
    arith,
    save_device_row user token row db i device found here,
    save_device_row user token row db j device found there,
    h i j device,
  )
]

logout_device :
    (user : ℕ) (named : Option ℕ) (db : AuthDb)
    → HasOneUserPerDevice db
    → HasOneUserPerDevice (logout user named db).1
unfolding logout
logout_device user none db h i j device here there = ground (arith, h i j device)
logout_device user (some t) db h i j device here there = ground (arith, h i j device)

delete_device :
    (now user : ℕ) (db : AuthDb)
    → HasOneUserPerDevice db
    → HasOneUserPerDevice (delete_account now user db).1
unfolding delete_account
delete_device now user db h i j device here there = ground (arith, h i j device)

-- Where a device's token is at one user at most, saving one, a logout that names a token or none,
-- and the deletion of an account keep it so.
pub devices-HasOneUserPerDevice :
    (now user token : ℕ) (named : Option ℕ) (db : AuthDb)
    → HasOneUserPerDevice db
    → HasOneUserPerDevice (save_fcm_token user token db).1
      × HasOneUserPerDevice (logout user named db).1
      × HasOneUserPerDevice (delete_account now user db).1
devices-HasOneUserPerDevice now user token named db h =
    (save_device user token db h, logout_device user named db h, delete_device now user db h)
