-- ===== src/Auth/Sessions/Laws.antt =====
-- What a refresh of the session hands out, and what it writes.
use easyrepair.Prelude.{
  ℕ, ◌+◌, ◌≤◌, ◌<◌, ◌≡◌, refl, subst, inl, inr, true, Option, none, some, arith, ltb, if◌then◌else◌,
  Option-cases,
}
use easyrepair.Steps.{Answer, done, failed}
use easyrepair.Auth.State.{RefreshToken, AuthDb, AuthError, AuthConfig, invalid_refresh_token}
use easyrepair.Auth.Sessions.{
  refresh_stored, refresh_tokens, Session, is_signed_in, rotate, reissue_from_grace_window,
}

-- The new session is that of the live token's user, under a token that was not there.
pub record IsRotation (config : AuthConfig) (now fresh token : ℕ) (row : RefreshToken) (db : AuthDb)
    (s : Session) (db' : AuthDb) : Type 0 where
  pub live : now ≤ row.expires_at
  pub owner : s.user_id ≡ row.user_id
  pub active : is_signed_in (db.users s.user_id) ≡ true
  pub handed_out : s.refresh_token ≡ fresh
  pub was_free : db.refresh_tokens fresh ≡ none
  pub now_stored :
      db'.refresh_tokens fresh
      ≡ some (record {
        user_id = row.user_id;
        expires_at = now + config.refresh_expires_ms;
        replaced_by_token = none;
        superseded_at = none;
      })
  pub now_superseded :
      db'.refresh_tokens token
      ≡ some (record row { replaced_by_token = some fresh; superseded_at = some now })
  pub users_kept : db'.users ≡ db.users

abbrev pub IsRecent : (now : ℕ) → Option ℕ → Type 0
IsRecent now none = ⊥
IsRecent now (some at) = now < at + 60000

abbrev pub IsLiveFor : (now user : ℕ) → Option RefreshToken → Type 0
IsLiveFor now user none = ⊥
IsLiveFor now user (some t) = (t.user_id ≡ user) × (now ≤ t.expires_at)

-- The session is the one that was issued in the place of the old token, less than a minute ago.
pub record IsReissue (now replacement : ℕ) (row : RefreshToken) (db : AuthDb) (s : Session)
    (db' : AuthDb) : Type 0 where
  pub recent : IsRecent now row.superseded_at
  pub handed_out : s.refresh_token ≡ replacement
  pub live : IsLiveFor now s.user_id (db.refresh_tokens replacement)
  pub active : is_signed_in (db.users s.user_id) ≡ true
  pub nothing_written : db' ≡ db

-- How a refresh of a stored token ends: by what the token was replaced.
abbrev pub StoredOutcome :
    AuthConfig
    → (now fresh token : ℕ) → RefreshToken
    → Option ℕ
    → AuthDb
    → Answer AuthError Session × AuthDb
    → Type 0
StoredOutcome config now fresh token row replaced db (failed e, db') = db' ≡ db
StoredOutcome config now fresh token row none db (done s, db') =
    IsRotation config now fresh token row db s db'
StoredOutcome config now fresh token row (some replacement) db (done s, db') =
    IsReissue now replacement row db s db'

abbrev pub RefreshOutcome :
    AuthConfig
    → (now fresh token : ℕ) → Option RefreshToken
    → AuthDb
    → Answer AuthError Session × AuthDb
    → Type 0
RefreshOutcome config now fresh token none db r = r ≡ (failed invalid_refresh_token, db)
RefreshOutcome config now fresh token (some row) db r =
    StoredOutcome config now fresh token row row.replaced_by_token db r

module _ (config : AuthConfig) (now fresh token : ℕ) (row : RefreshToken) (db : AuthDb) where
  reissue_outcome :
      (replacement : ℕ)
      → StoredOutcome config now fresh token row
          (some replacement)
          db
          (reissue_from_grace_window now replacement row.superseded_at db)
  unfolding reissue_from_grace_window
  reissue_outcome replacement = ground arith

  rotate_outcome :
      db.refresh_tokens token ≡ some row
      → StoredOutcome config now fresh token row none db (rotate config now fresh token row db)
  unfolding rotate
  rotate_outcome stored = ground arith

stored_outcome :
    (config : AuthConfig) (now fresh token : ℕ) (row : RefreshToken) (db : AuthDb)
    (replaced : Option ℕ)
    → db.refresh_tokens token ≡ some row
    → StoredOutcome config now fresh token row replaced db
        (refresh_stored config now fresh token replaced row db)
unfolding refresh_stored
stored_outcome config now fresh token row db none found =
    rotate_outcome config now fresh token row db found
stored_outcome config now fresh token row db (some r) found =
    reissue_outcome config now fresh token row db r

-- A refresh with an unknown token is rejected. With a stored one, it either throws and writes nothing;
-- or, for a token that is not superseded and not expired, whose user is active, stores a new token of
-- that user and marks the old one as superseded by it now; or, for a token that was superseded less
-- than a minute ago by one that is not expired and whose user is active, hands that one out and writes
-- nothing.
pub refresh_outcome :
    (config : AuthConfig) (now fresh token : ℕ) (db : AuthDb)
    → RefreshOutcome config now fresh token
        (db.refresh_tokens token)
        db
        (refresh_tokens config now fresh token db)
unfolding refresh_tokens
refresh_outcome config now fresh token db = elim (Option-cases (db.refresh_tokens token)) [
  | inl missing ↦ rw missing refl
  | inr (row, found) ↦
      rw found (stored_outcome config now fresh token row db row.replaced_by_token found)
]

first_refresh :
    (config : AuthConfig) (now fresh token : ℕ) (row : RefreshToken) (s : Session) (db db' : AuthDb)
    → db.refresh_tokens token ≡ some row
    → row.replaced_by_token ≡ none
    → refresh_tokens config now fresh token db ≡ (done s, db')
    → IsRotation config now fresh token row db s db'
unfolding refresh_tokens
first_refresh config now fresh token row s db db' stored first answered =
    subst (StoredOutcome config now fresh token row none db) same
      (rotate_outcome config now fresh token row db stored)
  where
    same : rotate config now fresh token row db ≡ (done s, db')
    same = ground arith

-- A client that lost the answer to a refresh and sends the same token again: if the first refresh,
-- of a token that was not superseded, was answered, and its new token has not expired since, then for
-- a minute every further refresh with the old token is answered with the same session and writes
-- nothing, and after that it is rejected and writes nothing.
pub refresh_retry :
    (config : AuthConfig) (now fresh token later fresh' : ℕ) (row : RefreshToken) (s : Session)
    (db db' : AuthDb)
    → db.refresh_tokens token ≡ some row
    → row.replaced_by_token ≡ none
    → refresh_tokens config now fresh token db ≡ (done s, db')
    → later ≤ now + config.refresh_expires_ms
    → refresh_tokens config later fresh' token db'
      ≡ (if ltb later (now + 60000) then (done s, db') else (failed invalid_refresh_token, db'))
unfolding refresh_tokens refresh_stored reissue_from_grace_window
refresh_retry config now fresh token later fresh' row s db db' stored first answered in_time =
    ground (arith, first_refresh config now fresh token row s db db' stored first answered)
