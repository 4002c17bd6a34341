-- ===== src/Auth/Sessions.antt =====
-- Refresh tokens in backend/src/modules/auth/auth.service.ts, with their writes in
-- auth.repository.ts. A response is the user's number and the refresh token; the access token, which
-- is signed from the user's row, is left out. `fresh` is the `uuidv4()` of the request.
pub mod Laws
pub mod SignOut
use easyrepair.Prelude.{
  ℕ, zero, suc, ℤ, ◌+◌, ◌-◌, ◌*◌, ◌/◌, ◌%◌, ◌≤◌, ◌<◌, min, max, ◌≡◌, ◌≢◌, ◌↔◌, ◌⊎◌, refl, sym,
  subst, ap, ◌∙◌, inl, inr, Bool, true, false, not, ◌&&◌, ◌||◌, Option, none, some, List, [], ◌∷◌,
  ◌++◌, map, arith, ltb, leb, ◌==◌, if◌then◌else◌, Bool-cases, Option-cases, is_some, or_else,
  or_other, holds_id, Table, put, revise, update_many, find_first, find_first-some, find_first-none,
  put_rule, is_row,
}
use easyrepair.Steps.{pure, raise, reads, require, reject_if, modify, ◌>>=◌, ◌>>◌}
use easyrepair.Auth.State.{
  User, RefreshToken, AuthDb, Auth, AuthConfig, invalid_refresh_token, user_inactive,
  user_not_found, unique_violation, record_not_found,
}

-- REFRESH_TOKEN_GRACE_MS
abbrev pub refresh_token_grace_ms : ℕ
refresh_token_grace_ms = 60 * 1000

pub record Session : Type 0 where
  pub user_id : ℕ
  pub refresh_token : ℕ

abbrev pub new_token : (user expires_at : ℕ) → RefreshToken
new_token user expires_at = record {
  user_id = user;
  expires_at = expires_at;
  replaced_by_token = none;
  superseded_at = none;
}

-- `createRefreshToken`; `token` is unique.
unfoldable pub create_refresh_token : (user token expires_at : ℕ) → Auth (Unit {0})
create_refresh_token user token expires_at db = elim (db.refresh_tokens token) [
  | some _ ↦ raise unique_violation db
  | none ↦
      modify
        (λ (db : AuthDb). record db {
          refresh_tokens = put token (new_token user expires_at) db.refresh_tokens;
        })
        db
]

-- The `update` of a rotated token, in the same transaction.
supersede : (old new now : ℕ) → AuthDb → Auth (Unit {0})
supersede old new now before db = elim (db.refresh_tokens old) [
  | none ↦ raise record_not_found before
  | some t ↦
      modify
        (λ (db : AuthDb). record db {
          refresh_tokens =
              put old (record t { replaced_by_token = some new; superseded_at = some now })
                db.refresh_tokens;
        })
        db
]

-- `rotateRefreshToken`: both writes or none.
unfoldable pub rotate_refresh_token : (old new user expires_at now : ℕ) → Auth (Unit {0})
unfolding create_refresh_token supersede
rotate_refresh_token old new user expires_at now db =
    (create_refresh_token user new expires_at >> supersede old new now db) db

-- `deleteAllRefreshTokens`
unfoldable pub drop_user_tokens : ℕ → Table RefreshToken → Table RefreshToken
drop_user_tokens user tokens i = elim (tokens i) [
  | none ↦ none
  | some t ↦ if t.user_id == user then none else some t
]

-- `deleteRefreshToken`
abbrev pub drop_token : ℕ → Table RefreshToken → Table RefreshToken
drop_token token tokens i = if token == i then none else tokens i

-- `!user || !user.isActive`
abbrev pub is_signed_in : Option User → Bool
is_signed_in = is_row (λ (u : User). u.is_active)

-- `supersededAt !== null && Date.now() - supersededAt < REFRESH_TOKEN_GRACE_MS`
abbrev pub within_grace : (now : ℕ) → Option ℕ → Bool
within_grace now none = false
within_grace now (some at) = ltb now (at + refresh_token_grace_ms)

-- `_reissueFromGraceWindow`
unfoldable pub reissue_from_grace_window :
    (now replaced_by : ℕ) → (superseded_at : Option ℕ) → Auth Session
reissue_from_grace_window now replaced_by superseded_at = do
  reject_if (not (within_grace now superseded_at)) invalid_refresh_token
  replacement ←
      require (← reads (λ (db : AuthDb). db.refresh_tokens replaced_by)) invalid_refresh_token
  reject_if (ltb replacement.expires_at now) invalid_refresh_token
  user ← reads (λ (db : AuthDb). db.users replacement.user_id)
  reject_if (not (is_signed_in user)) user_inactive
  pure (record { user_id = replacement.user_id; refresh_token = replaced_by })

-- The rest of `refreshTokens`, for a token that is not superseded.
unfoldable pub rotate : AuthConfig → (now fresh token : ℕ) → RefreshToken → Auth Session
unfolding rotate_refresh_token
rotate config now fresh token stored = do
  reject_if (ltb stored.expires_at now) invalid_refresh_token
  user ← reads (λ (db : AuthDb). db.users stored.user_id)
  reject_if (not (is_signed_in user)) user_inactive
  rotate_refresh_token token fresh stored.user_id (now + config.refresh_expires_ms) now
  pure (record { user_id = stored.user_id; refresh_token = fresh })

-- `if (stored.replacedByToken)`
unfoldable pub refresh_stored :
    AuthConfig → (now fresh token : ℕ) → (replaced_by : Option ℕ) → RefreshToken → Auth Session
refresh_stored config now fresh token none stored = rotate config now fresh token stored
refresh_stored config now fresh token (some replaced_by) stored =
    reissue_from_grace_window now replaced_by stored.superseded_at

-- `refreshTokens`
unfoldable pub refresh_tokens : AuthConfig → (now fresh token : ℕ) → Auth Session
unfolding refresh_stored
refresh_tokens config now fresh token = do
  stored ← require (← reads (λ (db : AuthDb). db.refresh_tokens token)) invalid_refresh_token
  refresh_stored config now fresh token stored.replaced_by_token stored

abbrev pub clear_fcm_token : ℕ → Table User → Table User
clear_fcm_token user =
    update_many (λ i (u : User). i == user) (λ (u : User). record u { fcm_token = none })

-- `logout`: what fails of it is ignored. The worker's presence is not part of this state.
unfoldable pub logout : (user : ℕ) → (token : Option ℕ) → Auth (Unit {0})
unfolding drop_user_tokens
logout user none = modify (λ (db : AuthDb). record db {
  users = clear_fcm_token user db.users;
  refresh_tokens = drop_user_tokens user db.refresh_tokens;
})
logout user (some token) = modify (λ (db : AuthDb). record db {
  users = clear_fcm_token user db.users;
  refresh_tokens = drop_token token db.refresh_tokens;
})

-- `deleteAccount`, with the transaction `softDeleteUser`.
unfoldable pub delete_account : (now user : ℕ) → Auth (Unit {0})
unfolding drop_user_tokens
delete_account now user = do
  row ← require (← reads (λ (db : AuthDb). db.users user)) user_not_found
  modify (λ (db : AuthDb). record db {
    users =
        put user (record row { deleted_at = some now; is_active = false; fcm_token = none })
          db.users;
    refresh_tokens = drop_user_tokens user db.refresh_tokens;
  })

-- `saveFcmToken`, without the locale.
unfoldable pub save_fcm_token : (user token : ℕ) → Auth (Unit {0})
save_fcm_token user token db = elim (db.users user) [
  | none ↦ raise record_not_found db
  | some row ↦
      modify
        (λ (db : AuthDb). record db {
          users =
              put user (record row { fcm_token = some token })
                (update_many (λ i (u : User). holds_id u.fcm_token token && not (i == user))
                  (λ (u : User). record u { fcm_token = none }) db.users);
        })
        db
]

-- `_buildAuthResponse`
unfoldable pub build_auth_response : AuthConfig → (now fresh user : ℕ) → Auth Session
unfolding create_refresh_token
build_auth_response config now fresh user = do
  create_refresh_token user fresh (now + config.refresh_expires_ms)
  pure (record { user_id = user; refresh_token = fresh })
