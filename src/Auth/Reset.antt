-- ===== src/Auth/Reset.antt =====
-- Forgotten passwords in backend/src/modules/auth/auth.service.ts: `_passwordResetRequestForRole` with
-- its two callers, and `forgotPasswordReset`. The answer of a request is the time that it names.
pub mod Probe
use easyrepair.Auth.Phone.{same_text, normalize_pakistani_phone, Text}
use easyrepair.Auth.State.{
  invalid_reset_code, sms_send_failed, Auth, Bcrypt, same_role, AuthDb, User, PasswordResetOtp,
  Role, AuthConfig,
}
use easyrepair.Auth.Users.{update_user, find_account}
use easyrepair.Auth.Otp.{
  assert_not_support_account, otp_rate_window_ms, otp_expiry_ms, otp_resend_cooldown_ms, in_window,
  too_soon,
}
use easyrepair.Auth.Rows.{count_where, find_where, update_where}
use easyrepair.Steps.{reads, raise, require, reject_if, modify, pure, ◌>>=◌, ◌>>◌}
use easyrepair.Prelude.{
  ℕ, ◌+◌, Bool, true, false, not, ◌&&◌, ◌||◌, Option, none, some, ◌∷◌, ltb, leb, ◌==◌,
  if◌then◌else◌, is_some, or_else, holds_id,
}

-- `_normalizePhone`
abbrev pub normalize_phone : Text → Text
normalize_phone phone = or_else (normalize_pakistani_phone phone) phone

abbrev pub is_reset_for : (user : ℕ) → Text → PasswordResetOtp → Bool
is_reset_for user phone o = o.user_id == user && same_text o.phone phone

abbrev pub is_open_reset_for : (user : ℕ) → Text → PasswordResetOtp → Bool
is_open_reset_for user phone o = is_reset_for user phone o && not (is_some o.consumed_at)

abbrev pub consume_reset : ℕ → PasswordResetOtp → PasswordResetOtp
consume_reset now o = record o { consumed_at = some now }

-- `countRecentOtpRequests`
unfoldable pub count_recent_otp_requests : ℕ → Text → AuthDb → ℕ
unfolding count_where
count_recent_otp_requests now phone db =
    count_where
      (λ (o : PasswordResetOtp).
        same_text o.phone phone && in_window now otp_rate_window_ms o.created_at)
      db.reset_otps

-- `findMostRecentPasswordResetOtp`
unfoldable pub most_recent_reset_otp : (user : ℕ) → Text → AuthDb → Option PasswordResetOtp
unfolding find_where
most_recent_reset_otp user phone db = find_where (is_reset_for user phone) db.reset_otps

-- `findActiveOtp`
unfoldable pub find_active_otp : (now user : ℕ) → Text → AuthDb → Option PasswordResetOtp
unfolding find_where
find_active_otp now user phone db =
    find_where (λ o. is_open_reset_for user phone o && ltb now o.expires_at) db.reset_otps

-- `invalidatePreviousOtps`, `consumeAllActiveOtps`
unfoldable pub consume_all_active_otps : (now user : ℕ) → Text → AuthDb → AuthDb
unfolding update_where
consume_all_active_otps now user phone db = record db {
  reset_otps = update_where (is_open_reset_for user phone) (consume_reset now) db.reset_otps;
}

-- `createPasswordResetOtp`
unfoldable pub create_password_reset_otp : (now hash user : ℕ) → Text → AuthDb → AuthDb
create_password_reset_otp now hash user phone db = record db {
  reset_otps =
      record {
        id = db.next_otp;
        user_id = user;
        phone = phone;
        otp_hash = hash;
        expires_at = now + otp_expiry_ms;
        consumed_at = none;
        attempts = 0;
        created_at = now;
      }
      ∷ db.reset_otps;
  next_otp = db.next_otp + 1;
}

-- `consumeOtp`, `incrementOtpAttempts`
unfoldable pub update_reset_otp : ℕ → (PasswordResetOtp → PasswordResetOtp) → AuthDb → AuthDb
unfolding update_where
update_reset_otp id f db = record db {
  reset_otps = update_where (λ (o : PasswordResetOtp). o.id == id) f db.reset_otps;
}

-- Whether the request gives the SMS away: it failed, or nothing is configured in production.
abbrev pub sms_failed : AuthConfig → (sent : Bool) → Bool
sms_failed config sent = if config.sms_configured then not sent else config.production

unfoldable pub issue_reset_code :
    AuthConfig
    → Bcrypt
    → (surface : Bool) → (now code salt user : ℕ) → (sent : Bool) → Text
    → Auth ℕ
unfolding create_password_reset_otp consume_all_active_otps
issue_reset_code config b surface now code salt user sent phone = do
  modify (consume_all_active_otps now user phone)
  modify (create_password_reset_otp now (b.hash salt code) user phone)
  reject_if (surface && sms_failed config sent) sms_send_failed
  pure (now + otp_expiry_ms)

-- The most recent code that was asked for less than a minute ago.
abbrev pub cooling : ℕ → Option PasswordResetOtp → Option PasswordResetOtp
cooling now none = none
cooling now (some o) = if too_soon now otp_resend_cooldown_ms o.created_at then some o else none

-- The request of an eligible user, from the rate limit on.
unfoldable pub request_reset_of :
    AuthConfig
    → Bcrypt
    → (surface : Bool) → (now code salt : ℕ) → (sent : Bool) → Text
    → (user : ℕ) → Auth ℕ
unfolding issue_reset_code most_recent_reset_otp count_recent_otp_requests
request_reset_of config b surface now code salt sent phone user db =
    if leb 3 (count_recent_otp_requests now phone db)
    then pure (now + otp_expiry_ms) db
    else elim (cooling now (most_recent_reset_otp user phone db)) [
      | some o ↦ pure o.expires_at db
      | none ↦ issue_reset_code config b surface now code salt user sent phone db
    ]

-- `!user || user.role !== role`
abbrev pub eligible_user : Role → Option (ℕ × User) → Option ℕ
eligible_user role none = none
eligible_user role (some (id, u)) = if same_role u.role role then some id else none

-- `_passwordResetRequestForRole`
unfoldable pub request_reset :
    AuthConfig
    → Bcrypt
    → Role
    → (surface : Bool) → (now code salt : ℕ) → (sent : Bool) → Text
    → Auth ℕ
unfolding request_reset_of find_account
request_reset config b role surface now code salt sent raw_phone db =
    let phone : Text = normalize_phone raw_phone in
    elim (eligible_user role (find_account phone db)) [
      | none ↦ pure (now + otp_expiry_ms) db
      | some user ↦ request_reset_of config b surface now code salt sent phone user db
    ]

-- `forgotPasswordRequest`
unfoldable pub forgot_password_request :
    AuthConfig → Bcrypt → (now code salt : ℕ) → (sent : Bool) → Text → Auth ℕ
unfolding request_reset
forgot_password_request config b now code salt sent raw_phone = do
  assert_not_support_account config raw_phone
  request_reset config b Role.worker false now code salt sent raw_phone

-- `clientForgotPasswordRequest`
unfoldable pub client_forgot_password_request :
    AuthConfig → Bcrypt → (now code salt : ℕ) → (sent : Bool) → Text → Auth ℕ
unfolding request_reset
client_forgot_password_request config b now code salt sent raw_phone = do
  assert_not_support_account config raw_phone
  request_reset config b Role.client true now code salt sent raw_phone

abbrev pub with_password : ℕ → User → User
with_password hash u = record u { password_hash = some hash }

-- With no stored code: the code that a configuration outside production may name.
unfoldable pub reset_without_code :
    AuthConfig → Bcrypt → (salt code password user : ℕ) → Auth (Unit {0})
unfolding update_user
reset_without_code config b salt code password user = do
  reject_if (config.production || not (holds_id config.dev_otp code)) invalid_reset_code
  update_user user (with_password (b.hash salt password))

unfoldable pub reset_with_code :
    Bcrypt → (now salt code password user : ℕ) → Text → PasswordResetOtp → Auth (Unit {0})
unfolding update_user update_reset_otp consume_all_active_otps
reset_with_code b now salt code password user phone o =
    if leb 5 o.attempts
    then (modify (update_reset_otp o.id (consume_reset now)) >> raise invalid_reset_code)
    else if b.compare code o.otp_hash
    then (update_user user (with_password (b.hash salt password))
        >> modify (consume_all_active_otps now user phone))
    else (modify (update_reset_otp o.id (λ o. record o { attempts = o.attempts + 1 }))
        >> raise invalid_reset_code)

unfoldable pub reset_of :
    AuthConfig
    → Bcrypt
    → (now salt code password user : ℕ) → Text
    → Option PasswordResetOtp
    → Auth (Unit {0})
unfolding reset_without_code reset_with_code
reset_of config b now salt code password user phone none =
    reset_without_code config b salt code password user
reset_of config b now salt code password user phone (some o) =
    reset_with_code b now salt code password user phone o

-- `forgotPasswordReset`
unfoldable pub forgot_password_reset :
    AuthConfig → Bcrypt → (now salt : ℕ) → Text → (code password : ℕ) → Auth (Unit {0})
unfolding reset_of find_active_otp find_account
forgot_password_reset config b now salt raw_phone code password = do
  assert_not_support_account config raw_phone
  found ← require (← reads (find_account (normalize_phone raw_phone))) invalid_reset_code
  active ← reads (find_active_otp now found.0 (normalize_phone raw_phone))
  reset_of config b now salt code password found.0 (normalize_phone raw_phone) active
