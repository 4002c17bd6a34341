-- ===== src/Auth/State.antt =====
-- The rows that the authentication code keeps (User, RefreshToken, AuthOtp and PasswordResetOtp of
-- backend/prisma/schema.prisma), and what it asks of the outside: bcrypt and the configuration.
use easyrepair.Prelude.{ℕ, Bool, true, false, Option, none, some, List, Table}
use easyrepair.Auth.Phone.{Text}
use easyrepair.Steps.{Step}

pub data Role : Type 0 where
  client worker admin : Role

abbrev pub is_client_role : Role → Bool
is_client_role Role.client = true
is_client_role _ = false

abbrev pub is_worker_role : Role → Bool
is_worker_role Role.worker = true
is_worker_role _ = false

abbrev pub is_admin_role : Role → Bool
is_admin_role Role.admin = true
is_admin_role _ = false

abbrev pub same_role : Role → Role → Bool
same_role Role.client = is_client_role
same_role Role.worker = is_worker_role
same_role Role.admin = is_admin_role

pub data AuthOtpPurpose : Type 0 where
  client_login_register worker_register worker_login : AuthOtpPurpose

abbrev pub same_purpose : AuthOtpPurpose → AuthOtpPurpose → Bool
same_purpose client_login_register client_login_register = true
same_purpose worker_register worker_register = true
same_purpose worker_login worker_login = true
same_purpose _ _ = false

-- A hash and a token are numbers, as they are only compared.
pub record User : Type 0 where
  pub phone : Text
  pub password_hash : Option ℕ
  pub role : Role
  pub is_active : Bool
  pub fcm_token : Option ℕ
  pub phone_verified : Bool
  pub deleted_at : Option ℕ
  -- the categories of the worker profile's skills
  pub skills : List ℕ

pub record RefreshToken : Type 0 where
  pub user_id : ℕ
  pub expires_at : ℕ
  pub replaced_by_token : Option ℕ
  pub superseded_at : Option ℕ

pub record AuthOtp : Type 0 where
  pub id : ℕ
  pub phone : Text
  pub purpose : AuthOtpPurpose
  pub otp_hash : ℕ
  pub expires_at : ℕ
  pub consumed_at : Option ℕ
  pub attempts : ℕ
  pub request_ip : Option ℕ
  pub created_at : ℕ
  pub sms_dispatched : Bool

pub record PasswordResetOtp : Type 0 where
  pub id : ℕ
  pub user_id : ℕ
  pub phone : Text
  pub otp_hash : ℕ
  pub expires_at : ℕ
  pub consumed_at : Option ℕ
  pub attempts : ℕ
  pub created_at : ℕ

-- Refresh tokens stand at their `token`, which is unique. The codes are listed newest first.
pub record AuthDb : Type 0 where
  pub users : Table User
  pub next_user : ℕ
  pub refresh_tokens : Table RefreshToken
  pub auth_otps : List AuthOtp
  pub reset_otps : List PasswordResetOtp
  pub next_otp : ℕ
  pub active_categories : List ℕ

-- What a request throws, by the `error` code or the message.
pub data AuthError : Type 0 where
  invalid_refresh_token user_inactive : AuthError
  support_account invalid_phone phone_not_registered phone_already_registered : AuthError
  account_deactivated wrong_password user_not_found : AuthError
  otp_rate_limited sms_send_failed otp_expired otp_attempts_exceeded otp_invalid : AuthError
  otp_resend_too_soon : (retry_after_seconds : ℕ) → AuthError
  registration_token_invalid registration_proof_required service_not_available : AuthError
  invalid_reset_code : AuthError
  unique_violation record_not_found : AuthError

abbrev pub Auth : Type 0 → Type 0
Auth = Step AuthDb AuthError

-- `bcrypt.compare`, and `bcrypt.hash` with the salt that it draws. A comparison with the empty string
-- fails.
pub record Bcrypt : Type 0 where
  pub hash : (salt secret : ℕ) → ℕ
  pub compare : (secret hash : ℕ) → Bool

-- `compare(secret, user.passwordHash ?? '')`
abbrev pub password_matches : Bcrypt → ℕ → Option ℕ → Bool
password_matches b secret none = false
password_matches b secret (some h) = b.compare secret h

pub record AuthConfig : Type 0 where
  pub support_phone : Option Text
  pub refresh_expires_ms : ℕ
  pub sms_configured : Bool
  pub production : Bool
  pub dev_otp : Option ℕ
