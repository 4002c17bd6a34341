-- ===== src/Auth/Login.antt =====
-- The logins in backend/src/modules/auth/auth.service.ts: `login` (workers), `adminLogin`,
-- `clientPasswordLogin`, `clientOtpLogin`, `workerOtpLogin`, and `checkClientPhoneStatus`.
pub mod Entries
pub mod Outcome
pub mod Unlisted
use easyrepair.Auth.Phone.{normalize_pakistani_phone, Text}
use easyrepair.Auth.Sessions.{Session, build_auth_response}
use easyrepair.Auth.Otp.{assert_not_support_account, verify_auth_otp, read_phone}
use easyrepair.Auth.Users.{update_user, find_account, find_user_by_phone}
use easyrepair.Auth.State.{
  wrong_password, password_matches, account_deactivated, phone_not_registered,
  client_login_register, worker_login, Auth, is_worker_role, is_admin_role, Bcrypt, AuthConfig,
  Role, User,
}
use easyrepair.Steps.{reject_if, require, reads, ◌>>=◌, ◌>>◌}
use easyrepair.Prelude.{ℕ, Bool, true, not, ◌||◌, Option, none, some, if◌then◌else◌, is_some}

-- `!user || user.deletedAt !== null || <the role is refused>`: no account for this login.
abbrev pub account_for : (Role → Bool) → Option (ℕ × User) → Option (ℕ × User)
account_for refused none = none
account_for refused (some (id, u)) =
    if is_some u.deleted_at || refused u.role then none else some (id, u)

abbrev pub not_worker : Role → Bool
not_worker r = not (is_worker_role r)

abbrev pub not_admin : Role → Bool
not_admin r = not (is_admin_role r)

-- From `if (!user.isActive)` on, in the logins by password.
unfoldable pub enter_with_password :
    AuthConfig → Bcrypt → (now fresh password : ℕ) → ℕ × User → Auth Session
unfolding build_auth_response
enter_with_password config b now fresh password (id, u) = do
  reject_if (not u.is_active) account_deactivated
  reject_if (not (password_matches b password u.password_hash)) wrong_password
  build_auth_response config now fresh id

-- From `if (!user.isActive)` on, in the logins by code.
unfoldable pub enter_verified : AuthConfig → (now fresh : ℕ) → ℕ × User → Auth Session
unfolding build_auth_response update_user
enter_verified config now fresh (id, u) = do
  reject_if (not u.is_active) account_deactivated
  update_user id (λ u. record u { phone_verified = true })
  build_auth_response config now fresh id

-- The lookup and the rejection that the logins share.
unfoldable pub find_account_for : (Role → Bool) → Text → Auth (ℕ × User)
unfolding find_account
find_account_for refused phone = do
  found ← reads (find_account phone)
  require (account_for refused found) phone_not_registered

-- `login`
unfoldable pub login : AuthConfig → Bcrypt → (now fresh : ℕ) → Text → (password : ℕ) → Auth Session
unfolding enter_with_password find_account_for
login config b now fresh raw_phone password = do
  assert_not_support_account config raw_phone
  phone ← require (normalize_pakistani_phone raw_phone) phone_not_registered
  account ← find_account_for not_worker phone
  enter_with_password config b now fresh password account

-- `adminLogin`: by the number as it is stored.
unfoldable pub admin_login :
    AuthConfig → Bcrypt → (now fresh : ℕ) → Text → (password : ℕ) → Auth Session
unfolding enter_with_password find_user_by_phone
admin_login config b now fresh raw_phone password = do
  assert_not_support_account config raw_phone
  found ← reads (find_user_by_phone raw_phone)
  account ← require (account_for not_admin found) phone_not_registered
  enter_with_password config b now fresh password account

-- `clientPasswordLogin`: only a worker's role is refused.
unfoldable pub client_password_login :
    AuthConfig → Bcrypt → (now fresh : ℕ) → Text → (password : ℕ) → Auth Session
unfolding enter_with_password find_account_for read_phone
client_password_login config b now fresh raw_phone password = do
  phone ← read_phone config raw_phone
  account ← find_account_for is_worker_role phone
  enter_with_password config b now fresh password account

-- `clientOtpLogin`
unfoldable pub client_otp_login :
    AuthConfig → Bcrypt → (now fresh : ℕ) → Text → (code : ℕ) → Auth Session
unfolding enter_verified find_account_for read_phone verify_auth_otp
client_otp_login config b now fresh raw_phone code = do
  phone ← read_phone config raw_phone
  verify_auth_otp b now phone client_login_register code
  account ← find_account_for is_worker_role phone
  enter_verified config now fresh account

-- `workerOtpLogin`
unfoldable pub worker_otp_login :
    AuthConfig → Bcrypt → (now fresh : ℕ) → Text → (code : ℕ) → Auth Session
unfolding enter_verified find_account_for read_phone verify_auth_otp
worker_otp_login config b now fresh raw_phone code = do
  phone ← read_phone config raw_phone
  verify_auth_otp b now phone worker_login code
  account ← find_account_for not_worker phone
  enter_verified config now fresh account

data ClientPhoneStatus : Type 0 where
  client new : ClientPhoneStatus

abbrev status_of_account : Option (ℕ × User) → ClientPhoneStatus
status_of_account none = ClientPhoneStatus.new
status_of_account (some (id, u)) =
    if is_worker_role u.role then ClientPhoneStatus.new else ClientPhoneStatus.client

-- `checkClientPhoneStatus`
unfoldable check_client_phone_status : AuthConfig → Text → Auth ClientPhoneStatus
unfolding read_phone find_account
check_client_phone_status config raw_phone = do
  phone ← read_phone config raw_phone
  reads (λ db. status_of_account (find_account phone db))
