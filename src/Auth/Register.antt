-- ===== src/Auth/Register.antt =====
-- The registrations in backend/src/modules/auth/auth.service.ts. `jwt` is what `jwtService.verify` says
-- of the registration token: its `sub`, where the signature and the purpose are right and it has not
-- expired. `salt` is what bcrypt draws for the password.
pub mod Numbers
pub mod Accounts
use easyrepair.Auth.Sessions.{Session, build_auth_response}
use easyrepair.Auth.State.{
  unique_violation, service_not_available, password_matches, AuthDb, registration_proof_required,
  phone_already_registered, worker_register, is_client_role, registration_token_invalid,
  client_login_register, Role, AuthOtpPurpose, User, Bcrypt, Auth, AuthConfig,
}
use easyrepair.Auth.Phone.{same_text, Text}
use easyrepair.Auth.Otp.{assert_not_support_account, read_phone, verify_auth_otp}
use easyrepair.Auth.Users.{has_number, find_account, find_user_by_phone, create_user_with_profile}
use easyrepair.Steps.{catch_with, done, failed, reject_if, raise, reads, pure, ◌>>=◌, ◌>>◌}
use easyrepair.Prelude.{ℕ, Bool, true, false, not, ◌||◌, Option, none, some, is_some}

-- `register`, an older way in: the number is stored as it is written.
unfoldable pub register :
    AuthConfig
    → Bcrypt
    → (now fresh salt : ℕ) → Text
    → (password : ℕ) → Role
    → Option ℕ
    → Auth Session
unfolding find_user_by_phone create_user_with_profile build_auth_response
register config b now fresh salt phone password role category = do
  assert_not_support_account config phone
  existing ← reads (find_user_by_phone phone)
  reject_if (is_some existing) phone_already_registered
  id ← create_user_with_profile phone (some (b.hash salt password)) role category false
  build_auth_response config now fresh id

-- `_recoverExistingClientRegistration`
unfoldable pub recover_existing_client_registration :
    AuthConfig → Bcrypt → (now fresh password : ℕ) → ℕ × User → Auth Session
unfolding build_auth_response
recover_existing_client_registration config b now fresh password (id, u) = do
  reject_if (is_some u.deleted_at || not (is_client_role u.role) || not u.is_active)
      phone_already_registered
  reject_if (not (password_matches b password u.password_hash)) phone_already_registered
  build_auth_response config now fresh id

-- `if (otp !== undefined) await this._verifyAuthOtp(...)`
unfoldable pub verify_if_given :
    Bcrypt → (now : ℕ) → Text → AuthOtpPurpose → Option ℕ → Auth (Unit {0})
unfolding verify_auth_otp
verify_if_given b now phone purpose none = pure tt
verify_if_given b now phone purpose (some code) = verify_auth_otp b now phone purpose code

-- The answer to the loser of a race for one number.
unfoldable pub recover_winner :
    AuthConfig → Bcrypt → (now fresh password : ℕ) → Option (ℕ × User) → Auth Session
unfolding recover_existing_client_registration
recover_winner config b now fresh password none = raise unique_violation
recover_winner config b now fresh password (some winner) =
    recover_existing_client_registration config b now fresh password winner

-- The rest of `clientPasswordRegister`, where the lookup finds no account.
-- The session is written after the `try`.
unfoldable pub create_client :
    AuthConfig → Bcrypt → (now fresh salt password : ℕ) → Text → (verified : Bool) → Auth Session
unfolding create_user_with_profile build_auth_response recover_winner find_account
create_client config b now fresh salt password phone verified db =
    let (created, after) =
      create_user_with_profile phone (some (b.hash salt password)) Role.client none verified db in
    elim created [
      | done id ↦ build_auth_response config now fresh id after
      | failed e ↦ recover_winner config b now fresh password (find_account phone after) after
    ]

unfoldable pub register_client :
    AuthConfig
    → Bcrypt
    → (now fresh salt password : ℕ) → Text
    → (verified : Bool) → Option (ℕ × User)
    → Auth Session
unfolding create_client recover_existing_client_registration
register_client config b now fresh salt password phone verified none =
    create_client config b now fresh salt password phone verified
register_client config b now fresh salt password phone verified (some account) =
    recover_existing_client_registration config b now fresh password account

-- `clientPasswordRegister`
unfoldable pub client_password_register :
    AuthConfig → Bcrypt → (now fresh salt : ℕ) → Text → (password : ℕ) → Option ℕ → Auth Session
unfolding register_client verify_if_given read_phone find_account
client_password_register config b now fresh salt raw_phone password code = do
  phone ← read_phone config raw_phone
  verify_if_given b now phone client_login_register code
  existing ← reads (find_account phone)
  register_client config b now fresh salt password phone (is_some code) existing

-- `workerOtpVerify`: the number that the registration token is signed for.
unfoldable pub worker_otp_verify : AuthConfig → Bcrypt → (now : ℕ) → Text → (code : ℕ) → Auth Text
unfolding read_phone verify_auth_otp find_account
worker_otp_verify config b now raw_phone code = do
  phone ← read_phone config raw_phone
  existing ← reads (find_account phone)
  reject_if (is_some existing) phone_already_registered
  verify_auth_otp b now phone worker_register code
  pure phone

-- What a worker's registration brings to show that the number is theirs: a registration token, as it is
-- verified, or a code, or nothing.
pub data RegistrationProof : Type 0 where
  token : (jwt : Option Text) → RegistrationProof
  code : ℕ → RegistrationProof
  nothing : RegistrationProof

-- `_phoneFromWorkerRegistrationToken`, and the choice between the two proofs.
unfoldable pub check_proof : Bcrypt → (now : ℕ) → Text → RegistrationProof → Auth (Unit {0})
unfolding verify_auth_otp same_text
check_proof b now phone (RegistrationProof.token none) = raise registration_token_invalid
check_proof b now phone (RegistrationProof.token (some sub)) =
    reject_if (not (same_text sub phone)) registration_token_invalid
check_proof b now phone (RegistrationProof.code c) = verify_auth_otp b now phone worker_register c
check_proof b now phone RegistrationProof.nothing = raise registration_proof_required

-- `createUserWithProfile` of a worker, where a violation of `phone` is the usual rejection.
unfoldable pub create_worker : Text → (hash category : ℕ) → Auth ℕ
unfolding create_user_with_profile
create_worker phone hash category =
    catch_with (create_user_with_profile phone (some hash) Role.worker (some category) true)
      (λ e. raise phone_already_registered)

-- `workerOtpRegister`
unfoldable pub worker_otp_register :
    AuthConfig
    → Bcrypt
    → (now fresh salt : ℕ) → Text
    → RegistrationProof
    → (password category : ℕ) → Auth Session
unfolding read_phone check_proof find_account has_number create_worker build_auth_response
worker_otp_register config b now fresh salt raw_phone proof password category = do
  phone ← read_phone config raw_phone
  check_proof b now phone proof
  existing ← reads (find_account phone)
  reject_if (is_some existing) phone_already_registered
  selectable ← reads (λ (db : AuthDb). has_number category db.active_categories)
  reject_if (not selectable) service_not_available
  id ← create_worker phone (b.hash salt password) category
  build_auth_response config now fresh id
