-- ===== src/Tests/Accounts.antt =====
-- A sample of accounts: a client, a worker, a deleted client, and the codes and tokens of the
-- client.
use easyrepair.Prelude.{
  ℕ, zero, suc, ◌+◌, true, false, Option, none, some, [], ◌∷◌, ◌==◌, if◌then◌else◌,
}
use easyrepair.Auth.Phone.{Text}
use easyrepair.Auth.State.{
  User, RefreshToken, AuthOtp, AuthDb, Bcrypt, AuthConfig, Role, client_login_register,
}
use easyrepair.Auth.Users.{new_user}

-- `3001234567` and its forms, `3007654321` and `3111111111`
abbrev pub bare : Text
bare = 51 ∷ 48 ∷ 48 ∷ 49 ∷ 50 ∷ 51 ∷ 52 ∷ 53 ∷ 54 ∷ 55 ∷ []

abbrev pub clients : Text
clients = 43 ∷ 57 ∷ 50 ∷ bare

abbrev pub local : Text
local = 48 ∷ bare

abbrev pub workers : Text
workers = 43 ∷ 57 ∷ 50 ∷ 51 ∷ 48 ∷ 48 ∷ 55 ∷ 54 ∷ 53 ∷ 52 ∷ 51 ∷ 50 ∷ 49 ∷ []

abbrev pub unused_bare : Text
unused_bare = 51 ∷ 49 ∷ 49 ∷ 49 ∷ 49 ∷ 49 ∷ 49 ∷ 49 ∷ 49 ∷ 49 ∷ []

abbrev pub unused : Text
unused = 43 ∷ 57 ∷ 50 ∷ unused_bare

abbrev pub deleted : Text
deleted = 43 ∷ 57 ∷ 50 ∷ 51 ∷ 50 ∷ 50 ∷ 50 ∷ 50 ∷ 50 ∷ 50 ∷ 50 ∷ 50 ∷ 50 ∷ []

-- A hash that is one more than the secret.
abbrev pub bcrypt : Bcrypt
bcrypt = record { hash = λ salt secret. secret + 1; compare = λ secret hash. secret + 1 == hash }

abbrev pub config : AuthConfig
config = record {
  support_phone = none;
  refresh_expires_ms = 2592000000;
  sms_configured = true;
  production = true;
  dev_otp = none;
}

abbrev pub client_user : User
client_user = record (new_user clients (some 43) Role.client none true) { fcm_token = some 900 }

abbrev pub worker_user : User
worker_user = new_user workers (some 44) Role.worker (some 7) true

abbrev deleted_user : User
deleted_user = record (new_user deleted (some 45) Role.client none true) {
  deleted_at = some 500;
  is_active = false;
}

abbrev pub accounts : ℕ → Option User
accounts zero = some client_user
accounts (suc zero) = some worker_user
accounts (suc (suc zero)) = some deleted_user
accounts _ = none

abbrev pub client_token : RefreshToken
client_token = record {
  user_id = 0;
  expires_at = 5000000;
  replaced_by_token = none;
  superseded_at = none;
}

abbrev pub client_code : AuthOtp
client_code = record {
  id = 1;
  phone = clients;
  purpose = client_login_register;
  otp_hash = 123457;
  expires_at = 400000;
  consumed_at = none;
  attempts = 1;
  request_ip = none;
  created_at = 100000;
  sms_dispatched = true;
}

abbrev pub account_db : AuthDb
account_db = record {
  users = accounts;
  next_user = 3;
  refresh_tokens = λ t. if t == 70 then some client_token else none;
  auth_otps = client_code ∷ [];
  reset_otps = [];
  next_otp = 2;
  active_categories = 7 ∷ [];
}
