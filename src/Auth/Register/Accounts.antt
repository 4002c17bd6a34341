-- ===== src/Auth/Register/Accounts.antt =====
-- The registrations and the numbers of the accounts.
use easyrepair.Auth.Users.{has_number, find_account}
use easyrepair.Auth.Sessions.{build_auth_response, Session}
use easyrepair.Auth.Register.{reject_if, reads, create_worker}
use easyrepair.Auth.Phone.{Text}
use easyrepair.Prelude.{ℕ, not, is_some}
use easyrepair.Steps.{◌>>=◌, ◌>>◌}
use easyrepair.Auth.State.{
  service_not_available, phone_already_registered, AuthDb, Auth, Bcrypt, AuthConfig,
}

module _ (config : AuthConfig) (b : Bcrypt) (now fresh salt password : ℕ) where
  -- From the lookup of the account on.
  abbrev worker_rest : Text → (category : ℕ) → Auth Session
  worker_rest phone category = reads (find_account phone) >>= λ existing.
      reject_if (is_some existing) phone_already_registered
      >> (reads (λ (db : AuthDb). has_number category db.active_categories) >>= λ selectable.
          reject_if (not selectable) service_not_available
          >> (create_worker phone (b.hash salt password) category
              >>= build_auth_response config now fresh))
