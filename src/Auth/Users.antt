-- ===== src/Auth/Users.antt =====
-- Users by phone number, and their creation, in backend/src/modules/auth/auth.repository.ts. The names
-- in the profiles are left out.
use easyrepair.Auth.State.{record_not_found, unique_violation, AuthDb, Auth, Role, User}
use easyrepair.Auth.Phone.{Text, same_text, phone_lookup_variants}
use easyrepair.Steps.{done, raise}
use easyrepair.Prelude.{
  ℕ, ◌+◌, Bool, true, false, ◌||◌, Option, none, some, List, [], ◌∷◌, ◌==◌, put, find_first,
}

-- `phone: { in: variants }`
unfoldable pub is_one_of : List Text → Text → Bool
unfolding same_text
is_one_of [] phone = false
is_one_of (v ∷ vs) phone = same_text phone v || is_one_of vs phone

-- `findUserByPhoneVariants`: of several rows the source takes any, and the model the newest.
unfoldable pub find_user_by_phone_variants : List Text → AuthDb → Option (ℕ × User)
unfolding find_first is_one_of
find_user_by_phone_variants variants db =
    find_first (λ i (u : User). is_one_of variants u.phone) db.next_user db.users

-- `findUserByPhone`; `phone` is unique.
unfoldable pub find_user_by_phone : Text → AuthDb → Option (ℕ × User)
unfolding find_first same_text
find_user_by_phone phone db =
    find_first (λ i (u : User). same_text u.phone phone) db.next_user db.users

-- `phoneLookupVariants(normalized)`, looked up
unfoldable pub find_account : Text → AuthDb → Option (ℕ × User)
unfolding find_user_by_phone_variants phone_lookup_variants
find_account phone db = find_user_by_phone_variants (phone_lookup_variants phone) db

-- `findWorkerRegistrationCategory`
unfoldable pub has_number : ℕ → List ℕ → Bool
has_number n [] = false
has_number n (m ∷ ms) = m == n || has_number n ms

-- The skill that `createUserWithProfile` writes for a new worker.
abbrev pub first_skills : Role → Option ℕ → List ℕ
first_skills Role.worker (some category) = category ∷ []
first_skills _ _ = []

abbrev pub new_user : Text → Option ℕ → Role → Option ℕ → Bool → User
new_user phone password_hash role category verified = record {
  phone = phone;
  password_hash = password_hash;
  role = role;
  is_active = true;
  fcm_token = none;
  phone_verified = verified;
  deleted_at = none;
  skills = first_skills role category;
}

-- `createUserWithProfile`: the row and its profile, or the violation of the unique `phone`. The answer
-- is the new user's number.
unfoldable pub create_user_with_profile :
    Text → Option ℕ → Role → (category : Option ℕ) → (verified : Bool) → Auth ℕ
unfolding find_user_by_phone
create_user_with_profile phone password_hash role category verified db =
    elim (find_user_by_phone phone db) [
      | some _ ↦ raise unique_violation db
      | none ↦ (
        done db.next_user,
        record db {
          users = put db.next_user (new_user phone password_hash role category verified) db.users;
          next_user = db.next_user + 1;
        },
      )
    ]

-- `updatePassword`, `markPhoneVerified`
unfoldable pub update_user : ℕ → (User → User) → Auth (Unit {0})
update_user id f db = elim (db.users id) [
  | none ↦ raise record_not_found db
  | some u ↦ (done tt, record db { users = put id (f u) db.users })
]
