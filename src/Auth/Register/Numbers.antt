-- ===== src/Auth/Register/Numbers.antt =====
-- One account for a number, in whichever form it is stored.
use easyrepair.Steps.{Answer, done, failed}
use easyrepair.Auth.Register.{recover_winner, create_client, recover_existing_client_registration}
use easyrepair.Auth.Sessions.{Session, create_refresh_token, build_auth_response}
use easyrepair.Auth.Otp.Coherence.{same_text_eq}
use easyrepair.Auth.Phone.Laws.{lookup_variants_normalize, AllNormalize}
use easyrepair.Auth.Users.{
  new_user, find_user_by_phone, create_user_with_profile, find_user_by_phone_variants, is_one_of,
  find_account,
}
use easyrepair.Auth.Phone.{same_text, phone_lookup_variants, normalize_pakistani_phone, Text}
use easyrepair.Prelude.{
  ==_iff, ℕ, ◌+◌, ◌≤◌, ◌<◌, ◌≡◌, ◌⊎◌, refl, sym, ap, ◌∙◌, inl, inr, Bool, true, Option, none, some,
  List, [], ◌∷◌, arith, ◌==◌, Bool-cases, Option-cases, put, find_first-none,
}
use easyrepair.Auth.State.{AuthError, Role, Bcrypt, AuthConfig, AuthDb, User}

-- The user's phone is one of the forms of a number.
abbrev pub HasNumber : Text → Option User → Type 0
HasNumber phone none = ⊥
HasNumber phone (some u) = is_one_of (phone_lookup_variants phone) u.phone ≡ true

-- What a written number is normalized to.
abbrev pub IsNormal : Text → Type 0
IsNormal phone = normalize_pakistani_phone phone ≡ some phone

-- Users are numbered below `next_user`, and each number is at one user at most.
pub record IsOnePerNumber (db : AuthDb) : Type 0 where
  pub numbered : (i : ℕ) → db.next_user ≤ i → db.users i ≡ none
  pub one :
      (phone : Text) (i j : ℕ)
      → IsNormal phone
      → HasNumber phone (db.users i)
      → HasNumber phone (db.users j)
      → i ≡ j

-- The only normalized form of a number is the number.
variant_normal :
    (phone t : Text) (vs : List Text)
    → AllNormalize phone vs
    → IsNormal t
    → is_one_of vs t ≡ true
    → t ≡ phone
unfolding is_one_of
variant_normal phone t [] h normal one_of = cc
variant_normal phone t (v ∷ vs) h normal one_of = elim (Bool-cases (same_text t v)) [
  | inl same ↦ some_eq (sym normal ∙ (ap normalize_pakistani_phone (same_text_eq t v same) ∙ h.0))
  | inr other ↦ variant_normal phone t vs h.1 normal (rw other at one_of)
]
  where
    some_eq : some t ≡ some phone → t ≡ phone
    some_eq e = cc

-- A number that no lookup finds is at no user.
not_found :
    (phone : Text) (db : AuthDb) (i : ℕ)
    → IsOnePerNumber db
    → find_account phone db ≡ none
    → ¬ HasNumber phone (db.users i)
unfolding find_account find_user_by_phone_variants
not_found phone db i h missing has = elim (Option-cases (db.users i)) [
  | inl none_there ↦ ground arith
  | inr (u, there) ↦ ground (
    arith,
    h.numbered i,
    λ (l : i < db.next_user).
        find_first-none (λ j (v : User). is_one_of (phone_lookup_variants phone) v.phone)
          db.next_user db.users i missing l there,
  )
]

-- What only these two columns say.
pub same_users :
    (db db' : AuthDb)
    → db'.users ≡ db.users
    → db'.next_user ≡ db.next_user
    → IsOnePerNumber db
    → IsOnePerNumber db'
same_users db db' users next h = record {
  numbered = rw (users, next) h.numbered;
  one = rw users h.one;
}

module _ (config : AuthConfig) (b : Bcrypt) (now fresh salt password : ℕ) where
  -- A session is written beside the users.
  pub build-IsOnePerNumber :
      (id : ℕ) (db : AuthDb)
      → IsOnePerNumber db
      → IsOnePerNumber (build_auth_response config now fresh id db).1
  unfolding build_auth_response create_refresh_token
  build-IsOnePerNumber id db h =
      same_users db (build_auth_response config now fresh id db).1 (ground arith) (ground arith) h

  pub recover-IsOnePerNumber :
      (account : ℕ × User) (db : AuthDb)
      → IsOnePerNumber db
      → IsOnePerNumber
          (recover_existing_client_registration config b now fresh password account db).1
  unfolding recover_existing_client_registration
  recover-IsOnePerNumber (id, u) db h = ground (arith, build-IsOnePerNumber id db h)

  winner-IsOnePerNumber :
      (found : Option (ℕ × User)) (db : AuthDb)
      → IsOnePerNumber db
      → IsOnePerNumber (recover_winner config b now fresh password found db).1
  unfolding recover_winner
  winner-IsOnePerNumber none db h = h
  winner-IsOnePerNumber (some account) db h = recover-IsOnePerNumber account db h

  -- Rows with the same number, each of them new or not.
  joined :
      (phone phone' : Text) (i j : ℕ) (db : AuthDb)
      → IsOnePerNumber db
      → find_account phone db ≡ none
      → (HasNumber phone' (db.users i) → HasNumber phone' (db.users j) → i ≡ j)
      → ((i ≡ db.next_user) × (phone ≡ phone')) ⊎ HasNumber phone' (db.users i)
      → ((j ≡ db.next_user) × (phone ≡ phone')) ⊎ HasNumber phone' (db.users j)
      → i ≡ j
  joined phone phone' i j db h missing old (inl (a, p)) (inl (c, q)) = a ∙ sym c
  joined phone phone' i j db h missing old (inl (a, p)) (inr there) =
      absurd (not_found phone db j h missing (rw p there))
  joined phone phone' i j db h missing old (inr here) (inl (c, q)) =
      absurd (not_found phone db i h missing (rw q here))
  joined phone phone' i j db h missing old (inr here) (inr there) = old here there

  -- A new user with a number that no user has.
  added-IsOnePerNumber :
      (phone : Text) (u : User) (db : AuthDb)
      → IsNormal phone
      → u.phone ≡ phone
      → find_account phone db ≡ none
      → IsOnePerNumber db
      → IsOnePerNumber
          (record db { users = put db.next_user u db.users; next_user = db.next_user + 1 })
  added-IsOnePerNumber phone u db normal same missing h = record {
    numbered = λ i l. ground (arith, h.numbered i);
    one = λ phone' i j normal' here there.
        joined phone phone' i j db h missing (h.one phone' i j normal') (row phone' i normal' here)
          (row phone' j normal' there);
  }
    where
      row :
          (phone' : Text) (i : ℕ)
          → IsNormal phone'
          → HasNumber phone' (put db.next_user u db.users i)
          → ((i ≡ db.next_user) × (phone ≡ phone')) ⊎ HasNumber phone' (db.users i)
      row phone' i normal' has = elim (Bool-cases (db.next_user == i)) [
        | inl same_row ↦ inl (
          sym ((==_iff db.next_user i).0 same_row),
          variant_normal phone' phone (phone_lookup_variants phone')
              (lookup_variants_normalize phone' normal') normal (rw (← same) (rw same_row at has)),
        )
        | inr old ↦ inr (rw old at has)
      ]

  -- A registration's write: the row, or nothing.
  module _ (phone : Text) (hash : Option ℕ) (role : Role) (category : Option ℕ) (verified : Bool)
      (db : AuthDb) (normal : IsNormal phone) (missing : find_account phone db ≡ none)
      (h : IsOnePerNumber db) where
    pub create-IsOnePerNumber :
        IsOnePerNumber (create_user_with_profile phone hash role category verified db).1
    unfolding create_user_with_profile
    create-IsOnePerNumber = elim (Option-cases (find_user_by_phone phone db)) [
      | inl free ↦ ground (
        arith,
        added-IsOnePerNumber phone (new_user phone hash role category verified) db normal refl
            missing h,
      )
      | inr (row, found) ↦ ground arith
    ]

  pub create_client-IsOnePerNumber :
      (phone : Text) (verified : Bool) (db : AuthDb)
      → IsNormal phone
      → find_account phone db ≡ none
      → IsOnePerNumber db
      → IsOnePerNumber (create_client config b now fresh salt password phone verified db).1
  unfolding create_client
  create_client-IsOnePerNumber phone verified db normal missing h =
      go (create_user_with_profile phone (some (b.hash salt password)) Role.client none verified db)
        (create-IsOnePerNumber phone (some (b.hash salt password)) Role.client none verified db
          normal missing h)
    where
      go :
          (r : Answer AuthError ℕ × AuthDb)
          → IsOnePerNumber r.1
          → IsOnePerNumber
              (elim r.0 as (λ _. Answer AuthError Session × AuthDb) [
                | done id ↦ build_auth_response config now fresh id r.1
                | failed e ↦ recover_winner config b now fresh password (find_account phone r.1) r.1
              ]).1
      go (done id, after) kept = build-IsOnePerNumber id after kept
      go (failed e, after) kept = winner-IsOnePerNumber (find_account phone after) after kept
