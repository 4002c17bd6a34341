-- ===== src/Auth/Login/Unlisted.antt =====
-- A number that is written without a prefix: `3XXXXXXXXX`.
use easyrepair.Auth.Otp.Pacing.{same_text_refl}
use easyrepair.Auth.Phone.Laws.{forms, national}
use easyrepair.Auth.Register.{register}
use easyrepair.Auth.Otp.{read_phone}
use easyrepair.Auth.Sessions.{create_refresh_token, build_auth_response, Session}
use easyrepair.Auth.Login.{find_account_for, client_password_login, login}
use easyrepair.Auth.Phone.{
  is_support_phone, plus_92, same_text, normalize_pakistani_phone, strip_prefix,
  phone_lookup_variants, is_national, Text,
}
use easyrepair.Auth.Users.{
  new_user, find_user_by_phone_variants, find_account, create_user_with_profile, is_one_of,
}
use easyrepair.Prelude.{
  find_first-new, ℕ, ◌+◌, ◌≡◌, refl, true, false, Option, none, some, ◌++◌, arith, put, is_row,
}
use easyrepair.Steps.{done, failed}
use easyrepair.Auth.State.{phone_not_registered, AuthDb, Role, Bcrypt, AuthConfig, User}

bare_normalizes :
    (m : Text) → is_national m ≡ true → normalize_pakistani_phone m ≡ some (plus_92 ++ m)
bare_normalizes m h = let n = national m h in rw n.shape (forms n.rest n.digits n.long).0

bare_is_no_variant :
    (m : Text) → is_national m ≡ true → is_one_of (phone_lookup_variants (plus_92 ++ m)) m ≡ false
unfolding is_one_of phone_lookup_variants strip_prefix same_text
bare_is_no_variant m h = rw (national m h).shape refl

module _ (config : AuthConfig) (b : Bcrypt) (m : Text) (bare : is_national m ≡ true) where
  -- A new user with this number is not found under it.
  still_none :
      (hash : ℕ) (role : Role) (category : Option ℕ) (db db' : AuthDb)
      → find_account (plus_92 ++ m) db ≡ none
      → db'.users ≡ put db.next_user (new_user m (some hash) role category false) db.users
      → db'.next_user ≡ db.next_user + 1
      → find_account (plus_92 ++ m) db' ≡ none
  unfolding find_account find_user_by_phone_variants
  still_none hash role category db db' missing users next = ground (
    arith,
    find_first-new (λ i (u : User). is_one_of (phone_lookup_variants (plus_92 ++ m)) u.phone)
        db.next_user (new_user m (some hash) role category false) db.users
        (bare_is_no_variant m bare),
  )

  refused_at_login :
      (now fresh password : ℕ) (db : AuthDb)
      → is_support_phone m config.support_phone ≡ false
      → find_account (plus_92 ++ m) db ≡ none
      → ((login config b now fresh m password db).0 ≡ failed phone_not_registered)
        × ((client_password_login config b now fresh m password db).0 ≡ failed phone_not_registered)
  unfolding login client_password_login read_phone find_account_for
  refused_at_login now fresh password db other missing =
      rw (other, bare_normalizes m bare, missing) (refl, refl)

  -- What a registration that is answered has written.
  registered_facts :
      (now fresh salt password : ℕ) (role : Role) (category : Option ℕ) (s : Session)
      (db db' : AuthDb)
      → register config b now fresh salt m password role category db ≡ (done s, db')
      → (is_support_phone m config.support_phone ≡ false)
        × (s.user_id ≡ db.next_user)
        × (db'.users
            ≡ put db.next_user
                (new_user m (some (b.hash salt password)) role category false)
                db.users)
        × (db'.next_user ≡ db.next_user + 1)
  unfolding register create_user_with_profile build_auth_response create_refresh_token
  registered_facts now fresh salt password role category s db db' h = ground arith

  -- A number that is registered through `register` without a prefix, which the request's pattern
  -- accepts, and that no account has in one of the forms with a prefix: the account is stored, under
  -- the number as it is written; the lookup by the forms of the normalized number does not find it; and
  -- the logins of workers and of clients by password, with the same text and whatever the password, say
  -- that the number is not registered.
  pub register_bare_lost :
      (now fresh salt password later fresh' attempt : ℕ) (role : Role) (category : Option ℕ)
      (s : Session) (db db' : AuthDb)
      → find_account (plus_92 ++ m) db ≡ none
      → register config b now fresh salt m password role category db ≡ (done s, db')
      → (is_row (λ (u : User). same_text u.phone m) (db'.users s.user_id) ≡ true)
        × (find_account (plus_92 ++ m) db' ≡ none)
        × ((login config b later fresh' m attempt db').0 ≡ failed phone_not_registered)
        × ((client_password_login config b later fresh' m attempt db').0
            ≡ failed phone_not_registered)
  register_bare_lost now fresh salt password later fresh' attempt role category s db db' missing
        registered =
      let (other, id, users, next) =
        registered_facts now fresh salt password role category s db db' registered in
      let unlisted = still_none (b.hash salt password) role category db db' missing users next in
      let (worker, client) = refused_at_login later fresh' attempt db' other unlisted in
      (rw (users, id) (ground (arith, same_text_refl m)), unlisted, worker, client)
