-- ===== src/Auth/Otp/Coherence.antt =====
-- What the requests and the checks of codes keep.
use easyrepair.Prelude.{
  ℕ, ◌+◌, ◌≤◌, ◌≡◌, refl, inl, inr, Bool, true, Option, List, [], ◌∷◌, arith, ◌==◌, Option-cases,
  is_some,
}
use easyrepair.Auth.State.{AuthOtp, same_purpose, Bcrypt, AuthDb, AuthOtpPurpose, AuthConfig}
use easyrepair.Auth.Phone.{normalize_pakistani_phone, same_text, Text}
use easyrepair.Auth.Otp.{
  count_attempt, check_cooldown, find_active_auth_otp, read_phone, request_otp_for, check_code,
  otp_expiry_ms, update_auth_otp, send_otp, request_otp, verify_auth_otp,
  invalidate_previous_auth_otps, is_open_for, create_auth_otp, delete_auth_otp, consume,
}
use easyrepair.Auth.Rows.{count_where, update_where}
use easyrepair.Auth.Otp.Codes.{
  count_where-update, count_where-delete, delete_where-IsNumbered, update_where-IsNumbered,
  IsNumbered,
}

-- The codes are numbered by their age, and at most one code of a phone and purpose is open.
pub record IsCoherent (db : AuthDb) : Type 0 where
  pub numbered : IsNumbered db.next_otp db.auth_otps
  pub one_open :
      (phone : Text) (purpose : AuthOtpPurpose)
      → count_where (is_open_for phone purpose) db.auth_otps ≤ 1

-- A write to rows that opens none.
abbrev pub OpensNone : (AuthOtp → Bool) → (AuthOtp → AuthOtp) → Type 0
OpensNone p f =
    (o : AuthOtp)
    → ((f o).id ≡ o.id)
      × ((f o).phone ≡ o.phone)
      × ((f o).purpose ≡ o.purpose)
      × (is_some o.consumed_at ≡ true → is_some (f o).consumed_at ≡ true)

stays_closed :
    (p : AuthOtp → Bool) (f : AuthOtp → AuthOtp) (phone : Text) (purpose : AuthOtpPurpose)
    → OpensNone p f
    → (o : AuthOtp) → p o ≡ true
    → is_open_for phone purpose (f o) ≡ true
    → is_open_for phone purpose o ≡ true
stays_closed p f phone purpose keeps o fits open_after =
    go (f o) (keeps o).1 (keeps o).2 (keeps o).3 open_after
  where
    go :
        (o' : AuthOtp)
        → o'.phone ≡ o.phone
        → o'.purpose ≡ o.purpose
        → (is_some o.consumed_at ≡ true → is_some o'.consumed_at ≡ true)
        → is_open_for phone purpose o' ≡ true
        → is_open_for phone purpose o ≡ true
    go o' a b c h = rw (← a, ← b) (ground arith)

pub update-IsCoherent :
    (p : AuthOtp → Bool) (f : AuthOtp → AuthOtp) (db : AuthDb)
    → OpensNone p f
    → IsCoherent db
    → IsCoherent (record db { auth_otps = update_where p f db.auth_otps })
update-IsCoherent p f db keeps h = record {
  numbered = update_where-IsNumbered db.next_otp p f db.auth_otps (λ o. (keeps o).0) h.numbered;
  one_open = λ phone purpose. omega (
    arith,
    count_where-update (is_open_for phone purpose) p f db.auth_otps
        (stays_closed p f phone purpose keeps),
    h.one_open phone purpose,
  );
}

delete-IsCoherent : (id : ℕ) (db : AuthDb) → IsCoherent db → IsCoherent (delete_auth_otp id db)
unfolding delete_auth_otp
delete-IsCoherent id db h = record {
  numbered = delete_where-IsNumbered db.next_otp (λ o. o.id == id) db.auth_otps h.numbered;
  one_open = λ phone purpose. omega (
    arith,
    count_where-delete (is_open_for phone purpose) (λ o. o.id == id) db.auth_otps,
    h.one_open phone purpose,
  );
}

pub same_text_eq : (a b : Text) → same_text a b ≡ true → a ≡ b
unfolding same_text
same_text_eq [] [] h = refl
same_text_eq [] (b ∷ bs) h = cc
same_text_eq (a ∷ as') [] h = cc
same_text_eq (a ∷ as') (b ∷ bs) h = ground (arith, same_text_eq as' bs)

pub same_purpose_eq : (p q : AuthOtpPurpose) → same_purpose p q ≡ true → p ≡ q
same_purpose_eq p q h = ground arith

-- Consuming the open codes of a phone and purpose leaves none.
pub consumed_none :
    (now : ℕ) (phone : Text) (purpose : AuthOtpPurpose) (os : List AuthOtp)
    → count_where
        (is_open_for phone purpose)
        (update_where (is_open_for phone purpose) (consume now) os)
      ≡ 0
unfolding count_where update_where
consumed_none now phone purpose [] = refl
consumed_none now phone purpose (o ∷ os) = ground (arith, consumed_none now phone purpose os)

consume-OpensNone : (now : ℕ) (p : AuthOtp → Bool) → OpensNone p (consume now)
consume-OpensNone now p o = ground arith

-- The same phone and purpose, by the tests.
same_key :
    (phone phone' : Text) (purpose purpose' : AuthOtpPurpose) (os : List AuthOtp)
    → count_where (is_open_for phone purpose) os ≡ 0
    → same_text phone phone' ≡ true
    → same_purpose purpose purpose' ≡ true
    → count_where (is_open_for phone' purpose') os ≡ 0
same_key phone phone' purpose purpose' os h t p =
    rw (← same_text_eq phone phone' t, ← same_purpose_eq purpose purpose' p) h

-- A new code for a phone and purpose of which none is open.
create-IsCoherent :
    (now hash : ℕ) (ip : Option ℕ) (phone : Text) (purpose : AuthOtpPurpose) (db : AuthDb)
    → IsCoherent db
    → count_where (is_open_for phone purpose) db.auth_otps ≡ 0
    → IsCoherent (create_auth_otp now hash ip phone purpose db)
unfolding create_auth_otp count_where
create-IsCoherent now hash ip phone purpose db h closed = record {
  numbered = (omega arith, h.numbered);
  one_open = λ phone' purpose'. ground (
    arith,
    h.one_open phone' purpose',
    same_key phone phone' purpose purpose' db.auth_otps closed,
  );
}

module _ (b : Bcrypt) (now code : ℕ) (purpose : AuthOtpPurpose) where
  pub verify-IsCoherent :
      (phone : Text) (db : AuthDb)
      → IsCoherent db
      → IsCoherent (verify_auth_otp b now phone purpose code db).1
  unfolding verify_auth_otp check_code update_auth_otp
  verify-IsCoherent phone db h = elim (Option-cases (find_active_auth_otp now phone purpose db)) [
    | inl missing ↦ rw missing h
    | inr (o, found) ↦ rw found (
        ground (
          arith,
          update-IsCoherent (λ r. r.id == o.id) (consume now) db
              (consume-OpensNone now (λ r. r.id == o.id)) h,
          update-IsCoherent (λ r. r.id == o.id) count_attempt db (λ r. ground arith) h,
        ))
  ]

module _ (config : AuthConfig) (b : Bcrypt) (now code : ℕ) (purpose : AuthOtpPurpose) where
  send-IsCoherent :
      (sent : Bool) (id expires_at : ℕ) (db : AuthDb)
      → IsCoherent db
      → IsCoherent (send_otp config sent id expires_at db).1
  unfolding send_otp update_auth_otp
  send-IsCoherent sent id expires_at db h = ground (
    arith,
    delete-IsCoherent id db h,
    update-IsCoherent (λ o. o.id == id) (λ o. record o { sms_dispatched = true }) db
        (λ o. ground arith) h,
  )

  invalidated :
      (phone : Text) (db : AuthDb)
      → IsCoherent db
      → IsCoherent (invalidate_previous_auth_otps now phone purpose db)
        × (count_where
              (is_open_for phone purpose)
              (invalidate_previous_auth_otps now phone purpose db).auth_otps
            ≡ 0)
  unfolding invalidate_previous_auth_otps
  invalidated phone db h = (
    update-IsCoherent (is_open_for phone purpose) (consume now) db
        (consume-OpensNone now (is_open_for phone purpose)) h,
    consumed_none now phone purpose db.auth_otps,
  )

  issue-IsCoherent :
      (hash : ℕ) (sent : Bool) (ip : Option ℕ) (phone : Text) (db : AuthDb)
      → IsCoherent db
      → IsCoherent
          (send_otp config sent db.next_otp (now + otp_expiry_ms) (
            create_auth_otp now hash ip phone purpose
              (invalidate_previous_auth_otps now phone purpose db))).1
  issue-IsCoherent hash sent ip phone db h =
      send-IsCoherent sent db.next_otp (now + otp_expiry_ms)
        (create_auth_otp now hash ip phone purpose
          (invalidate_previous_auth_otps now phone purpose db))
        (create-IsCoherent now hash ip phone purpose
          (invalidate_previous_auth_otps now phone purpose db) (invalidated phone db h).0
          (invalidated phone db h).1)

  -- A request for a code and a check of one keep this: the codes are numbered by their age, and of
  -- each phone and purpose at most one code is open.
  pub otp-IsCoherent :
      (salt : ℕ) (sent : Bool) (ip : Option ℕ) (raw_phone : Text) (db : AuthDb)
      → IsCoherent db
      → IsCoherent (request_otp config b now code salt sent ip raw_phone purpose db).1
        × IsCoherent (verify_auth_otp b now raw_phone purpose code db).1
  unfolding request_otp request_otp_for read_phone check_cooldown
  otp-IsCoherent salt sent ip raw_phone db h = (
    elim (Option-cases (normalize_pakistani_phone raw_phone)) [
      | inl bad ↦ ground arith
      | inr (phone, good) ↦ ground (arith, issue-IsCoherent (b.hash salt code) sent ip phone db h)
    ],
    verify-IsCoherent b now code purpose raw_phone db h,
  )
