-- ===== src/Auth/Otp/Refinement.antt =====
-- The codes, seen from outside: of a phone and purpose there is one open code or none.
use easyrepair.Auth.Otp.Codes.{
  find_where-some, find_where-unfit, find_where-only, find_where-update, find_where-other,
}
use easyrepair.Auth.Otp.{
  count_attempt, consume, is_for, find_active_auth_otp, verify_auth_otp, is_open_for, check_code,
  update_auth_otp,
}
use easyrepair.Auth.Rows.{find_where}
use easyrepair.Auth.Otp.Coherence.{same_purpose_eq, same_text_eq, IsCoherent}
use easyrepair.Auth.Phone.{same_text, Text}
use easyrepair.Prelude.{
  ℕ, ◌+◌, ◌≡◌, refl, sym, ap, inl, inr, true, false, not, ◌&&◌, Option, none, some, arith, ltb, leb,
  if◌then◌else◌, Option-cases,
}
use easyrepair.Steps.{Answer, done, failed}
use easyrepair.Auth.State.{
  otp_invalid, otp_attempts_exceeded, same_purpose, otp_expired, AuthError, AuthDb, AuthOtpPurpose,
  Bcrypt, AuthOtp,
}

pub record Code : Type 0 where
  pub hash : ℕ
  pub expires_at : ℕ
  pub attempts : ℕ

abbrev pub view : Option AuthOtp → Option Code
view none = none
view (some o) =
    some (record { hash = o.otp_hash; expires_at = o.expires_at; attempts = o.attempts })

-- What is stored for a phone and purpose.
abbrev pub code_of : Text → AuthOtpPurpose → AuthDb → Option Code
code_of phone purpose db = view (find_where (is_open_for phone purpose) db.auth_otps)

-- A check of one code: the answer, and what is left of it.
abbrev pub spec_check :
    Bcrypt → (now guess : ℕ) → Option Code → Answer AuthError (Unit {0}) × Option Code
spec_check b now guess none = (failed otp_expired, none)
spec_check b now guess (some c) =
    if not (ltb now c.expires_at)
    then (failed otp_expired, some c)
    else if leb 5 c.attempts
    then (failed otp_attempts_exceeded, none)
    else if b.compare guess c.hash
    then (done tt, none)
    else (failed otp_invalid, some (record c { attempts = c.attempts + 1 }))

-- Another phone or another purpose.
abbrev pub IsOther : (phone phone' : Text) (purpose purpose' : AuthOtpPurpose) → Type 0
IsOther phone phone' purpose purpose' =
    same_text phone phone' && same_purpose purpose purpose' ≡ false

module _ (b : Bcrypt) (now guess : ℕ) (phone : Text) (purpose : AuthOtpPurpose) (db : AuthDb)
    (h : IsCoherent db) where
  abbrev open_code : Option AuthOtp
  open_code = find_where (is_open_for phone purpose) db.auth_otps

  -- The open code that was found, and a write to it.
  found_open :
      (o : AuthOtp)
      → find_active_auth_otp now phone purpose db ≡ some o
      → (open_code ≡ some o) × (ltb now o.expires_at ≡ true) × (is_open_for phone purpose o ≡ true)
  unfolding find_active_auth_otp
  found_open o found = ground (
    arith,
    find_where-only (is_open_for phone purpose) (λ r. ltb now r.expires_at) db.auth_otps o
        (h.one_open phone purpose) found,
    find_where-some (λ r. is_open_for phone purpose r && ltb now r.expires_at) db.next_otp
        db.auth_otps o h.numbered found,
  )

  after_write :
      (f : AuthOtp → AuthOtp) (o : AuthOtp)
      → open_code ≡ some o
      → code_of phone purpose (update_auth_otp o.id f db)
        ≡ view (if is_open_for phone purpose (f o) then some (f o) else none)
  unfolding update_auth_otp
  after_write f o found = ap view (
      find_where-update (is_open_for phone purpose) db.next_otp f db.auth_otps o h.numbered
        (h.one_open phone purpose) found)

  not_found :
      find_active_auth_otp now phone purpose db ≡ none
      → spec_check b now guess (code_of phone purpose db)
        ≡ (failed otp_expired, code_of phone purpose db)
  unfolding find_active_auth_otp
  not_found missing = go open_code refl
    where
      go :
          (r : Option AuthOtp)
          → open_code ≡ r
          → spec_check b now guess (view r) ≡ (failed otp_expired, view r)
      go none same = refl
      go (some o) same = ground (
        arith,
        find_where-unfit (is_open_for phone purpose) (λ r. ltb now r.expires_at) db.auth_otps o
            missing same,
      )

  check_refines :
      (o : AuthOtp)
      → open_code ≡ some o
      → ltb now o.expires_at ≡ true
      → is_open_for phone purpose o ≡ true
      → ((check_code b now guess o db).0, code_of phone purpose (check_code b now guess o db).1)
        ≡ spec_check b now guess (view (some o))
  unfolding check_code
  check_refines o found live is_open =
      ground (arith, after_write (consume now) o found, after_write count_attempt o found)

  pub verify_answers :
      (
        (verify_auth_otp b now phone purpose guess db).0,
        code_of phone purpose (verify_auth_otp b now phone purpose guess db).1,
      )
      ≡ spec_check b now guess (code_of phone purpose db)
  unfolding verify_auth_otp
  verify_answers = elim (Option-cases (find_active_auth_otp now phone purpose db)) [
    | inl missing ↦ rw missing (sym (not_found missing))
    | inr (o, found) ↦
        let (is_found, live, is_open) = found_open o found in
        rw (found, is_found) (check_refines o is_found live is_open)
  ]

  other_write :
      (phone' : Text) (purpose' : AuthOtpPurpose) (f : AuthOtp → AuthOtp) (o : AuthOtp)
      → open_code ≡ some o
      → is_open_for phone' purpose' o ≡ false
      → is_open_for phone' purpose' (f o) ≡ false
      → code_of phone' purpose' (update_auth_otp o.id f db) ≡ code_of phone' purpose' db
  unfolding update_auth_otp
  other_write phone' purpose' f o found before after = ap view (
      find_where-other (is_open_for phone purpose) (is_open_for phone' purpose') db.next_otp f
        db.auth_otps o h.numbered found before after)

  not_its_own :
      (phone' : Text) (purpose' : AuthOtpPurpose) (o : AuthOtp)
      → IsOther phone phone' purpose purpose'
      → is_open_for phone purpose o ≡ true
      → is_for phone' purpose' o ≡ false
  not_its_own phone' purpose' o other is_open =
      go o.phone o.purpose (same_text_eq o.phone phone (ground arith))
        (same_purpose_eq o.purpose purpose (ground arith))
    where
      go :
          (t : Text) (q : AuthOtpPurpose)
          → t ≡ phone
          → q ≡ purpose
          → same_text t phone' && same_purpose q purpose' ≡ false
      go t q same_phone same = rw (same_phone, same) other

  verify_leaves_others :
      (phone' : Text) (purpose' : AuthOtpPurpose)
      → IsOther phone phone' purpose purpose'
      → code_of phone' purpose' (verify_auth_otp b now phone purpose guess db).1
        ≡ code_of phone' purpose' db
  unfolding verify_auth_otp check_code
  verify_leaves_others phone' purpose' other =
      elim (Option-cases (find_active_auth_otp now phone purpose db)) [
        | inl missing ↦ rw missing refl
        | inr (o, found) ↦
            let (is_found, live, is_open) = found_open o found in
            rw found (
              ground (
                arith,
                not_its_own phone' purpose' o other is_open,
                other_write phone' purpose' (consume now) o is_found,
                other_write phone' purpose' count_attempt o is_found,
              ))
      ]

  -- Where at most one code of each phone and purpose is open, a check of a code answers as the check of
  -- that one code does, and leaves what that leaves: an expired one as it is, none after five wrong
  -- guesses or after the right one, and one more attempt after a wrong one. The codes of other phones,
  -- and of other purposes of the same phone, are as before.
  pub verify_refines :
      (phone' : Text) (purpose' : AuthOtpPurpose)
      → IsOther phone phone' purpose purpose'
      → ((
        (verify_auth_otp b now phone purpose guess db).0,
        code_of phone purpose (verify_auth_otp b now phone purpose guess db).1,
      )
          ≡ spec_check b now guess (code_of phone purpose db))
        × (code_of phone' purpose' (verify_auth_otp b now phone purpose guess db).1
            ≡ code_of phone' purpose' db)
  verify_refines phone' purpose' other =
      (verify_answers, verify_leaves_others phone' purpose' other)
