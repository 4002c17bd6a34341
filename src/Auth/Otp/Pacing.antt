-- ===== src/Auth/Otp/Pacing.antt =====
-- How often codes are sent to one phone.
use easyrepair.Auth.Otp.Coherence.{IsCoherent, consumed_none}
use easyrepair.Auth.Otp.Codes.{find_where-count, update_where-IsNumbered, IsNumbered}
use easyrepair.Auth.Otp.Refinement.{view, code_of}
use easyrepair.Auth.Phone.{Text, same_text}
use easyrepair.Auth.Otp.{
  most_recent_auth_otp, send_otp, check_cooldown, update_auth_otp, request_otp_for, consume,
  delete_auth_otp, is_open_for, otp_rate_window_ms, in_window, count_recent_auth_otp_by_phone,
  is_for, invalidate_previous_auth_otps, create_auth_otp,
}
use easyrepair.Auth.Rows.{delete_where, find_where, update_where, count_where}
use easyrepair.Prelude.{
  ℕ, ◌+◌, ◌≤◌, ◌<◌, ◌≡◌, refl, ap, ◌∙◌, inl, inr, Bool, true, false, ◌&&◌, Option, none, some, List,
  [], ◌∷◌, arith, ◌==◌, Option-cases,
}
use easyrepair.Steps.{Answer, done, failed}
use easyrepair.Auth.State.{
  AuthError, AuthDb, same_purpose, AuthOtpPurpose, AuthConfig, Bcrypt, AuthOtp,
}

-- The newest of the codes is at least a minute older than `now`, or there is none.
abbrev pub IsOld : (now : ℕ) → Option AuthOtp → Type 0
IsOld now none = Unit
IsOld now (some o) = o.created_at + 60000 ≤ now

-- A code that is sent, and the state after it.
pub record IsSent (b : Bcrypt) (now code salt : ℕ) (phone : Text) (purpose : AuthOtpPurpose)
    (db : AuthDb) (expires_at : ℕ) (db' : AuthDb) : Type 0 where
  pub lifetime : expires_at ≡ now + 300000
  pub stored :
      code_of phone purpose db'
      ≡ some (record { hash = b.hash salt code; expires_at = now + 300000; attempts = 0 })
  pub minute : IsOld now (find_where (is_for phone purpose) db.auth_otps)
  pub few : count_recent_auth_otp_by_phone now phone purpose db' ≤ 5

-- A code that the provider did not take is not stored, and does not count against the phone.
abbrev pub Undelivered : (configured : Bool) → ℕ → Text → AuthOtpPurpose → AuthDb → AuthDb → Type 0
Undelivered false now phone purpose db db' = Unit
Undelivered true now phone purpose db db' =
    (code_of phone purpose db' ≡ none)
    × (count_recent_auth_otp_by_phone now phone purpose db'
        ≡ count_recent_auth_otp_by_phone now phone purpose db)

abbrev pub RequestOutcome :
    AuthConfig
    → Bcrypt
    → (now code salt : ℕ) → Text
    → AuthOtpPurpose
    → AuthDb
    → Answer AuthError ℕ × AuthDb
    → Type 0
RequestOutcome config b now code salt phone purpose db (failed AuthError.sms_send_failed, db') =
    Undelivered config.sms_configured now phone purpose db db'
RequestOutcome config b now code salt phone purpose db (failed e, db') = db' ≡ db
RequestOutcome config b now code salt phone purpose db (done expires_at, db') =
    IsSent b now code salt phone purpose db expires_at db'

pub same_text_refl : (a : Text) → same_text a a ≡ true
unfolding same_text
same_text_refl [] = refl
same_text_refl (a ∷ as') = ground (arith, same_text_refl as')

same_purpose_refl : (p : AuthOtpPurpose) → same_purpose p p ≡ true
same_purpose_refl p = ground arith

-- Consuming codes does not change how many there are.
count_where-consume :
    (q p : AuthOtp → Bool) (f : AuthOtp → AuthOtp) (os : List AuthOtp)
    → ((o : AuthOtp) → q (f o) ≡ q o)
    → count_where q (update_where p f os) ≡ count_where q os
unfolding count_where update_where
count_where-consume q p f [] same = refl
count_where-consume q p f (o ∷ os) same = ground (arith, same o, count_where-consume q p f os same)

module _ (config : AuthConfig) (b : Bcrypt) (now code salt : ℕ) (phone : Text)
    (purpose : AuthOtpPurpose) where
  -- The database with the new code.
  abbrev with_code : Option ℕ → AuthDb → AuthDb
  with_code ip db =
      create_auth_otp now (b.hash salt code) ip phone purpose
        (invalidate_previous_auth_otps now phone purpose db)

  with_code_stored :
      (ip : Option ℕ) (db : AuthDb)
      → code_of phone purpose (with_code ip db)
        ≡ some (record { hash = b.hash salt code; expires_at = now + 300000; attempts = 0 })
  unfolding create_auth_otp find_where
  with_code_stored ip db = rw (same_text_refl phone, same_purpose_refl purpose) refl

  with_code_count :
      (ip : Option ℕ) (db : AuthDb)
      → count_recent_auth_otp_by_phone now phone purpose (with_code ip db)
        ≤ 1 + count_recent_auth_otp_by_phone now phone purpose db
  unfolding create_auth_otp invalidate_previous_auth_otps count_recent_auth_otp_by_phone count_where
  with_code_count ip db = ground (
    arith,
    count_where-consume
        (λ (o : AuthOtp). is_for phone purpose o && in_window now otp_rate_window_ms o.created_at)
        (is_open_for phone purpose) (consume now) db.auth_otps (λ o. refl),
  )

  -- Marking a code as dispatched is not seen.
  dispatched_view :
      (p : AuthOtp → Bool) (os : List AuthOtp)
      → view (
          find_where
            (is_open_for phone purpose)
            (update_where p (λ o. record o { sms_dispatched = true }) os))
        ≡ view (find_where (is_open_for phone purpose) os)
  unfolding find_where update_where
  dispatched_view p [] = refl
  dispatched_view p (o ∷ os) = ground (arith, dispatched_view p os)

  delete_where-absent :
      (n id : ℕ) (os : List AuthOtp)
      → IsNumbered n os
      → n ≤ id
      → delete_where (λ (o : AuthOtp). o.id == id) os ≡ os
  unfolding delete_where
  delete_where-absent n id [] h l = refl
  delete_where-absent n id (o ∷ os) h l = ground (arith, delete_where-absent o.id id os h.1)

  -- Taking the new code back leaves the older ones, consumed.
  taken_back :
      (ip : Option ℕ) (db : AuthDb)
      → IsNumbered db.next_otp db.auth_otps
      → delete_auth_otp db.next_otp (with_code ip db)
        ≡ record (invalidate_previous_auth_otps now phone purpose db) { next_otp = db.next_otp + 1 }
  unfolding delete_auth_otp create_auth_otp invalidate_previous_auth_otps delete_where
  taken_back ip db h = ground (
    arith,
    delete_where-absent db.next_otp db.next_otp
        (update_where (is_open_for phone purpose) (consume now) db.auth_otps)
        (update_where-IsNumbered db.next_otp (is_open_for phone purpose) (consume now) db.auth_otps
          (λ o. refl) h),
  )

  dispatched_count :
      (id : ℕ) (db : AuthDb)
      → count_recent_auth_otp_by_phone now phone purpose
          (update_auth_otp id (λ o. record o { sms_dispatched = true }) db)
        ≡ count_recent_auth_otp_by_phone now phone purpose db
  unfolding update_auth_otp count_recent_auth_otp_by_phone
  dispatched_count id db =
      count_where-consume
        (λ (o : AuthOtp). is_for phone purpose o && in_window now otp_rate_window_ms o.created_at)
        (λ (o : AuthOtp). o.id == id) (λ o. record o { sms_dispatched = true }) db.auth_otps
        (λ o. refl)

  dispatched-IsSent :
      (ip : Option ℕ) (db : AuthDb)
      → count_recent_auth_otp_by_phone now phone purpose db < 5
      → IsOld now (find_where (is_for phone purpose) db.auth_otps)
      → IsSent b now code salt phone purpose db
          (now + 300000)
          (update_auth_otp db.next_otp (λ o. record o { sms_dispatched = true }) (with_code ip db))
  unfolding update_auth_otp
  dispatched-IsSent ip db few old = record {
    lifetime = refl;
    stored =
        dispatched_view (λ o. o.id == db.next_otp) (with_code ip db).auth_otps
        ∙ with_code_stored ip db;
    minute = old;
    few = omega (arith, dispatched_count db.next_otp (with_code ip db), with_code_count ip db);
  }

  logged-IsSent :
      (ip : Option ℕ) (db : AuthDb)
      → count_recent_auth_otp_by_phone now phone purpose db < 5
      → IsOld now (find_where (is_for phone purpose) db.auth_otps)
      → IsSent b now code salt phone purpose db (now + 300000) (with_code ip db)
  logged-IsSent ip db few old = record {
    lifetime = refl;
    stored = with_code_stored ip db;
    minute = old;
    few = omega (arith, with_code_count ip db);
  }

  taken_back-Undelivered :
      (ip : Option ℕ) (db : AuthDb)
      → IsNumbered db.next_otp db.auth_otps
      → Undelivered true now phone purpose db (delete_auth_otp db.next_otp (with_code ip db))
  unfolding invalidate_previous_auth_otps count_recent_auth_otp_by_phone
  taken_back-Undelivered ip db h = rw (taken_back ip db h) (
    ap view (
        find_where-count (is_open_for phone purpose)
          (update_where (is_open_for phone purpose) (consume now) db.auth_otps)
          (consumed_none now phone purpose db.auth_otps)),
    count_where-consume
        (λ (o : AuthOtp). is_for phone purpose o && in_window now otp_rate_window_ms o.created_at)
        (is_open_for phone purpose) (consume now) db.auth_otps (λ o. refl),
  )

  -- Where the codes are numbered by their age and at most one of each phone and purpose is open, a
  -- request for a code, of a normalized phone, ends in one of these ways. It is rejected and writes
  -- nothing. Or it stores a code for five minutes, with no attempts made at it, as the one open code of
  -- this phone and purpose, where the code before it is at least a minute old and with it there are at
  -- most five of the last half hour. Or the provider does not take the SMS, and then no code is open
  -- and no more codes count against the phone than before. Or no provider is configured in production,
  -- and it fails; of what is stored then nothing is said.
  pub request_outcome :
      (sent : Bool) (ip : Option ℕ) (db : AuthDb)
      → IsCoherent db
      → RequestOutcome config b now code salt phone purpose db
          (request_otp_for config b now code salt sent ip phone purpose db)
  unfolding request_otp_for check_cooldown send_otp most_recent_auth_otp
  request_outcome sent ip db h =
      elim (Option-cases (find_where (is_for phone purpose) db.auth_otps)) [
        | inl missing ↦ ground (
          arith,
          dispatched-IsSent ip db,
          logged-IsSent ip db,
          taken_back-Undelivered ip db h.numbered,
        )
        | inr (o, found) ↦ ground (
          arith,
          dispatched-IsSent ip db,
          logged-IsSent ip db,
          taken_back-Undelivered ip db h.numbered,
        )
      ]
