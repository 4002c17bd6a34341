-- ===== src/Auth/Otp.antt =====
-- One-time codes in backend/src/modules/auth/auth.service.ts (`requestOtp`, `_verifyAuthOtp`), with
-- their reads and writes in auth.repository.ts. `now` is the one clock reading of a request; `code` and
-- `salt` are what it draws; `sent` is the answer of the SMS provider. The copy of the code that is
-- encrypted for the admin pages is left out: verification never reads it.
pub mod Codes
pub mod Coherence
pub mod Refinement
pub mod Guesses
pub mod Pacing
use easyrepair.Auth.Rows.{delete_where, update_where, count_where, find_where}
use easyrepair.Prelude.{
  ℕ, zero, suc, ℤ, ◌+◌, ◌-◌, ◌*◌, ◌/◌, ◌%◌, ◌≤◌, ◌<◌, min, max, ◌≡◌, ◌≢◌, ◌↔◌, ◌⊎◌, refl, sym,
  subst, ap, ◌∙◌, inl, inr, Bool, true, false, not, ◌&&◌, ◌||◌, Option, none, some, List, [], ◌∷◌,
  ◌++◌, map, arith, ltb, leb, ◌==◌, if◌then◌else◌, Bool-cases, Option-cases, is_some, or_else,
  or_other, holds_id, Table, put, revise, update_many, find_first, find_first-some, find_first-none,
  put_rule, is_row,
}
use easyrepair.Steps.{pure, raise, reads, require, reject_if, modify, ◌>>=◌, ◌>>◌}
use easyrepair.Auth.Phone.{Text, same_text, normalize_pakistani_phone, is_support_phone}
use easyrepair.Auth.State.{
  otp_invalid, otp_expired, sms_send_failed, invalid_phone, otp_resend_too_soon, support_account,
  otp_rate_limited, otp_attempts_exceeded, Auth, same_purpose, AuthOtpPurpose, AuthConfig, AuthDb,
  Bcrypt, AuthOtp,
}

-- OTP_EXPIRY_MS, OTP_RESEND_COOLDOWN_MS, OTP_MAX_ATTEMPTS, OTP_MAX_PER_PHONE_PER_WINDOW,
-- OTP_MAX_PER_IP_PER_WINDOW, OTP_RATE_WINDOW_MS
abbrev pub otp_expiry_ms : ℕ
otp_expiry_ms = 5 * 60 * 1000

abbrev pub otp_resend_cooldown_ms : ℕ
otp_resend_cooldown_ms = 60 * 1000

abbrev pub otp_max_attempts : ℕ
otp_max_attempts = 5

abbrev pub otp_max_per_phone_per_window : ℕ
otp_max_per_phone_per_window = 5

abbrev pub otp_max_per_ip_per_window : ℕ
otp_max_per_ip_per_window = 60

abbrev pub otp_rate_window_ms : ℕ
otp_rate_window_ms = 30 * 60 * 1000

-- `where: { phone, purpose }`
abbrev pub is_for : Text → AuthOtpPurpose → AuthOtp → Bool
is_for phone purpose o = same_text o.phone phone && same_purpose o.purpose purpose

-- `consumedAt: null` as well
abbrev pub is_open_for : Text → AuthOtpPurpose → AuthOtp → Bool
is_open_for phone purpose o = is_for phone purpose o && not (is_some o.consumed_at)

abbrev pub consume : ℕ → AuthOtp → AuthOtp
consume now o = record o { consumed_at = some now }

abbrev pub count_attempt : AuthOtp → AuthOtp
count_attempt o = record o { attempts = o.attempts + 1 }

-- `findActiveAuthOtp`
unfoldable pub find_active_auth_otp : ℕ → Text → AuthOtpPurpose → AuthDb → Option AuthOtp
unfolding find_where
find_active_auth_otp now phone purpose db =
    find_where (λ o. is_open_for phone purpose o && ltb now o.expires_at) db.auth_otps

-- `mostRecentAuthOtp`
unfoldable pub most_recent_auth_otp : Text → AuthOtpPurpose → AuthDb → Option AuthOtp
unfolding find_where
most_recent_auth_otp phone purpose db = find_where (is_for phone purpose) db.auth_otps

-- `createdAt: { gte: since }`, where `since` is the window's length before now.
abbrev pub in_window : (now window created_at : ℕ) → Bool
in_window now window created_at = leb now (created_at + window)

-- `countRecentAuthOtpByPhone`
unfoldable pub count_recent_auth_otp_by_phone : ℕ → Text → AuthOtpPurpose → AuthDb → ℕ
unfolding count_where
count_recent_auth_otp_by_phone now phone purpose db =
    count_where (λ o. is_for phone purpose o && in_window now otp_rate_window_ms o.created_at)
      db.auth_otps

-- `countRecentAuthOtpByIp`, or nothing where the address says nothing
unfoldable pub count_recent_auth_otp_by_ip : ℕ → Option ℕ → AuthDb → ℕ
unfolding count_where
count_recent_auth_otp_by_ip now none db = 0
count_recent_auth_otp_by_ip now (some ip) db =
    count_where (λ o. holds_id o.request_ip ip && in_window now otp_rate_window_ms o.created_at)
      db.auth_otps

-- `invalidatePreviousAuthOtps`
unfoldable pub invalidate_previous_auth_otps : ℕ → Text → AuthOtpPurpose → AuthDb → AuthDb
unfolding update_where
invalidate_previous_auth_otps now phone purpose db = record db {
  auth_otps = update_where (is_open_for phone purpose) (consume now) db.auth_otps;
}

-- `createAuthOtp`
unfoldable pub create_auth_otp : (now hash : ℕ) → Option ℕ → Text → AuthOtpPurpose → AuthDb → AuthDb
create_auth_otp now hash ip phone purpose db = record db {
  auth_otps =
      record {
        id = db.next_otp;
        phone = phone;
        purpose = purpose;
        otp_hash = hash;
        expires_at = now + otp_expiry_ms;
        consumed_at = none;
        attempts = 0;
        request_ip = ip;
        created_at = now;
        sms_dispatched = false;
      }
      ∷ db.auth_otps;
  next_otp = db.next_otp + 1;
}

-- The writes to one code: `consumeAuthOtp`, `incrementAuthOtpAttempts`, `markSmsDispatched`.
unfoldable pub update_auth_otp : ℕ → (AuthOtp → AuthOtp) → AuthDb → AuthDb
unfolding update_where
update_auth_otp id f db = record db {
  auth_otps = update_where (λ (o : AuthOtp). o.id == id) f db.auth_otps;
}

-- `deleteAuthOtp`
unfoldable pub delete_auth_otp : ℕ → AuthDb → AuthDb
unfolding delete_where
delete_auth_otp id db = record db {
  auth_otps = delete_where (λ (o : AuthOtp). o.id == id) db.auth_otps;
}

-- `_assertNotSupportAccount`
abbrev pub assert_not_support_account : AuthConfig → Text → Auth (Unit {0})
assert_not_support_account config phone =
    reject_if (is_support_phone phone config.support_phone) support_account

-- The number of seconds to wait, at least one: `Math.ceil((cooldown - elapsed) / 1000)`.
abbrev pub retry_after_seconds : (now created_at : ℕ) → ℕ
retry_after_seconds now created_at = (otp_resend_cooldown_ms - (now - created_at) + 999) / 1000

abbrev pub too_soon : (now cooldown : ℕ) → ℕ → Bool
too_soon now cooldown created_at = ltb (now - created_at) cooldown

unfoldable pub check_cooldown : ℕ → Option AuthOtp → Auth (Unit {0})
check_cooldown now none = pure tt
check_cooldown now (some o) =
    reject_if (too_soon now otp_resend_cooldown_ms o.created_at)
      (otp_resend_too_soon (retry_after_seconds now o.created_at))

-- What `requestOtp` does with the stored code: it is sent, or logged outside production.
unfoldable pub send_otp : AuthConfig → (sent : Bool) → (id expires_at : ℕ) → Auth ℕ
unfolding delete_auth_otp update_auth_otp
send_otp config sent id expires_at =
    if config.sms_configured
    then (if sent
        then (modify (update_auth_otp id (λ o. record o { sms_dispatched = true }))
            >> pure expires_at)
        else (modify (delete_auth_otp id) >> raise sms_send_failed))
    else if config.production
    then raise sms_send_failed
    else pure expires_at

-- `requestOtp`, from the check of the number on. It answers with the time at which the code expires.
unfoldable pub request_otp_for :
    AuthConfig
    → Bcrypt
    → (now code salt : ℕ) → (sent : Bool) → (ip : Option ℕ) → Text
    → AuthOtpPurpose
    → Auth ℕ
unfolding send_otp check_cooldown create_auth_otp invalidate_previous_auth_otps most_recent_auth_otp
    count_recent_auth_otp_by_phone count_recent_auth_otp_by_ip
request_otp_for config b now code salt sent ip phone purpose = do
  by_phone ← reads (count_recent_auth_otp_by_phone now phone purpose)
  by_ip ← reads (count_recent_auth_otp_by_ip now ip)
  reject_if (leb otp_max_per_phone_per_window by_phone || leb otp_max_per_ip_per_window by_ip)
      otp_rate_limited
  most_recent ← reads (most_recent_auth_otp phone purpose)
  check_cooldown now most_recent
  modify (invalidate_previous_auth_otps now phone purpose)
  id ← reads (λ (db : AuthDb). db.next_otp)
  modify (create_auth_otp now (b.hash salt code) ip phone purpose)
  send_otp config sent id (now + otp_expiry_ms)

-- `normalizePakistaniPhone(rawPhone)`, after the check for the support account
unfoldable pub read_phone : AuthConfig → Text → Auth Text
read_phone config raw_phone = do
  assert_not_support_account config raw_phone
  require (normalize_pakistani_phone raw_phone) invalid_phone

-- `requestOtp`
unfoldable pub request_otp :
    AuthConfig
    → Bcrypt
    → (now code salt : ℕ) → (sent : Bool) → (ip : Option ℕ) → Text
    → AuthOtpPurpose
    → Auth ℕ
unfolding request_otp_for read_phone
request_otp config b now code salt sent ip raw_phone purpose = do
  phone ← read_phone config raw_phone
  request_otp_for config b now code salt sent ip phone purpose

-- The rest of `_verifyAuthOtp`, for a code that was found.
unfoldable pub check_code : Bcrypt → (now code : ℕ) → AuthOtp → Auth (Unit {0})
unfolding update_auth_otp
check_code b now code o =
    if leb otp_max_attempts o.attempts
    then (modify (update_auth_otp o.id (consume now)) >> raise otp_attempts_exceeded)
    else if b.compare code o.otp_hash
    then modify (update_auth_otp o.id (consume now))
    else (modify (update_auth_otp o.id count_attempt) >> raise otp_invalid)

-- `_verifyAuthOtp`
unfoldable pub verify_auth_otp :
    Bcrypt → (now : ℕ) → Text → AuthOtpPurpose → (code : ℕ) → Auth (Unit {0})
unfolding check_code find_active_auth_otp
verify_auth_otp b now phone purpose code = do
  o ← require (← reads (find_active_auth_otp now phone purpose)) otp_expired
  check_code b now code o
