-- ===== src/Auth/Otp/Guesses.antt =====
-- Guesses at one code, one after the other.
use easyrepair.Auth.Otp.{verify_auth_otp}
use easyrepair.Auth.Otp.Coherence.{verify-IsCoherent, IsCoherent}
use easyrepair.Auth.Phone.{Text}
use easyrepair.Auth.State.{AuthError, AuthDb, AuthOtpPurpose, Bcrypt}
use easyrepair.Auth.Otp.Refinement.{verify_answers, code_of, spec_check, Code}
use easyrepair.Prelude.{
  ℕ, zero, suc, ◌+◌, ◌-◌, ◌<◌, ◌≡◌, refl, sym, subst, inl, inr, Bool, true, false, not, ◌&&◌, ◌||◌,
  Option, none, some, List, [], ◌∷◌, arith, ltb, leb, if◌then◌else◌, Bool-cases,
}
use easyrepair.Steps.{Answer, done, failed}

abbrev pub is_done : {E A : Type 0} → Answer E A → Bool
is_done (done a) = true
is_done (failed e) = false

module _ (b : Bcrypt) (phone : Text) (purpose : AuthOtpPurpose) where
  -- Whether one of the guesses, each with its time, is accepted.
  unfoldable pub accepts : List (ℕ × ℕ) → AuthDb → Bool
  accepts [] db = false
  accepts ((now, guess) ∷ gs) db =
      is_done (verify_auth_otp b now phone purpose guess db).0
      || accepts gs (verify_auth_otp b now phone purpose guess db).1

-- Of the guesses that come before the code expires, the first `n` are wrong.
unfoldable pub first_wrong : Bcrypt → (expires_at n hash : ℕ) → List (ℕ × ℕ) → Bool
first_wrong b expires_at zero hash gs = true
first_wrong b expires_at (suc n) hash [] = true
first_wrong b expires_at (suc n) hash ((now, guess) ∷ gs) =
    let late = first_wrong b expires_at (suc n) hash gs in
    let rest = first_wrong b expires_at n hash gs in
    if ltb now expires_at then not (b.compare guess hash) && rest else late

-- The guesses that are left for a code.
abbrev pub guesses_left : Code → ℕ
guesses_left c = 5 - c.attempts

-- No guess is right among the first that count.
abbrev pub AllWrong : Bcrypt → Option Code → List (ℕ × ℕ) → Type 0
AllWrong b none gs = Unit
AllWrong b (some c) gs = first_wrong b c.expires_at (guesses_left c) c.hash gs ≡ true

module _ (b : Bcrypt) (now guess : ℕ) (gs : List (ℕ × ℕ)) (expires_at hash : ℕ) where
  live_wrong :
      (n : ℕ)
      → first_wrong b expires_at n hash ((now, guess) ∷ gs) ≡ true
      → ltb now expires_at ≡ true
      → 0 < n
      → (b.compare guess hash ≡ false) × (first_wrong b expires_at (n - 1) hash gs ≡ true)
  unfolding first_wrong
  live_wrong zero h live p = absurd (omega arith)
  live_wrong (suc n) h live p = ground arith

  late_wrong :
      (n : ℕ)
      → first_wrong b expires_at n hash ((now, guess) ∷ gs) ≡ true
      → ltb now expires_at ≡ false
      → first_wrong b expires_at n hash gs ≡ true
  unfolding first_wrong
  late_wrong zero h late = refl
  late_wrong (suc n) h late = ground arith

one_less :
    (c : Code)
    → leb 5 c.attempts ≡ false
    → (0 < guesses_left c) × (guesses_left c - 1 ≡ 5 - (c.attempts + 1))
one_less c left = ground arith

-- One check of an abstract code, where the guesses that count are wrong.
spec_step :
    (b : Bcrypt) (now guess : ℕ) (gs : List (ℕ × ℕ)) (c : Option Code)
    → AllWrong b c ((now, guess) ∷ gs)
    → (is_done (spec_check b now guess c).0 ≡ false) × AllWrong b (spec_check b now guess c).1 gs
spec_step b now guess gs none h = (refl, tt)
spec_step b now guess gs (some c) h = elim (Bool-cases (ltb now c.expires_at)) [
  | inl live ↦ elim (Bool-cases (leb 5 c.attempts)) [
    | inl used_up ↦ ground arith
    | inr left ↦ ground (
      arith,
      live_wrong b now guess gs c.expires_at c.hash (guesses_left c) h live,
      one_less c left,
    )
  ]
  | inr late ↦ ground (arith, late_wrong b now guess gs c.expires_at c.hash (guesses_left c) h late)
]

module _ (b : Bcrypt) (phone : Text) (purpose : AuthOtpPurpose) where
  one_guess :
      (now guess : ℕ) (gs : List (ℕ × ℕ)) (db : AuthDb)
      → IsCoherent db
      → AllWrong b (code_of phone purpose db) ((now, guess) ∷ gs)
      → (is_done (verify_auth_otp b now phone purpose guess db).0 ≡ false)
        × AllWrong b (code_of phone purpose (verify_auth_otp b now phone purpose guess db).1) gs
  one_guess now guess gs db h wrong =
      subst
        (λ (r : Answer AuthError (Unit {0}) × Option Code).
          (is_done r.0 ≡ false) × AllWrong b r.1 gs)
        (sym (verify_answers b now guess phone purpose db h))
        (spec_step b now guess gs (code_of phone purpose db) wrong)

  -- Where at most one code of each phone and purpose is open: however many guesses are made at a code,
  -- and whenever, if the first five of those that come before it expires are wrong (or the first that
  -- are left of five, where some are used up), none is accepted, and none is where no code is open.
  pub guess_limit :
      (gs : List (ℕ × ℕ)) (db : AuthDb)
      → IsCoherent db
      → AllWrong b (code_of phone purpose db) gs
      → accepts b phone purpose gs db ≡ false
  unfolding accepts
  guess_limit [] db h wrong = refl
  guess_limit ((now, guess) ∷ gs) db h wrong =
      let (refused, later) = one_guess now guess gs db h wrong in
      rw refused (
        guess_limit gs (verify_auth_otp b now phone purpose guess db).1
          (verify-IsCoherent b now guess purpose phone db h) later)
