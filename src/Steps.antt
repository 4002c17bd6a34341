-- ===== src/Steps.antt =====
-- Requests as sequences of reads and writes on one state: a step answers, or fails, and what was
-- written before a failure stays written.
pub mod Keeps
pub mod Yields
pub mod Refuses
use easyrepair.Prelude.{◌≡◌, refl, Bool, true, false, Option, none, some}

pub data Answer (E A : Type 0) : Type 0 where
  done : A → Answer E A
  failed : E → Answer E A

abbrev pub Step : (S E A : Type 0) → Type 0
Step S E A = S → Answer E A × S

module _ {S E A : Type 0} where
  abbrev pub pure : A → Step S E A
  pure a s = (done a, s)

  abbrev pub raise : E → Step S E A
  raise e s = (failed e, s)

  abbrev pub reads : (S → A) → Step S E A
  reads f s = (done (f s), s)

  -- `if (!row) throw error`
  abbrev pub require : Option A → E → Step S E A
  require none e = raise e
  require (some a) e = pure a

infixl 5 ◌>>=◌ ◌>>◌
abbrev pub ◌>>=◌ : {S E A B : Type 0} → Step S E A → (A → Step S E B) → Step S E B
◌>>=◌ m k s = let (r, t) = m s in elim r [ done a ↦ k a t | failed e ↦ (failed e, t) ]

abbrev pub ◌>>◌ : {S E A B : Type 0} → Step S E A → Step S E B → Step S E B
m >> k = m >>= λ _. k

-- `if (test) throw error`
abbrev pub reject_if : {S E : Type 0} → Bool → E → Step S E (Unit {0})
reject_if true e = raise e
reject_if false e = pure tt

abbrev pub modify : {S E : Type 0} → (S → S) → Step S E (Unit {0})
modify f s = (done tt, f s)

-- `$transaction`: what fails in it leaves nothing written.
abbrev pub transact : {S E A : Type 0} → Step S E A → Step S E A
transact m s = let (r, t) = m s in elim r [ done a ↦ (done a, t) | failed e ↦ (failed e, s) ]

-- `try { m } catch (e) { handle }`
abbrev pub catch_with : {S E A : Type 0} → Step S E A → (E → Step S E A) → Step S E A
catch_with m handle s = let (r, t) = m s in elim r [ done a ↦ (done a, t) | failed e ↦ handle e t ]

module _ {S E A B : Type 0} (P : Answer E B × S → Type 0) (s : S) where
  -- What holds of every way in which a required row is used.
  pub require_rule :
      (o : Option A) (e : E) (k : A → Step S E B)
      → P (failed e, s)
      → ((a : A) → o ≡ some a → P (k a s))
      → P ((require o e >>= k) s)
  require_rule none e k bad good = bad
  require_rule (some a) e k bad good = good a refl
