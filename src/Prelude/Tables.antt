-- ===== src/Prelude/Tables.antt =====
-- A database table: rows by number. Prisma's calls that the program makes are the functions here:
-- a write of one row, a conditional write of many, and a search for the first row that fits.
use Prim.Native.Nat.{ℕ, zero, suc, ◌<◌, ◌≤◌, ◌+◌}
use mathlib.Core.Path.{◌≡◌, refl, subst}
use mathlib.Core.Bool.{Bool, true, false}
use mathlib.Core.Option.{Option, none, some}
use native.Mathlib.Omega.{arith}
use easyrepair.Prelude.Tests.{◌==◌, ==_iff, if◌then◌else◌, Bool-cases}
use mathlib.Core.Logic.{inl, inr}

abbrev pub Table : Type 0 → Type 0
Table A = ℕ → Option A

module _ {A : Type 0} where
  -- `create`, and `update({ where: { id } })` with the whole new row.
  abbrev pub put : ℕ → A → Table A → Table A
  put k a t i = if k == i then some a else t i

  -- Whether there is a row and it fits.
  abbrev pub is_row : (A → Bool) → Option A → Bool
  is_row p none = false
  is_row p (some a) = p a

  -- What `updateMany` does to one row.
  abbrev pub revise : (A → Bool) → (A → A) → Option A → Option A
  revise p f none = none
  revise p f (some a) = if p a then some (f a) else some a

  -- `updateMany({ where, data })`, where the count is not used.
  abbrev pub update_many : (ℕ → A → Bool) → (A → A) → Table A → Table A
  update_many p f t i = revise (p i) f (t i)

  -- The row at a number, if it fits.
  abbrev pub fitting : (ℕ → A → Bool) → ℕ → Option A → Option (ℕ × A)
  fitting p i none = none
  fitting p i (some a) = if p i a then some (i, a) else none

  abbrev pub first_of_two : Option (ℕ × A) → Option (ℕ × A) → Option (ℕ × A)
  first_of_two none later = later
  first_of_two (some r) _ = some r

  -- `findFirst({ where })` over the rows numbered below `n`, newest first.
  unfoldable pub find_first : (ℕ → A → Bool) → ℕ → Table A → Option (ℕ × A)
  find_first p zero t = none
  find_first p (suc n) t = first_of_two (fitting p n (t n)) (find_first p n t)

  -- What is found is a row of the table, and it fits.
  pub find_first-some :
      (p : ℕ → A → Bool) (n : ℕ) (t : Table A) {i : ℕ} {a : A}
      → find_first p n t ≡ some (i, a)
      → (t i ≡ some a) × (p i a ≡ true) × (i < n)
  unfolding find_first
  find_first-some p zero t h = ground arith
  find_first-some p (suc n) t {i} {a} h =
      ground (arith, λ (e : find_first p n t ≡ some (i, a)). find_first-some p n t e)

  -- A row that fits is not missed.
  pub find_first-none :
      (p : ℕ → A → Bool) (n : ℕ) (t : Table A) (i : ℕ) {a : A}
      → find_first p n t ≡ none
      → i < n
      → t i ≡ some a
      → p i a ≡ false
  unfolding find_first
  find_first-none p zero t i h l e = absurd (omega arith)
  find_first-none p (suc n) t i {a} h l e =
      ground (arith, λ (k : find_first p n t ≡ none) (m : i < n). find_first-none p n t i k m e)

  -- A search below a row that is written.
  pub find_first-put :
      (p : ℕ → A → Bool) (n k : ℕ) (a : A) (t : Table A)
      → n ≤ k
      → find_first p n (put k a t) ≡ find_first p n t
  unfolding find_first
  find_first-put p zero k a t l = refl
  find_first-put p (suc n) k a t l = ground (arith, find_first-put p n k a t)

  -- A search that reaches a row that is new and does not fit.
  pub find_first-new :
      (p : ℕ → A → Bool) (n : ℕ) (a : A) (t : Table A)
      → p n a ≡ false
      → find_first p (n + 1) (put n a t) ≡ find_first p n t
  unfolding find_first
  find_first-new p n a t h = ground (arith, find_first-put p n n a t)

  -- What holds at the row that was written and of the rows before holds of all rows after.
  pub put_rule :
      (P : ℕ → Option A → Type 0) (k : ℕ) (a : A) (t : Table A)
      → P k (some a)
      → ((i : ℕ) → P i (t i))
      → (i : ℕ) → P i (put k a t i)
  put_rule P k a t here there i = elim (Bool-cases (k == i)) [
    | inl same ↦ rw same (subst (λ j. P j (some a)) ((==_iff k i).0 same) here)
    | inr other ↦ rw other (there i)
  ]
