-- ===== src/Store/Rules.antt =====
-- What requests keep, step by step.
use easyrepair.Prelude.{◌≡◌, refl, Bool, true, false, Option, none, some, arith, if◌then◌else◌}
use easyrepair.Store.Errors.{Error, Result, ok, err}
use easyrepair.Store.Writes.{Db, Transaction, Keeps}
use easyrepair.Store.Actions.{
  Action, IsReading, reading_rule, transact, reject_if, require, ◌>>=◌, ◌>>◌,
}

-- What an action and what follows it keep.
pub bind_rule :
    {A B : Type 0} (P : Db → Type 0) (m : Action A) (k : A → Action B) (seen db : Db)
    → P (m seen db).1
    → ((a : A) (d : Db) → m seen db ≡ (ok a, d) → P d → P (k a seen d).1)
    → P ((m >>= k) seen db).1
bind_rule {A} {B} P m k seen db kept next = go (m seen db) kept next
  where
    go :
        (r : Result A × Db)
        → P r.1
        → ((a : A) (d : Db) → r ≡ (ok a, d) → P d → P (k a seen d).1)
        → P ((elim r.0 as (λ _. Result B × Db) [ ok a ↦ k a seen r.1 | err e ↦ (err e, r.1) ]).1)
    go (ok a, d) kept' next' = next' a d refl kept'
    go (err e, d) kept' next' = kept'

pub transact_rule :
    {A : Type 0} (P : Db → Type 0) (t : Transaction A) (seen db : Db)
    → P db
    → Keeps P db (t db)
    → P (transact t seen db).1
transact_rule {A} P t seen db before = go (t db)
  where
    go :
        (r : Result (A × Db))
        → Keeps P db r
        → P ((elim r as (λ _. Result A × Db) [ ok r ↦ (ok r.0, r.1) | err e ↦ (err e, db) ]).1)
    go (ok r) kept = kept
    go (err e) kept = before

-- An action that reads, and then one that keeps.
pub after_reading :
    {A B : Type 0} (P : Db → Type 0) (m : Action A) (k : A → Action B) (seen db : Db)
    → IsReading m
    → P db
    → ((a : A) → (m seen db).0 ≡ ok a → P (k a seen db).1)
    → P ((m >>= k) seen db).1
after_reading P m k seen db reads_only before next =
    reading_rule (λ r. P r.1) m k seen db reads_only (λ e. before) next

module _ {A : Type 0} (P : Db → Type 0) (seen db : Db) where
  pub if_rule :
      (t : Bool) (x y : Action A)
      → (t ≡ true → P (x seen db).1)
      → (t ≡ false → P (y seen db).1)
      → P ((if t then x else y) seen db).1
  if_rule true x y here there = here refl
  if_rule false x y here there = there refl

  pub reject_rule :
      (t : Bool) (e : Error) (k : Action A)
      → P db
      → (t ≡ false → P (k seen db).1)
      → P ((reject_if t e >> k) seen db).1
  reject_rule true e k before next = before
  reject_rule false e k before next = next refl

  pub require_rule :
      {B : Type 0} (o : Option B) (e : Error) (k : B → Action A)
      → P db
      → ((b : B) → o ≡ some b → P (k b seen db).1)
      → P ((require o e >>= k) seen db).1
  require_rule none e k before next = before
  require_rule (some b) e k before next = next b refl

-- A reading action that succeeds hands on its value.
pub bind_read :
    {A B : Type 0} (m : Action A) (k : A → Action B) (seen db : Db) (a : A)
    → IsReading m
    → (m seen db).0 ≡ ok a
    → (m >>= k) seen db ≡ k a seen db
bind_read {A} {B} m k seen db a reads_only gives = go (m seen db) gives (reads_only seen db)
  where
    go :
        (r : Result A × Db)
        → r.0 ≡ ok a
        → r.1 ≡ db
        → (elim r.0 as (λ _. Result B × Db) [ ok a ↦ k a seen r.1 | err e ↦ (err e, r.1) ])
          ≡ k a seen db
    go (ok a', d) same kept = rw (ok_same same, kept) refl
      where
        ok_same : ok a' ≡ ok a → a' ≡ a
        ok_same e = cc
    go (err e, d) same kept = absurd (ground arith)
