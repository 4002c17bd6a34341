-- ===== src/Store/Actions.antt =====
-- A request handler: it reads the database `seen`, throws or goes on, and its transactions run on
-- the database `db`. What a transaction wrote stays written when a later step throws.
use easyrepair.Prelude.{ℕ, ◌≡◌, refl, Bool, true, false, Option, none, some, arith}
use easyrepair.Schema.{Booking, WorkerProfile}
use easyrepair.Store.Errors.{Error, Result, ok, err, record_not_found}
use easyrepair.Store.Writes.{Db, Transaction, Effect, send}

abbrev pub Action : Type 0 → Type 0
Action A = (seen db : Db) → Result A × Db

module _ {A : Type 0} where
  abbrev pub pure : A → Action A
  pure a seen db = (ok a, db)

  abbrev pub raise : Error → Action A
  raise e seen db = (err e, db)

  abbrev pub reads : (Db → A) → Action A
  reads f seen db = (ok (f seen), db)

  -- `if (!row) throw error`
  abbrev pub require : Option A → Error → Action A
  require none e = raise e
  require (some a) e = pure a

  -- A repository call that runs one transaction.
  abbrev pub transact : Transaction A → Action A
  transact t seen db = elim (t db) [ ok r ↦ (ok r.0, r.1) | err e ↦ (err e, db) ]

  -- A read after the transaction.
  abbrev pub rereads : (Db → A) → Action A
  rereads f seen db = (ok (f db), db)

infixl 5 ◌>>=◌ ◌>>◌
abbrev pub ◌>>=◌ : {A B : Type 0} → Action A → (A → Action B) → Action B
◌>>=◌ m k seen db =
    let (r, db') = m seen db in elim r [ ok a ↦ k a seen db' | err e ↦ (err e, db') ]

abbrev pub ◌>>◌ : {A B : Type 0} → Action A → Action B → Action B
m >> k = m >>= λ _. k

-- `if (test) throw error`
abbrev pub reject_if : Bool → Error → Action (Unit {0})
reject_if true e = raise e
reject_if false e = pure tt

abbrev pub emit : Effect → Action (Unit {0})
emit e seen db = (ok tt, send e db)

-- An effect towards a party that may be missing.
abbrev pub emit_to : Option ℕ → (ℕ → Effect) → Action (Unit {0})
emit_to none f seen db = (ok tt, db)
emit_to (some u) f seen db = (ok tt, send (f u) db)

-- `findUniqueOrThrow` on a booking
abbrev pub reload_booking : ℕ → Action Booking
reload_booking id seen db = elim (db.bookings id) [
  | none ↦ (err record_not_found, db)
  | some b ↦ (ok b, db)
]

-- The worker's `user.id` of a booking, and the client's.
abbrev pub user_of_worker : Option WorkerProfile → Option ℕ
user_of_worker none = none
user_of_worker (some w) = some w.user_id

abbrev pub worker_user : Booking → Db → Option ℕ
worker_user b db = elim b.worker_profile_id [ none ↦ none | some w ↦ user_of_worker (db.workers w) ]

abbrev pub client_user : Booking → Db → Option ℕ
client_user b db = elim (db.clients b.client_profile_id) [ none ↦ none | some c ↦ some c.user_id ]

-- An action that writes nothing.
abbrev pub IsReading : {A : Type 0} → Action A → Type 0
IsReading m = (seen db : Db) → (m seen db).1 ≡ db

pub reload_booking-IsReading : (id : ℕ) → IsReading (reload_booking id)
reload_booking-IsReading id seen db = ground arith

-- What holds of every way in which a reading action and what follows it can end.
pub reading_rule :
    {A B : Type 0} (P : Result B × Db → Type 0) (m : Action A) (k : A → Action B) (seen db : Db)
    → IsReading m
    → ((e : Error) → P (err e, db))
    → ((a : A) → (m seen db).0 ≡ ok a → P (k a seen db))
    → P ((m >>= k) seen db)
reading_rule {A} {B} P m k seen db reads_only failed done = go (m seen db) (reads_only seen db) done
  where
    go :
        (r : Result A × Db)
        → r.1 ≡ db
        → ((a : A) → r.0 ≡ ok a → P (k a seen db))
        → P (elim r.0 [ ok a ↦ k a seen r.1 | err e ↦ (err e, r.1) ])
    go (ok a, db') same done' = rw same (done' a refl)
    go (err e, db') same done' = rw same (failed e)
