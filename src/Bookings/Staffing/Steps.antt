-- ===== src/Bookings/Staffing/Steps.antt =====
-- The staffing under the parts that the requests share.
use easyrepair.Prelude.{ℕ, ◌≡◌, inl, inr, Bool, true, false, some, arith, Bool-cases, holds_id}
use Prim.Native.String.{String}
use easyrepair.Schema.{Booking, BookingStatus, WorkerProfile}
use easyrepair.Store.{ok, Db, Keeps, Transaction}
use easyrepair.Store.Actions.{
  Action, transact, pure, reload_booking, reload_booking-IsReading, ◌>>=◌,
}
use easyrepair.Store.Rules.{bind_rule, transact_rule, after_reading}
use easyrepair.Bookings.Lookups.{
  authorize_client, authorize_assigned_worker, authorize_client-IsReading,
  authorize_assigned_worker-IsReading, hire_price, hire_fee,
}
use easyrepair.Bookings.Hiring.{commit_hire}
use easyrepair.Bookings.Consistency.{IsConsistent}
use easyrepair.Bookings.Progress.{
  settle_advance, commit_advance, advance, notify_client, announce_completion,
}
use easyrepair.Bookings.Staffing.Hires.{assign-IsConsistent}

pub commit_hire-IsConsistent :
    (now user id worker : ℕ) (b : Booking) (w : WorkerProfile) (seen db : Db)
    → IsConsistent db
    → IsConsistent (commit_hire now user id worker b w seen db).1
unfolding commit_hire
commit_hire-IsConsistent now user id worker b w seen db c =
    ground (arith, assign-IsConsistent id worker (hire_price b) (hire_fee b) now db c)

settle_advance-IsConsistent :
    (already : BookingStatus → Bool) (announce : Booking → Action (Unit {0})) (changed : Bool)
    (b : Booking) (seen d : Db)
    → IsConsistent d
    → IsConsistent (announce b seen d).1
    → IsConsistent (settle_advance already announce changed b seen d).1
unfolding settle_advance
settle_advance-IsConsistent already announce true b seen d c quiet =
    bind_rule IsConsistent (announce b) (λ _. pure b) seen d quiet (λ u d' same kept. kept)
settle_advance-IsConsistent already announce false b seen d c quiet = ground arith

commit_advance-IsConsistent :
    (already : BookingStatus → Bool) (write : Transaction Bool)
    (announce : Booking → Action (Unit {0})) (id : ℕ) (seen db : Db)
    → IsConsistent db
    → Keeps IsConsistent db (write db)
    → ((b : Booking) (d : Db) → IsConsistent d → IsConsistent (announce b seen d).1)
    → IsConsistent (commit_advance already write announce id seen db).1
unfolding commit_advance
commit_advance-IsConsistent already write announce id seen db c kept quiet =
    bind_rule IsConsistent (transact write)
      (λ changed. reload_booking id >>= settle_advance already announce changed) seen db
      (transact_rule IsConsistent write seen db c kept)
      (λ changed d same c'.
        after_reading IsConsistent (reload_booking id) (settle_advance already announce changed)
          seen d (reload_booking-IsReading id) c'
          (λ b found.
            settle_advance-IsConsistent already announce changed b seen d c' (quiet b d c')))

pub advance-IsConsistent :
    (already expected : BookingStatus → Bool) (write : Transaction Bool)
    (announce : Booking → Action (Unit {0})) (id : ℕ) (b : Booking) (seen db : Db)
    → IsConsistent db
    → (expected b.status ≡ true → Keeps IsConsistent db (write db))
    → ((b : Booking) (d : Db) → IsConsistent d → IsConsistent (announce b seen d).1)
    → IsConsistent (advance already expected write announce id b seen db).1
unfolding advance
advance-IsConsistent already expected write announce id b seen db c kept quiet =
    elim (Bool-cases (already b.status)) [
      | inl there ↦ rw there c
      | inr before ↦ rw before (elim (Bool-cases (expected b.status)) [
        | inl fits ↦
            rw fits
              (commit_advance-IsConsistent already write announce id seen db c (kept fits) quiet)
        | inr other ↦ rw other c
      ])
    ]

pub notify_client-IsConsistent :
    (key : String) (id : ℕ) (b : Booking) (seen d : Db)
    → IsConsistent d
    → IsConsistent (notify_client key id b seen d).1
unfolding notify_client
notify_client-IsConsistent key id b seen d c = ground arith

pub announce_completion-IsConsistent :
    (id : ℕ) (kind key : String) (b : Booking) (seen d : Db)
    → IsConsistent d
    → IsConsistent (announce_completion id kind key b seen d).1
unfolding announce_completion
announce_completion-IsConsistent id kind key b seen d c = ground arith

-- The authorizations give the row that was read, and it is the caller's.
pub authorize_client-found :
    (user id : ℕ) (seen db : Db) (b : Booking)
    → (authorize_client user id seen db).0 ≡ ok b
    → seen.bookings id ≡ some b
unfolding authorize_client
authorize_client-found user id seen db b h = ground arith

pub authorize_assigned_worker-found :
    (user id : ℕ) (seen db : Db) (r : ℕ × Booking)
    → (authorize_assigned_worker user id seen db).0 ≡ ok r
    → (seen.bookings id ≡ some r.1) × (holds_id r.1.worker_profile_id r.0 ≡ true)
unfolding authorize_assigned_worker
authorize_assigned_worker-found user id seen db r h = ground arith

-- A client's request keeps what its rest keeps, given the row.
pub client_request :
    {A : Type 0} (k : Booking → Action A) (user id : ℕ) (db : Db)
    → IsConsistent db
    → ((b : Booking) → db.bookings id ≡ some b → IsConsistent (k b db db).1)
    → IsConsistent ((authorize_client user id >>= k) db db).1
client_request k user id db c rest =
    after_reading IsConsistent (authorize_client user id) k db db
      (authorize_client-IsReading user id) c
      (λ b found. rest b (authorize_client-found user id db db b found))

-- An assigned worker's, given the row with its worker.
pub worker_request :
    {A : Type 0} (k : ℕ × Booking → Action A) (user id : ℕ) (db : Db)
    → IsConsistent db
    → ((r : ℕ × Booking)
        → db.bookings id ≡ some r.1
        → holds_id r.1.worker_profile_id r.0 ≡ true
        → IsConsistent (k r db db).1)
    → IsConsistent ((authorize_assigned_worker user id >>= k) db db).1
worker_request k user id db c rest =
    after_reading IsConsistent (authorize_assigned_worker user id) k db db
      (authorize_assigned_worker-IsReading user id) c
      (λ r found.
        let both = authorize_assigned_worker-found user id db db r found in rest r both.0 both.1)
