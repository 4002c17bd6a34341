-- ===== src/Ledger/Requests.antt =====
-- The requests of the ledger, one after another, and its invariant after any of them. What a
-- request read before its transaction is part of the request, as another one may have been served
-- in between.
use easyrepair.Ledger.Nightly.{update_collection-Kept, run_nightly-Kept}
use easyrepair.Ledger.Collecting.{update_collection, run_nightly}
use easyrepair.Ledger.Balance.Writes.{balance_of_writes}
use easyrepair.Ledger.Recording.{persist-Kept, ustaad-Kept, client-Kept}
use easyrepair.Ledger.Settling.Payments.{
  report_ustaad_cash_payment, settle_by_admin, confirm_client_cash_payment,
}
use easyrepair.Prelude.{ℕ, Bool, Option, List, [], ◌∷◌}
use easyrepair.Steps.{modify}
use easyrepair.Steps.Keeps.{Keeps, keeping, modify-Keeps}
use easyrepair.Ledger.State.{
  SettlementCase, CaseEvent, LedgerDb, LedgerError, SettlementSource, CommissionCollectionStatus,
}
use easyrepair.Ledger.Cases.{
  add_event, write_case, UpdateSettlementCase, update_case, add_note, add_contact,
}
use easyrepair.Ledger.Balance.{IsBalanced}

pub data LedgerRequest : Type 0 where
  client_confirms :
      (seen seen_again : LedgerDb) → (booking received client_user : ℕ) → LedgerRequest
  ustaad_reports : (seen seen_again : LedgerDb) → (booking received worker_user : ℕ) → LedgerRequest
  admin_settles :
      (admin : ℕ)
      → (seen : LedgerDb) → (booking received : ℕ) → SettlementSource
      → (supersedes_id : Option ℕ) → LedgerRequest
  night_falls : (date : ℕ) → (actor : Option ℕ) → (seen : LedgerDb) → LedgerRequest
  collection_changes : (id : ℕ) → CommissionCollectionStatus → (has_reason : Bool) → LedgerRequest
  case_changes : (id actor : ℕ) → UpdateSettlementCase → LedgerRequest
  note_comes : (id actor : ℕ) → (blank : Bool) → LedgerRequest
  contact_comes : (id actor : ℕ) → LedgerRequest

-- The state after a request, answered or refused.
unfoldable pub serve : (now : ℕ) → LedgerRequest → LedgerDb → LedgerDb
unfolding confirm_client_cash_payment report_ustaad_cash_payment settle_by_admin run_nightly
    update_collection update_case add_note add_contact
serve now (client_confirms seen seen_again booking received user) db =
    (confirm_client_cash_payment now seen seen_again booking received user db).1
serve now (ustaad_reports seen seen_again booking received user) db =
    (report_ustaad_cash_payment now seen seen_again booking received user db).1
serve now (admin_settles admin seen booking received source supersedes_id) db =
    (settle_by_admin now admin seen booking received source supersedes_id db).1
serve now (night_falls date actor seen) db = (run_nightly date actor seen db).1
serve now (collection_changes id status has_reason) db =
    (update_collection now id status has_reason db).1
serve now (case_changes id actor dto) db = (update_case now id actor dto db).1
serve now (note_comes id actor blank) db = (add_note id actor blank db).1
serve now (contact_comes id actor) db = (add_contact id actor db).1

unfoldable pub serve_all : List (ℕ × LedgerRequest) → LedgerDb → LedgerDb
unfolding serve
serve_all [] db = db
serve_all ((now, request) ∷ requests) db = serve_all requests (serve now request db)

module _ (P : LedgerDb → Type 0)
    (cases : (now id actor : ℕ) (dto : UpdateSettlementCase) (before : SettlementCase)
      → Keeps P (modify {E = LedgerError} (write_case now id actor dto before)))
    (events : (e : CaseEvent) → Keeps P (modify {E = LedgerError} (add_event e))) where
  pub update_case-Kept :
      (now id actor : ℕ) (dto : UpdateSettlementCase) → Keeps P (update_case now id actor dto)
  unfolding update_case
  update_case-Kept now id actor dto = search (keeping, cases) depth 16

  pub note-Kept : (id actor : ℕ) (blank : Bool) → Keeps P (add_note id actor blank)
  unfolding add_note
  note-Kept id actor blank = search (keeping, events) depth 16

  pub contact-Kept : (id actor : ℕ) → Keeps P (add_contact id actor)
  unfolding add_contact
  contact-Kept id actor = search (keeping, events) depth 16

write_case-IsBalanced :
    (now id actor : ℕ) (dto : UpdateSettlementCase) (before : SettlementCase)
    → Keeps IsBalanced (modify {E = LedgerError} (write_case now id actor dto before))
unfolding write_case
write_case-IsBalanced now id actor dto before = modify-Keeps IsBalanced _ λ db h. h

add_event-IsBalanced : (e : CaseEvent) → Keeps IsBalanced (modify {E = LedgerError} (add_event e))
add_event-IsBalanced e = modify-Keeps IsBalanced _ λ db h. h

serve-IsBalanced :
    (now : ℕ) (r : LedgerRequest) (db : LedgerDb) → IsBalanced db → IsBalanced (serve now r db)
unfolding serve settle_by_admin
serve-IsBalanced now (client_confirms seen seen_again booking received user) =
    (client-Kept IsBalanced balance_of_writes now seen seen_again booking received user).after
serve-IsBalanced now (ustaad_reports seen seen_again booking received user) =
    (ustaad-Kept IsBalanced balance_of_writes now seen seen_again booking received user).after
serve-IsBalanced now (admin_settles admin seen booking received source supersedes_id) =
    (persist-Kept IsBalanced balance_of_writes now admin seen booking received source
      supersedes_id).after
serve-IsBalanced now (night_falls date actor seen) = (run_nightly-Kept date actor seen).after
serve-IsBalanced now (collection_changes id status has_reason) =
    (update_collection-Kept now id status has_reason).after
serve-IsBalanced now (case_changes id actor dto) =
    (update_case-Kept IsBalanced write_case-IsBalanced add_event-IsBalanced now id actor dto).after
serve-IsBalanced now (note_comes id actor blank) =
    (note-Kept IsBalanced write_case-IsBalanced add_event-IsBalanced id actor blank).after
serve-IsBalanced now (contact_comes id actor) =
    (contact-Kept IsBalanced write_case-IsBalanced add_event-IsBalanced id actor).after

-- Whatever requests of clients, workers, admins and the nightly schedule are served, and whatever
-- each of them had read before, the ledger stays balanced: a booking has one current settlement, a
-- collection's amount is the sum of its items, and each item of a collection stands for the whole
-- commission of a settlement of the worker that is still current.
pub serve_all-IsBalanced :
    (requests : List (ℕ × LedgerRequest)) (db : LedgerDb)
    → IsBalanced db
    → IsBalanced (serve_all requests db)
unfolding serve_all
serve_all-IsBalanced [] db h = h
serve_all-IsBalanced ((now, r) ∷ rs) db h =
    serve_all-IsBalanced rs (serve now r db) (serve-IsBalanced now r db h)
