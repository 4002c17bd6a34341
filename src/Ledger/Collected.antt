-- ===== src/Ledger/Collected.antt =====
-- Requests that never collect a commission twice.
use easyrepair.Ledger.Eligible.{find_eligible_settlements, group_by_worker}
use easyrepair.Ledger.Recording.{persist-Kept, ustaad-Kept, client-Kept}
use easyrepair.Ledger.Collecting.{update_collection, run_nightly}
use easyrepair.Ledger.Settling.Payments.{settle_by_admin}
use easyrepair.Ledger.Cases.{
  add_event, write_case, add_contact, add_note, UpdateSettlementCase, update_case,
}
use easyrepair.Ledger.Recording.Untouched.{same_rest, SameRest}
use easyrepair.Prelude.{ℕ, ◌≡◌, refl, sym, subst, inl, inr, Bool, false, not, ◌&&◌, [], Bool-cases}
use easyrepair.Steps.{modify}
use easyrepair.Steps.Keeps.{Keeps, modify-Keeps}
use easyrepair.Ledger.State.{
  is_pending_collection, is_failed, CommissionCollectionStatus, CaseEvent, SettlementCase, LedgerDb,
  LedgerError, Ledger,
}
use easyrepair.Ledger.Requests.{
  contact-Kept, note-Kept, update_case-Kept, serve, LedgerRequest, client_confirms, ustaad_reports,
  admin_settles, night_falls, collection_changes, case_changes, note_comes, contact_comes,
}
use easyrepair.Ledger.Balance.{IsBalanced}
use easyrepair.Ledger.Once.{
  update-IsCollectedOnce, nightly-IsCollectedOnce, IsCollectedOnce, IsCollectedOnceIn, is_revived,
}

-- A change of a collection that had failed or was cancelled.
abbrev pub revives : LedgerDb → LedgerRequest → Bool
revives db (collection_changes id _ _) = is_revived (db.collections id)
revives db _ = false

rest_same :
    {A : Type 0} (m : Ledger A) (db : LedgerDb)
    → Keeps (SameRest db) m
    → IsCollectedOnce db
    → IsCollectedOnce (m db).1
rest_same m db kept once = subst IsCollectedOnceIn (sym (kept.after db (refl, refl)).1) once

module _ (was : LedgerDb) where
  write_case-SameRest :
      (now id actor : ℕ) (dto : UpdateSettlementCase) (before : SettlementCase)
      → Keeps (SameRest was) (modify {E = LedgerError} (write_case now id actor dto before))
  unfolding write_case
  write_case-SameRest now id actor dto before = modify-Keeps (SameRest was) _ λ db h. h

  add_event-SameRest :
      (e : CaseEvent) → Keeps (SameRest was) (modify {E = LedgerError} (add_event e))
  add_event-SameRest e = modify-Keeps (SameRest was) _ λ db h. h

update_collection-IsCollectedOnce :
    (now id : ℕ) (status : CommissionCollectionStatus) (has_reason : Bool) (db : LedgerDb)
    → is_revived (db.collections id) ≡ false
    → IsCollectedOnce db
    → IsCollectedOnce (update_collection now id status has_reason db).1
unfolding update_collection
update_collection-IsCollectedOnce now id status has_reason db same once =
    elim (Bool-cases (is_failed status && not has_reason)) [
      | inl silent ↦ rw silent once
      | inr told ↦ rw told (elim (Bool-cases (is_pending_collection status)) [
        | inl back ↦ rw back once
        | inr onward ↦ rw onward (update-IsCollectedOnce now id status db same once)
      ])
    ]

-- A request that is served collects no commission twice, unless it changes the status of a
-- collection that had failed or was cancelled: no settlement has items in two collections that are
-- pending or collected, also when the request's candidates were read before another night's run.
pub serve-IsCollectedOnce :
    (now : ℕ) (r : LedgerRequest) (db : LedgerDb)
    → IsBalanced db
    → revives db r ≡ false
    → IsCollectedOnce db
    → IsCollectedOnce (serve now r db)
unfolding serve settle_by_admin run_nightly update_case add_note add_contact write_case
serve-IsCollectedOnce now (client_confirms seen seen_again booking received user) db h same once =
    rest_same _ db
      (client-Kept (SameRest db) (same_rest db) now seen seen_again booking received user) once
serve-IsCollectedOnce now (ustaad_reports seen seen_again booking received user) db h same once =
    rest_same _ db
      (ustaad-Kept (SameRest db) (same_rest db) now seen seen_again booking received user) once
serve-IsCollectedOnce now (admin_settles admin seen booking received source supersedes_id) db h same
      once =
    rest_same _ db
      (persist-Kept (SameRest db) (same_rest db) now admin seen booking received source
        supersedes_id)
      once
serve-IsCollectedOnce now (night_falls date actor seen) db h same once =
    nightly-IsCollectedOnce date actor (group_by_worker (find_eligible_settlements seen) []) db
      (h, once)
serve-IsCollectedOnce now (collection_changes id status has_reason) db h same once =
    update_collection-IsCollectedOnce now id status has_reason db same once
serve-IsCollectedOnce now (case_changes id actor dto) db h same once =
    rest_same _ db
      (update_case-Kept (SameRest db) (write_case-SameRest db) (add_event-SameRest db) now id actor
        dto)
      once
serve-IsCollectedOnce now (note_comes id actor blank) db h same once =
    rest_same _ db
      (note-Kept (SameRest db) (write_case-SameRest db) (add_event-SameRest db) id actor blank) once
serve-IsCollectedOnce now (contact_comes id actor) db h same once =
    rest_same _ db
      (contact-Kept (SameRest db) (write_case-SameRest db) (add_event-SameRest db) id actor) once
