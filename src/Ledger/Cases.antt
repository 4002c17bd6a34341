-- ===== src/Ledger/Cases.antt =====
-- The cases of short payments: `updateCase`, `addNote` and `addContact` of
-- backend/src/modules/admin/admin-operations.service.ts and admin-operations.repository.ts. The
-- rows of notes and contacts, which nothing reads, are left out, their events are not.
use easyrepair.Prelude.{
  ℕ, Bool, not, ◌||◌, Option, none, some, List, [], ◌∷◌, ◌++◌, if◌then◌else◌, is_some, holds_id,
  put,
}
use easyrepair.Steps.{pure, reads, require, reject_if, modify, ◌>>=◌, ◌>>◌}
use easyrepair.Ledger.State.{
  SettlementCasePriority, SettlementCase, SettlementCaseStatus, is_over, same_case_status,
  SettlementCaseEventType, CaseEvent, LedgerDb, Ledger, case_not_found, case_field_required,
  empty_note,
}
use easyrepair.Ledger.Writes.{case_event}

pub record UpdateSettlementCase : Type 0 where
  pub status : Option SettlementCaseStatus
  pub priority : Option SettlementCasePriority
  pub assigned_to_user_id : Option ℕ

abbrev pub set_status : (now : ℕ) → Option SettlementCaseStatus → SettlementCase → SettlementCase
set_status now none c = c
set_status now (some status) c = record c {
  status = status;
  resolved_at = if is_over status then some now else none;
}

abbrev pub set_priority : Option SettlementCasePriority → SettlementCase → SettlementCase
set_priority none c = c
set_priority (some p) c = record c { priority = p }

abbrev pub set_assigned : Option ℕ → SettlementCase → SettlementCase
set_assigned none c = c
set_assigned (some user) c = record c { assigned_to_user_id = some user }

abbrev pub event_of_change : (before after : SettlementCaseStatus) → SettlementCaseEventType
event_of_change before after =
    if is_over after
    then SettlementCaseEventType.case_resolved
    else if is_over before
    then SettlementCaseEventType.reopened
    else SettlementCaseEventType.status_changed

-- `if (dto.status && dto.status !== before.status)`
unfoldable pub status_event :
    (id actor : ℕ) → SettlementCaseStatus → Option SettlementCaseStatus → List CaseEvent
status_event id actor before none = []
status_event id actor before (some after) =
    if same_case_status before after
    then []
    else case_event (event_of_change before after) actor id ∷ []

-- `if (dto.assignedToUserId && dto.assignedToUserId !== before.assignedToUserId)`
unfoldable pub assignment_event : (id actor : ℕ) → (before : Option ℕ) → Option ℕ → List CaseEvent
assignment_event id actor before none = []
assignment_event id actor before (some user) =
    if holds_id before user then [] else case_event SettlementCaseEventType.assigned actor id ∷ []

abbrev pub changed_case : (now : ℕ) → UpdateSettlementCase → SettlementCase → SettlementCase
changed_case now dto c =
    set_assigned dto.assigned_to_user_id (set_priority dto.priority (set_status now dto.status c))

-- `updateCase` of the repository, on the row it read.
unfoldable pub write_case :
    (now id actor : ℕ) → UpdateSettlementCase → SettlementCase → LedgerDb → LedgerDb
unfolding status_event assignment_event
write_case now id actor dto before db = record db {
  cases = put id (changed_case now dto before) db.cases;
  events =
      assignment_event id actor before.assigned_to_user_id dto.assigned_to_user_id
      ++ (status_event id actor before.status dto.status ++ db.events);
}

-- `updateCase`
unfoldable pub update_case : (now id actor : ℕ) → UpdateSettlementCase → Ledger SettlementCase
unfolding write_case
update_case now id actor dto = do
  before ← require (← reads (λ (db : LedgerDb). db.cases id)) case_not_found
  reject_if (not (is_some dto.status || (is_some dto.priority || is_some dto.assigned_to_user_id)))
      case_field_required
  modify (write_case now id actor dto before)
  pure (changed_case now dto before)

abbrev pub add_event : CaseEvent → LedgerDb → LedgerDb
add_event e db = record db { events = e ∷ db.events }

-- `addNote`; `blank` is `!dto.body.trim()`.
unfoldable pub add_note : (id actor : ℕ) → (blank : Bool) → Ledger (Unit {0})
add_note id actor blank = do
  require (← reads (λ (db : LedgerDb). db.cases id)) case_not_found
  reject_if blank empty_note
  modify (add_event (case_event SettlementCaseEventType.note_added actor id))

-- `addContact`
unfoldable pub add_contact : (id actor : ℕ) → Ledger (Unit {0})
add_contact id actor = do
  require (← reads (λ (db : LedgerDb). db.cases id)) case_not_found
  modify (add_event (case_event SettlementCaseEventType.contact_attempted actor id))
