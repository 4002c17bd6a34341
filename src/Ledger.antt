-- ===== src/Ledger.antt =====
-- What clients paid and what workers owe: the settlements, their cases and the nightly collections
-- of backend/src/modules/admin/admin-operations.service.ts and admin-operations.repository.ts.
pub mod State
pub mod Writes
pub mod Settling
pub mod Eligible
pub mod Collecting
pub mod Cases
pub mod Balance
pub mod Nightly
pub mod Recording
pub mod Requests
pub mod Retries
pub mod Idempotence
pub mod Confirmations
pub mod Once
pub mod Collected
pub mod Grouping
pub mod Complete
pub mod Fractions
