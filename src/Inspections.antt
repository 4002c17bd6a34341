-- ===== src/Inspections.antt =====
-- The client's decision on an inspection report: backend/src/modules/inspection-reports, with the
-- two methods of backend/src/modules/bookings/bookings.service.ts that it calls.
pub mod Transactions
pub mod Decisions
pub mod Switch
pub mod Stuck
