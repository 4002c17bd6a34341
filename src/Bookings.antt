-- ===== src/Bookings.antt =====
-- The booking module of the backend, backend/src/modules/bookings.
pub mod Transactions
pub mod Repair
pub mod Lookups
pub mod Hiring
pub mod Consistency
pub mod Staffing
pub mod Progress
pub mod Cancellation
pub mod Expiry
pub mod Races
pub mod History
