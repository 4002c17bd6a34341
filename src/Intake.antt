-- ===== src/Intake.antt =====
-- How bookings come in and are edited: `createBooking` and `updateBooking` of
-- backend/src/modules/bookings/bookings.service.ts and bookings.repository.ts.
pub mod State
pub mod Selection
pub mod Creation
pub mod Editing
pub mod Forms
pub mod Posting
pub mod Edits
pub mod Visits
pub mod Nulls
pub mod Replays
