-- ===== src/Tests.antt =====
-- Concrete databases, and each theorem applied to them.
mod Sample
mod Hires
mod History
mod Offers
mod Decisions
mod Expiries
mod Money
mod Matching
mod Accounts
mod Sessions
mod Codes
mod Registrations
mod Payments
mod Intakes
