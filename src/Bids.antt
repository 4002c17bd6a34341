-- ===== src/Bids.antt =====
-- Bidding: backend/src/modules/bids.
pub mod Transactions
pub mod Offers
pub mod Acceptance
