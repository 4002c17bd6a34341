-- ===== src/Store.antt =====
-- The database and the calls that leave it: what the Prisma client and the injected services are to
-- the booking code. A request reads rows at one moment and writes in one transaction at a later
-- one, so an action takes two databases: the one that its reads see, and the one that its
-- transaction finds. Where nobody writes in between the two are the same.
mod Errors
mod Writes
pub mod Actions
pub mod Rules
pub use Errors.*
pub use Writes.*
