-- ===== src/Schema.antt =====
-- The database schema, backend/prisma/schema.prisma.
mod Enums
mod Rows
pub use Enums.*
pub use Rows.*
