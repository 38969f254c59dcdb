-- ===== src/Schema.antt =====
-- The tables of the database (backend/prisma/schema.prisma).
mod Enums
mod Rows
pub use Enums.*
pub use Rows.*
