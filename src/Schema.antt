-- ===== src/Schema.antt =====
-- The database of `prisma/schema.prisma`: its enums, its rows and the state that the services share.
-- Columns that the database fills and that no service reads (`createdAt` and `updatedAt` of most
-- tables, `grantedAt`) are left out; a point in time is a number.
mod Enums
mod Rows
mod Tables
pub use Enums.*
pub use Rows.*
pub use Tables.*
