-- ===== src/Database.antt =====
-- The database of the procurement services (packages/db/prisma/schema.prisma): the enumerations, the
-- rows with the columns that the services read or write, and transactions.
mod Enums
mod Matches
mod Rows
mod Transaction
pub mod Samples
pub use Enums.*
pub use Matches.*
pub use Rows.*
pub use Transaction.*
