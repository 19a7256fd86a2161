-- ===== src/Store.antt =====
-- The database that the API and the indexer share: its tables (`Store.Schema`), the Prisma client
-- as an interface (`Store.Prisma`), and the actions over it (`Store.Action`).
pub mod Rows
pub mod Schema
pub mod Prisma
pub mod Action
pub mod References
pub mod ListClient
pub mod Samples
