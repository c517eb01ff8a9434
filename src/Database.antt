-- ===== src/Database.antt =====
-- The SQLite database of `AnarCoreStore` (legacy/predecessor/anar-core-master/anar_core/store.py):
-- its rows, its tables, the errors that the store raises, and the transactions of the connection.
pub mod Status
pub mod Definitions
pub mod Rows
pub mod Tx
pub mod Schema
pub mod Authority
pub mod Evolve
pub mod Evolution
pub mod Inversion
pub mod Ensures
