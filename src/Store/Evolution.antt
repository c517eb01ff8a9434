-- ===== src/Store/Evolution.antt =====
-- How each operation changes the rows, as a step of Database/Evolution.
pub mod Rows
pub mod Authority
pub mod Methods
pub mod Accounts
pub mod Calls
