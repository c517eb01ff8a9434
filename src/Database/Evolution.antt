-- ===== src/Database/Evolution.antt =====
-- How the whole database may change in any call: one-time tokens are consumed or revoked for good,
-- ended sessions stay ended, and the revision of a credential never falls.
pub mod Members
pub mod Moves
pub mod Steps
pub mod Tokens
pub mod Tables
pub mod Organization
pub mod Actions
