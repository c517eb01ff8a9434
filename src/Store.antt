-- ===== src/Store.antt =====
-- The operations of `AnarCoreStore` (legacy/predecessor/anar-core-master/anar_core/store.py), one
-- module to a group of methods, and what is proved of them.
pub mod Input
pub mod Challenge
pub mod Session
pub mod Cascade
pub mod Account
pub mod Mfa
pub mod Password
pub mod Email
pub mod Identity
pub mod Subject
pub mod Organization
pub mod Calls
pub mod Sound
pub mod Evolution
pub mod Replay
pub mod Gate
pub mod Ended
pub mod Stranded
