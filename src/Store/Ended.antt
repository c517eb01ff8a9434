-- ===== src/Store/Ended.antt =====
-- The ends of account sessions: sign-out, and the revocation of an account's authority.
pub mod Loaded
pub mod Signout
pub mod Authority
pub mod Password
