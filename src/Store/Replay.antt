-- ===== src/Store/Replay.antt =====
-- A token is good for one use, whatever happens after it.
pub mod Spent
pub mod Verification
pub mod Reset
pub mod EmailChange
