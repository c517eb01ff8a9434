-- ===== src/Store/Gate.antt =====
-- What stands behind a step-up receipt, which calls ask for one, and how often it is good.
pub mod Receipt
pub mod Password
pub mod Taken
pub mod Once
