-- ===== src/Examples.antt =====
-- A small concrete store: runs of its calls, and the theorems applied to them.
pub mod World
pub mod Runs
pub mod RotationRuns
pub mod Witnesses
pub mod Office
pub mod OfficeRuns
pub mod OfficeWitnesses
