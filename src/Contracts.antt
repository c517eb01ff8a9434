-- ===== src/Contracts.antt =====
-- Typed identifiers, symbols, JSON values and the records of anar_core_contracts/__init__.py.
pub mod Json
pub mod Text
pub mod TypedId
pub mod TypedIdShape
pub mod Symbol
pub mod Check
pub mod Binding
pub mod Projection
