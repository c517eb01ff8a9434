-- ===== src/Store/Organization.antt =====
-- Organizations: creation, definitions, invitations, grants, derived sessions, memberships, consumer
-- handoffs and hydration.
pub mod Definitions
pub mod Invitation
pub mod Grant
pub mod Derive
pub mod Membership
pub mod Hydration
pub mod Handoff
