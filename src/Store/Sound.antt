-- ===== src/Store/Sound.antt =====
-- What a projected subject, a derived session and a handoff have passed, and what ends them.
pub mod Facts
pub mod Granted
pub mod Accepted
pub mod Told
pub mod Subject
pub mod Membership
pub mod Handoff
pub mod Consumed
pub mod Invitation
pub mod ReadyRow
pub mod Ready
pub mod Derived
pub mod LoginRow
pub mod Login
pub mod Issued
pub mod Current
pub mod Complete
pub mod SignupRow
pub mod Signup
