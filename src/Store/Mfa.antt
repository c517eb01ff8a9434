-- ===== src/Store/Mfa.antt =====
-- Multi-factor authentication: enrolment, attestations of the broker, recovery codes and step-up
-- receipts.
pub mod Purpose
pub mod Attestation
pub mod StepUp
pub mod Enrollment
pub mod Recovery
