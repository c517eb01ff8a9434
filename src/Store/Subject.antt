-- ===== src/Store/Subject.antt =====
-- `project_authorized_subject`: what a session of an organization is authorized to.
pub mod Graph
pub mod Grants
pub mod Project
