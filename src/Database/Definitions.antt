-- ===== src/Database/Definitions.antt =====
-- The rows of the tables behind an organization's authority: definitions, what is assigned and
-- granted to a membership, invitations and hydration references.
use anar_core.Base.{ℕ, ◌+◌, String}
use anar_core.Database.Status.{Status}

-- `role_metadata_authoritative` is 0 by its CHECK.
pub record RoleDefinition : Type 0 where
  pub role_definition_id : String
  pub version : ℕ
  pub symbolic_name : String
  pub status : Status
  pub grants_json : String
  pub prohibitions_json : String
  pub created_at : ℕ

pub record PolicyDefinition : Type 0 where
  pub policy_definition_id : String
  pub version : ℕ
  pub symbolic_name : String
  pub status : Status
  pub created_at : ℕ

pub record EntitlementDefinition : Type 0 where
  pub entitlement_definition_id : String
  pub version : ℕ
  pub symbolic_name : String
  pub status : Status
  pub created_at : ℕ

pub record RoleAssignment : Type 0 where
  pub role_assignment_id : String
  pub membership_id : String
  pub role_definition_id : String
  pub role_version : ℕ
  pub status : Status
  pub created_at : ℕ

pub record EntitlementGrant : Type 0 where
  pub entitlement_grant_id : String
  pub membership_id : String
  pub entitlement_definition_id : String
  pub entitlement_version : ℕ
  pub status : Status
  pub created_at : ℕ

pub record AdapterDefinition : Type 0 where
  pub adapter_definition_id : String
  pub symbolic_name : String
  pub status : Status
  pub created_at : ℕ

pub record OperationDefinition : Type 0 where
  pub operation_definition_id : String
  pub adapter_definition_id : String
  pub symbolic_name : String
  pub status : Status
  pub created_at : ℕ

-- adapter_grant_binding
pub record GrantBinding : Type 0 where
  pub binding_id : String
  pub membership_id : String
  pub adapter_definition_id : String
  pub operation_definition_id : String
  pub entitlement_definition_id : String
  pub entitlement_definition_version : ℕ
  pub resource_scope_json : String
  pub policy_definition_id : String
  pub policy_definition_version : ℕ
  pub policy_version : String
  pub status : Status
  pub created_at : ℕ

pub record Invitation : Type 0 where
  pub invitation_id : String
  pub code_sha256 : String
  pub organization_id : String
  pub tenant_id : String
  pub role_refs_json : String
  pub entitlement_refs_json : String
  pub expires_at : ℕ
  pub maximum_uses : ℕ
  pub consumed_uses : ℕ
  pub status : Status
  pub created_at : ℕ

-- hydration_reference
pub record HydrationEntry : Type 0 where
  pub hydration_reference_id : String
  pub organization_id : String
  pub kind : String
  pub target_ref : String
  pub version : String
  pub status : Status
  pub created_at : ℕ

-- `SET consumed_uses = consumed_uses + 1, status = 'consumed'`
abbrev pub spend : Invitation → Invitation
spend r = record r { consumed_uses = r.consumed_uses + 1; status = Status.consumed }
