-- ===== src/Database/Authority.antt =====
-- The tables behind an organization's authority, as parts of the database, and the constraints that
-- an INSERT into them has to meet.
pub mod Tables
pub use Tables.*
use anar_core.Base.{ℕ, String, Bool, Option, none, some, ◌&&◌, ◌||◌, not, leb, nat_eq, ◌==◌, true}
use anar_core.Base.Table.{exists_where}
use anar_core.Database.Definitions.{
  RoleDefinition, PolicyDefinition, EntitlementDefinition, RoleAssignment, EntitlementGrant,
  AdapterDefinition, OperationDefinition, GrantBinding, Invitation, HydrationEntry,
}
use anar_core.Database.Rows.{
  Db, is_current, rivals, Session, Organization, Tenant, Membership, Challenge, Handoff,
}
use anar_core.Database.Schema.{has_identity, has_account, has_account_session}
use anar_core.Database.Tx.{Table}

-- REFERENCES organization(organization_id), …
abbrev pub has_organization : Db → String → Bool
has_organization db o = exists_where (λ r. r.organization_id == o) db.organizations

abbrev pub has_tenant : Db → String → Bool
has_tenant db t = exists_where (λ r. r.tenant_id == t) db.tenants

abbrev pub has_membership : Db → String → Bool
has_membership db m = exists_where (λ r. r.membership_id == m) db.memberships

abbrev pub has_session : Db → String → Bool
has_session db s = exists_where (λ r. r.session_id == s) db.sessions

abbrev pub has_adapter : Db → String → Bool
has_adapter db a = exists_where (λ r. r.adapter_definition_id == a) db.adapters

abbrev pub has_operation : Db → String → Bool
has_operation db o = exists_where (λ r. r.operation_definition_id == o) db.operations

-- The tests of a key of two columns.
abbrev pub is_role : String → ℕ → RoleDefinition → Bool
is_role id version r = r.role_definition_id == id && nat_eq r.version version

abbrev pub is_policy : String → ℕ → PolicyDefinition → Bool
is_policy id version r = r.policy_definition_id == id && nat_eq r.version version

abbrev pub is_entitlement : String → ℕ → EntitlementDefinition → Bool
is_entitlement id version r = r.entitlement_definition_id == id && nat_eq r.version version

unfoldable pub organization_allowed : Db → Organization → Bool
organization_allowed db row = not (has_organization db row.organization_id)

unfoldable pub tenant_allowed : Db → Tenant → Bool
tenant_allowed db row =
    not (
      exists_where (λ r. r.tenant_id == row.tenant_id || r.organization_id == row.organization_id)
        db.tenants)
    && has_organization db row.organization_id

-- The index one_current_membership_per_identity_organization concerns current rows only.
unfoldable pub membership_allowed : Db → Membership → Bool
membership_allowed db row =
    not (
      exists_where (λ r. r.membership_id == row.membership_id || is_current row && rivals row r)
        db.memberships)
    && has_identity db row.identity_id
    && has_organization db row.organization_id

unfoldable pub role_allowed : Db → RoleDefinition → Bool
role_allowed db row = not (exists_where (is_role row.role_definition_id row.version) db.roles)

unfoldable pub policy_allowed : Db → PolicyDefinition → Bool
policy_allowed db row =
    not (exists_where (is_policy row.policy_definition_id row.version) db.policies)
    && leb 1 row.version

unfoldable pub entitlement_allowed : Db → EntitlementDefinition → Bool
entitlement_allowed db row =
    not (exists_where (is_entitlement row.entitlement_definition_id row.version) db.entitlements)

unfoldable pub adapter_allowed : Db → AdapterDefinition → Bool
adapter_allowed db row = not (
    exists_where
      (λ r.
        r.adapter_definition_id == row.adapter_definition_id
        || r.symbolic_name == row.symbolic_name)
      db.adapters)

-- The key and the UNIQUE pair of an operation.
abbrev pub operation_known : Db → OperationDefinition → Bool
operation_known db row =
    exists_where
      (λ r.
        r.operation_definition_id == row.operation_definition_id
        || r.adapter_definition_id == row.adapter_definition_id
          && r.symbolic_name == row.symbolic_name)
      db.operations

unfoldable pub operation_allowed : Db → OperationDefinition → Bool
operation_allowed db row = not (operation_known db row) && has_adapter db row.adapter_definition_id

unfoldable pub assignment_allowed : Db → RoleAssignment → Bool
assignment_allowed db row =
    not (
      exists_where
        (λ r.
          r.role_assignment_id == row.role_assignment_id
          || r.membership_id == row.membership_id
            && r.role_definition_id == row.role_definition_id
            && nat_eq r.role_version row.role_version)
        db.role_assignments)
    && has_membership db row.membership_id
    && exists_where (is_role row.role_definition_id row.role_version) db.roles

unfoldable pub grant_allowed : Db → EntitlementGrant → Bool
grant_allowed db row =
    not (
      exists_where
        (λ r.
          r.entitlement_grant_id == row.entitlement_grant_id
          || r.membership_id == row.membership_id
            && r.entitlement_definition_id == row.entitlement_definition_id
            && nat_eq r.entitlement_version row.entitlement_version)
        db.entitlement_grants)
    && has_membership db row.membership_id
    && exists_where (is_entitlement row.entitlement_definition_id row.entitlement_version)
        db.entitlements

unfoldable pub binding_allowed : Db → GrantBinding → Bool
binding_allowed db row =
    not (exists_where (λ r. r.binding_id == row.binding_id) db.bindings)
    && has_membership db row.membership_id
    && has_adapter db row.adapter_definition_id
    && has_operation db row.operation_definition_id
    && exists_where
        (is_entitlement row.entitlement_definition_id row.entitlement_definition_version)
        db.entitlements
    && exists_where (is_policy row.policy_definition_id row.policy_definition_version) db.policies
    && leb 1 row.policy_definition_version

-- A NULL meets every foreign key.
abbrev pub parent_allowed : Db → Option String → Bool
parent_allowed db none = true
parent_allowed db (some s) = has_account_session db s

unfoldable pub session_allowed : Db → Session → Bool
session_allowed db row =
    not (
      exists_where (λ r. r.session_id == row.session_id || r.bearer_sha256 == row.bearer_sha256)
        db.sessions)
    && has_identity db row.identity_id
    && has_account db row.account_id
    && has_membership db row.membership_id
    && has_organization db row.organization_id
    && has_tenant db row.tenant_id
    && parent_allowed db row.account_session_id
    && leb 1 row.credential_revision

unfoldable pub invitation_allowed : Db → Invitation → Bool
invitation_allowed db row =
    not (
      exists_where (λ r. r.invitation_id == row.invitation_id || r.code_sha256 == row.code_sha256)
        db.invitations)
    && has_organization db row.organization_id
    && has_tenant db row.tenant_id

unfoldable pub handoff_allowed : Db → Challenge Handoff → Bool
handoff_allowed db row =
    not (
      exists_where (λ r. r.challenge_id == row.challenge_id || r.token_sha256 == row.token_sha256)
        db.handoffs)
    && has_identity db row.details.identity_id
    && has_account db row.account_id
    && has_membership db row.details.membership_id
    && has_organization db row.details.organization_id
    && has_tenant db row.details.tenant_id
    && has_session db row.details.source_session_id
    && leb 1 row.details.authorization_version
    && leb 1 row.details.entitlement_version

unfoldable pub hydration_allowed : Db → HydrationEntry → Bool
hydration_allowed db row =
    not (
      exists_where
        (λ r.
          r.hydration_reference_id == row.hydration_reference_id
          || r.organization_id == row.organization_id
            && r.kind == row.kind
            && r.target_ref == row.target_ref
            && r.version == row.version)
        db.hydration_references)
    && has_organization db row.organization_id
