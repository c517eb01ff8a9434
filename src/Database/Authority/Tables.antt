-- ===== src/Database/Authority/Tables.antt =====
-- The tables behind an organization's authority, as parts of the database.
use anar_core.Database.Definitions.{
  RoleDefinition, PolicyDefinition, EntitlementDefinition, RoleAssignment, EntitlementGrant,
  AdapterDefinition, OperationDefinition, GrantBinding, Invitation, HydrationEntry,
}
use anar_core.Database.Rows.{Organization, Tenant, Membership}
use anar_core.Database.Tx.{Table}

abbrev pub organization : Table Organization
organization = record {
  rows = λ db. db.organizations;
  store = λ rows db. record db { organizations = rows };
}

abbrev pub tenant : Table Tenant
tenant = record { rows = λ db. db.tenants; store = λ rows db. record db { tenants = rows } }

abbrev pub membership : Table Membership
membership = record {
  rows = λ db. db.memberships;
  store = λ rows db. record db { memberships = rows };
}

abbrev pub role_definition : Table RoleDefinition
role_definition = record { rows = λ db. db.roles; store = λ rows db. record db { roles = rows } }

abbrev pub policy_definition : Table PolicyDefinition
policy_definition = record {
  rows = λ db. db.policies;
  store = λ rows db. record db { policies = rows };
}

abbrev pub entitlement_definition : Table EntitlementDefinition
entitlement_definition = record {
  rows = λ db. db.entitlements;
  store = λ rows db. record db { entitlements = rows };
}

abbrev pub adapter_definition : Table AdapterDefinition
adapter_definition = record {
  rows = λ db. db.adapters;
  store = λ rows db. record db { adapters = rows };
}

abbrev pub operation_definition : Table OperationDefinition
operation_definition = record {
  rows = λ db. db.operations;
  store = λ rows db. record db { operations = rows };
}

abbrev pub role_assignment : Table RoleAssignment
role_assignment = record {
  rows = λ db. db.role_assignments;
  store = λ rows db. record db { role_assignments = rows };
}

abbrev pub entitlement_grant : Table EntitlementGrant
entitlement_grant = record {
  rows = λ db. db.entitlement_grants;
  store = λ rows db. record db { entitlement_grants = rows };
}

abbrev pub adapter_grant_binding : Table GrantBinding
adapter_grant_binding = record {
  rows = λ db. db.bindings;
  store = λ rows db. record db { bindings = rows };
}

abbrev pub invitation : Table Invitation
invitation = record {
  rows = λ db. db.invitations;
  store = λ rows db. record db { invitations = rows };
}

abbrev pub hydration_reference : Table HydrationEntry
hydration_reference = record {
  rows = λ db. db.hydration_references;
  store = λ rows db. record db { hydration_references = rows };
}
