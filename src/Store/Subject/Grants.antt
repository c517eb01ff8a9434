-- ===== src/Store/Subject/Grants.antt =====
-- The roles, entitlements and adapter bindings of a membership, with the state of what they refer to.
use anar_core.Base.{ℕ, String, Bool, false, none, some, List, ◌&&◌, ◌||◌, ◌==◌, nat_eq, leb, pos}
use anar_core.Base.Table.{find_where, exists_where, select_where, all_where}
use anar_core.Base.Sort.{order_by, text_lt}
use anar_core.Platform.{Platform}
use anar_core.Database.Status.{is_active}
use anar_core.Database.Definitions.{RoleAssignment, EntitlementGrant, GrantBinding}
use anar_core.Database.Rows.{Db, Session, Membership}
use anar_core.Database.Tx.{Tx, Error, Result, ◌>>=◌, ◌>>◌, pure, gets, require}
use anar_core.Database.Authority.{is_role, is_policy, is_entitlement}
use anar_core.Contracts.Check.{VersionedDefinitionRef, versioned_definition_ref, traverse}
use anar_core.Contracts.Binding.{AdapterGrantBinding, checked_binding}

-- The columns of a LEFT JOIN, where a missing row gives NULL.
abbrev pub role_active : Db → RoleAssignment → Bool
role_active db a = elim (find_where (is_role a.role_definition_id a.role_version) db.roles) [
  | none ↦ false
  | some d ↦ is_active d.status
]

abbrev pub entitlement_active : Db → String → ℕ → Bool
entitlement_active db id version = elim (find_where (is_entitlement id version) db.entitlements) [
  | none ↦ false
  | some d ↦ is_active d.status
]

abbrev pub policy_active : Db → String → ℕ → Bool
policy_active db id version = elim (find_where (is_policy id version) db.policies) [
  | none ↦ false
  | some d ↦ is_active d.status
]

abbrev pub adapter_active : Db → String → Bool
adapter_active db id = elim (find_where (λ r. r.adapter_definition_id == id) db.adapters) [
  | none ↦ false
  | some d ↦ is_active d.status
]

-- The operation is active, and belongs to the adapter.
abbrev pub operation_active : Db → String → String → Bool
operation_active db id adapter =
    elim (find_where (λ r. r.operation_definition_id == id) db.operations) [
      | none ↦ false
      | some d ↦ is_active d.status && d.adapter_definition_id == adapter
    ]

abbrev pub is_granted : String → String → ℕ → EntitlementGrant → Bool
is_granted membership_id id version g =
    g.membership_id == membership_id
    && g.entitlement_definition_id == id
    && nat_eq g.entitlement_version version
    && is_active g.status

abbrev pub binding_active : Db → GrantBinding → Bool
binding_active db b =
    adapter_active db b.adapter_definition_id
    && operation_active db b.operation_definition_id b.adapter_definition_id
    && entitlement_active db b.entitlement_definition_id b.entitlement_definition_version
    && policy_active db b.policy_definition_id b.policy_definition_version
    && exists_where
        (is_granted b.membership_id b.entitlement_definition_id b.entitlement_definition_version)
        db.entitlement_grants

-- ORDER BY two columns, a text and a number.
abbrev pub key_le : String → ℕ → String → ℕ → Bool
key_le s v t w = text_lt s t || s == t && leb v w

abbrev pub active_roles : String → Db → List RoleAssignment
active_roles m db =
    order_by (λ a b. key_le a.role_definition_id a.role_version b.role_definition_id b.role_version)
      (select_where (λ a. a.membership_id == m && is_active a.status) db.role_assignments)

abbrev pub active_entitlements : String → Db → List EntitlementGrant
active_entitlements m db =
    order_by
      (λ a b.
        key_le a.entitlement_definition_id a.entitlement_version b.entitlement_definition_id
          b.entitlement_version)
      (select_where (λ a. a.membership_id == m && is_active a.status) db.entitlement_grants)

abbrev pub active_bindings : String → Db → List GrantBinding
active_bindings m db =
    order_by (λ a b. text_lt a.binding_id b.binding_id || a.binding_id == b.binding_id)
      (select_where (λ b. b.membership_id == m && is_active b.status) db.bindings)

-- What the rows of a membership grant, once all that they refer to is found active.
pub record Grants : Type 0 where
  pub roles : List RoleAssignment
  pub entitlements : List EntitlementGrant
  pub bindings : List GrantBinding

unfoldable pub load_grants : String → Tx Grants
load_grants membership_id = do
  roles ← gets (active_roles membership_id)
  roles_active ← gets (λ db. all_where (role_active db) roles)
  require roles_active (Error.authority "role definition inactive")
  entitlements ← gets (active_entitlements membership_id)
  entitlements_active ← gets (λ db.
      all_where (λ e. entitlement_active db e.entitlement_definition_id e.entitlement_version)
        entitlements)
  require entitlements_active (Error.authority "entitlement definition inactive")
  bindings ← gets (active_bindings membership_id)
  bindings_active ← gets (λ db. all_where (binding_active db) bindings)
  require bindings_active (Error.authority "adapter binding authority inactive")
  pure (record { roles = roles; entitlements = entitlements; bindings = bindings })

abbrev pub binding_of : Session → Membership → GrantBinding → AdapterGrantBinding
binding_of s m b = record {
  binding_id = b.binding_id;
  identity_id = s.identity_id;
  account_id = s.account_id;
  organization_id = s.organization_id;
  tenant_id = s.tenant_id;
  session_id = s.session_id;
  adapter_definition_id = b.adapter_definition_id;
  operation_definition_id = b.operation_definition_id;
  entitlement_definition_id = b.entitlement_definition_id;
  entitlement_definition_version = b.entitlement_definition_version;
  resource_scope_json = b.resource_scope_json;
  authorization_version = m.authorization_version;
  entitlement_version = m.entitlement_version;
  policy_definition_id = b.policy_definition_id;
  policy_definition_version = b.policy_definition_version;
  policy_version = b.policy_version;
  status = b.status;
}

module _ ⦃platform : Platform⦄ where
  unfoldable pub binding_contracts :
      Session → Membership → List GrantBinding → Result (List AdapterGrantBinding)
  unfolding traverse
  binding_contracts s m bindings = traverse (λ b. checked_binding (binding_of s m b)) bindings

  unfoldable pub role_refs : List RoleAssignment → Result (List VersionedDefinitionRef)
  unfolding traverse versioned_definition_ref
  role_refs rows =
      traverse
        (λ (r : RoleAssignment). versioned_definition_ref r.role_definition_id (pos r.role_version))
        rows

  unfoldable pub entitlement_refs : List EntitlementGrant → Result (List VersionedDefinitionRef)
  unfolding traverse versioned_definition_ref
  entitlement_refs rows =
      traverse
        (λ (r : EntitlementGrant).
          versioned_definition_ref r.entitlement_definition_id (pos r.entitlement_version))
        rows
