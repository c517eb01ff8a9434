-- ===== src/Store/Organization/Grant.antt =====
-- `grant_adapter_operation` and `ensure_cloud_spine_definitions`.
use anar_core.Base.{ℕ, ◌+◌, String, Bool, ◌&&◌, ◌==◌, not}
use anar_core.Platform.{Platform}
use anar_core.Contracts.Json.{Json}
use anar_core.Contracts.TypedId.{validate_typed_id}
use anar_core.Contracts.Symbol.{normalize_symbol}
use anar_core.Contracts.Check.{VersionedDefinitionRef, versioned_definition_ref, canonical_json}
use anar_core.Database.Status.{Status, is_active}
use anar_core.Database.Rows.{Db}
use anar_core.Database.Tx.{
  Tx, Action, Error, ◌>>=◌, ◌>>◌, pure, lift, gets, require, when, select_one, update, insert,
  with_connection, reading, chain, Table,
}
use anar_core.Database.Authority.{
  membership, policy_definition, entitlement_definition, adapter_definition, operation_definition,
  entitlement_grant, adapter_grant_binding, is_policy, is_entitlement, binding_allowed,
  entitlement_allowed, adapter_allowed, operation_allowed, operation_known,
}
use anar_core.Store.Input.{pos}
use anar_core.Store.Subject.Grants.{is_granted}

module _ ⦃platform : Platform⦄ where
  unfoldable pub grant_checks :
      String → String → String → VersionedDefinitionRef → VersionedDefinitionRef → Tx (Unit {0})
  grant_checks membership_id adapter_definition_id operation_definition_id entitlement policy = do
    lift (validate_typed_id membership_id "mbr")
    lift (validate_typed_id adapter_definition_id "adp")
    lift (validate_typed_id operation_definition_id "opn")
    lift (validate_typed_id entitlement.definition_id "ent")
    lift (validate_typed_id policy.definition_id "pol")
    p ←
        select_one policy_definition (is_policy policy.definition_id policy.version)
          (Error.authority "active policy definition required")
    require (is_active p.status) (Error.authority "active policy definition required")
    select_one entitlement_grant
        (is_granted membership_id entitlement.definition_id entitlement.version)
        (Error.authority "active entitlement grant required for adapter authority")
    operation ←
        select_one operation_definition
          (λ r. r.operation_definition_id == operation_definition_id && is_active r.status)
          (Error.authority "active operation definition required")
    require (operation.adapter_definition_id == adapter_definition_id)
        (Error.authority "operation definition does not belong to adapter definition")

  unfoldable pub grant_rows :
      String
      → String
      → String
      → VersionedDefinitionRef
      → Json
      → VersionedDefinitionRef
      → String
      → String
      → ℕ
      → Tx String
  grant_rows membership_id adapter_definition_id operation_definition_id entitlement resource_scope
        policy policy_version binding_id now =
      do
        scope ← lift (canonical_json resource_scope)
        version ← lift (normalize_symbol policy_version)
        insert adapter_grant_binding binding_allowed (record {
          binding_id = binding_id;
          membership_id = membership_id;
          adapter_definition_id = adapter_definition_id;
          operation_definition_id = operation_definition_id;
          entitlement_definition_id = entitlement.definition_id;
          entitlement_definition_version = entitlement.version;
          resource_scope_json = scope;
          policy_definition_id = policy.definition_id;
          policy_definition_version = policy.version;
          policy_version = version;
          status = Status.active;
          created_at = now;
        })
        update membership (λ m. m.membership_id == membership_id)
            (λ m. record m { authorization_version = m.authorization_version + 1 })
        pure binding_id

  unfoldable pub grant_adapter_operation :
      String
      → String
      → String
      → VersionedDefinitionRef
      → Json
      → VersionedDefinitionRef
      → String
      → String
      → ℕ
      → Action String
  unfolding grant_checks grant_rows
  grant_adapter_operation membership_id adapter_definition_id operation_definition_id entitlement
        resource_scope policy policy_version binding_id now =
      chain
        (reading (
          grant_checks membership_id adapter_definition_id operation_definition_id entitlement
            policy))
        λ _. with_connection (
          grant_rows membership_id adapter_definition_id operation_definition_id entitlement
            resource_scope policy policy_version binding_id now)

-- The fixed definitions of the Cloud Spine.
abbrev pub spine_adapter : String
spine_adapter = "adp_8e8d46ef8dc04ec58e8719ed9609ed1a"

abbrev pub spine_operation : String
spine_operation = "opn_337f67b7a38f445e8830e950e81226e1"

abbrev pub spine_entitlement : String
spine_entitlement = "ent_1ad920a8de4b46eda4925c0037c21b11"

-- `INSERT OR IGNORE`: a conflict of keys inserts nothing, a foreign key that fails still raises.
unfoldable pub insert_or_ignore :
    {A : Type 0} → Table A → (Db → A → Bool) → (Db → A → Bool) → A → Tx (Unit {0})
insert_or_ignore t conflict allowed row = do
  known ← gets (λ db. conflict db row)
  when (not known) (insert t allowed row)

unfoldable pub spine_rows : ℕ → Tx (Unit {0})
unfolding insert_or_ignore
spine_rows created_at = do
  insert_or_ignore entitlement_definition (λ db row. not (entitlement_allowed db row))
      entitlement_allowed
      (record {
        entitlement_definition_id = spine_entitlement;
        version = 1;
        symbolic_name = "spine.account.status.read";
        status = Status.active;
        created_at = created_at;
      })
  insert_or_ignore adapter_definition (λ db row. not (adapter_allowed db row)) adapter_allowed
      (record {
        adapter_definition_id = spine_adapter;
        symbolic_name = "spine.core";
        status = Status.active;
        created_at = created_at;
      })
  insert_or_ignore operation_definition operation_known operation_allowed (record {
    operation_definition_id = spine_operation;
    adapter_definition_id = spine_adapter;
    symbolic_name = "fetch-account-status";
    status = Status.active;
    created_at = created_at;
  })

-- The definitions that are there afterwards, and their checks.
unfoldable pub spine_checks : Tx (Unit {0})
spine_checks = do
  entitlement ←
      select_one entitlement_definition (is_entitlement spine_entitlement 1)
        (Error.authority "Cloud Spine entitlement definition unavailable")
  adapter ←
      select_one adapter_definition (λ a. a.adapter_definition_id == spine_adapter)
        (Error.authority "Cloud Spine adapter definition unavailable")
  operation ←
      select_one operation_definition (λ o. o.operation_definition_id == spine_operation)
        (Error.authority "Cloud Spine operation definition unavailable")
  require (entitlement.symbolic_name == "spine.account.status.read" && is_active entitlement.status)
      (Error.authority "Cloud Spine entitlement definition conflict")
  require (adapter.symbolic_name == "spine.core" && is_active adapter.status)
      (Error.authority "Cloud Spine adapter definition conflict")
  require
      (operation.adapter_definition_id == spine_adapter
        && operation.symbolic_name == "fetch-account-status"
        && is_active operation.status)
      (Error.authority "Cloud Spine operation definition conflict")

module _ ⦃platform : Platform⦄ where
  -- The adapter, the operation and the entitlement definition.
  unfoldable pub ensure_cloud_spine_definitions :
      ℕ → Action (String × String × VersionedDefinitionRef)
  unfolding spine_rows spine_checks versioned_definition_ref
  ensure_cloud_spine_definitions created_at = chain (with_connection (spine_rows created_at)) λ _.
      chain (reading spine_checks) λ _. reading (do
        ref ← lift (versioned_definition_ref spine_entitlement (pos 1))
        pure (spine_adapter, spine_operation, ref))
