-- ===== src/Contracts/Binding.antt =====
-- `AdapterGrantBinding`, its agreement document and `assert_boundary_agreement`.
use anar_core.Base.{ℕ, String, ◌==◌, pos}
use anar_core.Platform.{Platform}
use anar_core.Database.Status.{Status, status_text}
use anar_core.Database.Tx.{Result, ok, Error}
use anar_core.Contracts.Json.{Json, str, num, obj, field, end}
use anar_core.Contracts.TypedId.{validate_typed_id}
use anar_core.Contracts.Symbol.{normalize_symbol}
use anar_core.Contracts.Check.{◌>>=◌, ◌>>◌, check, positive_integer, canonical_json, loads}

pub record AdapterGrantBinding : Type 0 where
  pub binding_id : String
  pub identity_id : String
  pub account_id : String
  pub organization_id : String
  pub tenant_id : String
  pub session_id : String
  pub adapter_definition_id : String
  pub operation_definition_id : String
  pub entitlement_definition_id : String
  pub entitlement_definition_version : ℕ
  pub resource_scope_json : String
  pub authorization_version : ℕ
  pub entitlement_version : ℕ
  pub policy_definition_id : String
  pub policy_definition_version : ℕ
  pub policy_version : String
  pub status : Status

module _ ⦃platform : Platform⦄ where
  -- The test of `resource_scope_json`: it is the canonical text of what it reads as.
  unfoldable pub check_scope : String → Result Json
  check_scope text = do
    parsed ← loads text
    canonical ← canonical_json parsed
    check (canonical == text) (Error.contract "resource scope must use canonical JSON")
    ok parsed

  -- `AdapterGrantBinding.__post_init__`
  unfoldable pub checked_binding : AdapterGrantBinding → Result AdapterGrantBinding
  unfolding check_scope
  checked_binding b = do
    validate_typed_id b.binding_id "bnd"
    validate_typed_id b.identity_id "idn"
    validate_typed_id b.account_id "act"
    validate_typed_id b.organization_id "org"
    validate_typed_id b.tenant_id "tnt"
    validate_typed_id b.session_id "ses"
    validate_typed_id b.adapter_definition_id "adp"
    validate_typed_id b.operation_definition_id "opn"
    validate_typed_id b.entitlement_definition_id "ent"
    positive_integer (pos b.entitlement_definition_version) "entitlement definition version"
    validate_typed_id b.policy_definition_id "pol"
    positive_integer (pos b.policy_definition_version) "policy definition version"
    normalize_symbol b.policy_version
    normalize_symbol (status_text b.status)
    check_scope b.resource_scope_json
    positive_integer (pos b.authorization_version) "authorization version"
    positive_integer (pos b.entitlement_version) "entitlement version"
    ok b

  unfoldable pub agreement_document : AdapterGrantBinding → Result Json
  agreement_document b = do
    scope ← loads b.resource_scope_json
    ok (
        obj (
          field "identityId" (str b.identity_id) (
            field "accountId" (str b.account_id) (
              field "organizationId" (str b.organization_id) (
                field "tenantId" (str b.tenant_id) (
                  field "sessionId" (str b.session_id) (
                    field "adapterDefinitionId" (str b.adapter_definition_id) (
                      field "operationDefinitionId" (str b.operation_definition_id) (
                        field "entitlementDefinitionId" (str b.entitlement_definition_id) (
                          field "entitlementDefinitionVersion"
                            (num (pos b.entitlement_definition_version))
                            (field "resourceScope" scope (
                              field "authorizationVersion" (num (pos b.authorization_version)) (
                                field "entitlementVersion" (num (pos b.entitlement_version)) (
                                  field "policyDefinitionId" (str b.policy_definition_id) (
                                    field "policyDefinitionVersion"
                                      (num (pos b.policy_definition_version))
                                      (field "status" (str (status_text b.status))
                                        end))))))))))))))))

  unfoldable pub agreement_digest : AdapterGrantBinding → Result String
  agreement_digest b = do
    document ← agreement_document b
    encoded ← canonical_json document
    ok (platform.sha256 encoded)

  unfoldable pub assert_boundary_agreement :
      AdapterGrantBinding → AdapterGrantBinding → Result (Unit {0})
  assert_boundary_agreement core_binding broker_binding = do
    core ← agreement_document core_binding
    core_document ← canonical_json core
    broker ← agreement_document broker_binding
    broker_document ← canonical_json broker
    check (core_document == broker_document)
        (Error.contract "Anar-Core/Broker normalized authority boundary mismatch")
