-- ===== src/Contracts/Projection.antt =====
-- `AuthorizedSubject`, `HydrationReference`, `HydrationProjection` and `ConsumerHandoffProjection`.
use anar_core.Base.{ℕ, String, Bool, List, ◌==◌, not, ltb, pos}
use anar_core.Platform.{Platform}
use anar_core.Database.Tx.{Result, ok, Error}
use anar_core.Contracts.TypedId.{validate_typed_id}
use anar_core.Contracts.Symbol.{normalize_symbol}
use anar_core.Contracts.Check.{◌>>◌, check, positive_integer, VersionedDefinitionRef}
use anar_core.Contracts.Binding.{AdapterGrantBinding}

pub record AuthorizedSubject : Type 0 where
  pub identity_id : String
  pub account_id : String
  pub organization_id : String
  pub tenant_id : String
  pub session_id : String
  pub role_definitions : List VersionedDefinitionRef
  pub entitlement_definitions : List VersionedDefinitionRef
  pub adapter_bindings : List AdapterGrantBinding
  pub authorization_version : ℕ
  pub entitlement_version : ℕ
  pub expires_at : ℕ
  pub active : Bool

pub record HydrationReference : Type 0 where
  pub reference_id : String
  pub kind : String
  pub target_ref : String
  pub version : String

pub record HydrationProjection : Type 0 where
  pub organization_id : String
  pub tenant_id : String
  pub configuration_version : ℕ
  pub references : List HydrationReference

pub record ConsumerHandoffProjection : Type 0 where
  pub handoff_id : String
  pub consumer : String
  pub identity_id : String
  pub account_id : String
  pub membership_id : String
  pub organization_id : String
  pub tenant_id : String
  pub authorization_version : ℕ
  pub entitlement_version : ℕ
  pub hydration : HydrationProjection

module _ ⦃platform : Platform⦄ where
  -- The `__post_init__` of each.
  unfoldable pub checked_subject : AuthorizedSubject → Result AuthorizedSubject
  checked_subject s = do
    validate_typed_id s.identity_id "idn"
    validate_typed_id s.account_id "act"
    validate_typed_id s.organization_id "org"
    validate_typed_id s.tenant_id "tnt"
    validate_typed_id s.session_id "ses"
    positive_integer (pos s.authorization_version) "authorization version"
    positive_integer (pos s.entitlement_version) "entitlement version"
    check (ltb 0 s.expires_at) (Error.contract "session expiry must be positive")
    ok s

  unfoldable pub checked_reference : HydrationReference → Result HydrationReference
  checked_reference r = do
    validate_typed_id r.reference_id "hyd"
    normalize_symbol r.kind
    normalize_symbol r.version
    check (not (platform.strip r.target_ref == ""))
        (Error.contract "hydration target reference is required")
    ok r

  unfoldable pub checked_hydration : HydrationProjection → Result HydrationProjection
  checked_hydration h = do
    validate_typed_id h.organization_id "org"
    validate_typed_id h.tenant_id "tnt"
    positive_integer (pos h.configuration_version) "hydration configuration version"
    ok h

  unfoldable pub checked_handoff : ConsumerHandoffProjection → Result ConsumerHandoffProjection
  checked_handoff h = do
    validate_typed_id h.handoff_id "hnd"
    validate_typed_id h.identity_id "idn"
    validate_typed_id h.account_id "act"
    validate_typed_id h.membership_id "mbr"
    validate_typed_id h.organization_id "org"
    validate_typed_id h.tenant_id "tnt"
    normalize_symbol h.consumer
    positive_integer (pos h.authorization_version) "handoff authorization version"
    positive_integer (pos h.entitlement_version) "handoff entitlement version"
    check (h.hydration.organization_id == h.organization_id)
        (Error.contract "handoff hydration organization mismatch")
    check (h.hydration.tenant_id == h.tenant_id)
        (Error.contract "handoff hydration tenant mismatch")
    ok h
