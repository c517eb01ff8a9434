-- ===== src/Database/Rows.antt =====
-- The rows of the tables that `AnarCoreStore._migrate` creates, and the `Db` that holds them.
pub use anar_core.Database.Status.{
  Status, is_active, is_pending, is_suspended, is_revoked, status_text,
}
use anar_core.Database.Definitions.{
  RoleDefinition, PolicyDefinition, EntitlementDefinition, RoleAssignment, EntitlementGrant,
  AdapterDefinition, OperationDefinition, GrantBinding, Invitation, HydrationEntry,
}
use anar_core.Base.{ℕ, ◌+◌, String, Bool, ◌||◌, Option, some, List, ◌&&◌, ◌==◌, is_null}

pub record Identity : Type 0 where
  pub identity_id : String
  pub identity_kind : String
  pub display_name : String
  pub status : Status
  pub created_at : ℕ

pub record PersonalAccount : Type 0 where
  pub account_id : String
  pub identity_id : String
  pub status : Status
  pub created_at : ℕ

pub record AccountEmail : Type 0 where
  pub account_id : String
  pub normalized_email : String
  pub verified_at : Option ℕ
  pub status : Status
  pub created_at : ℕ

pub record PasswordCredential : Type 0 where
  pub credential_id : String
  pub account_id : String
  pub password_hash : String
  pub credential_revision : ℕ
  pub status : Status
  pub created_at : ℕ
  pub updated_at : ℕ

-- The columns that the seven tables of one-time tokens share; `Details` are those of one table.
pub record Challenge (Details : Type 0) : Type 0 where
  pub challenge_id : String
  pub token_sha256 : String
  pub account_id : String
  pub consumed_at : Option ℕ
  pub revoked_at : Option ℕ
  pub status : Status
  pub created_at : ℕ
  pub details : Details

-- email_verification_challenge and password_reset_challenge
pub record Deadline : Type 0 where
  pub expires_at : ℕ

-- email_change_challenge
pub record EmailChange : Type 0 where
  pub proposed_email : String
  pub expires_at : ℕ

-- mfa_broker_attestation and mfa_step_up_receipt
pub record MfaGrant : Type 0 where
  pub account_session_id : String
  pub authenticator_id : String
  pub purpose : String
  pub expires_at : ℕ

-- mfa_recovery_code has no column of its own.
pub record RecoveryCode : Type 0 where

-- consumer_handoff
pub record Handoff : Type 0 where
  pub consumer : String
  pub identity_id : String
  pub membership_id : String
  pub organization_id : String
  pub tenant_id : String
  pub source_session_id : String
  pub authorization_version : ℕ
  pub entitlement_version : ℕ
  pub expires_at : ℕ

-- The authenticator's kind is 'totp' by the CHECK of its table.
pub record MfaAuthenticator : Type 0 where
  pub authenticator_id : String
  pub account_id : String
  pub secret_reference : String
  pub status : Status
  pub verified_at : Option ℕ
  pub revoked_at : Option ℕ
  pub created_at : ℕ

pub record AccountSession : Type 0 where
  pub account_session_id : String
  pub bearer_sha256 : String
  pub identity_id : String
  pub account_id : String
  pub credential_revision : ℕ
  pub expires_at : ℕ
  pub status : Status
  pub revoked_at : Option ℕ
  pub created_at : ℕ

-- The table `session`: a session of an organization, derived from an account session.
pub record Session : Type 0 where
  pub session_id : String
  pub bearer_sha256 : String
  pub identity_id : String
  pub account_id : String
  pub membership_id : String
  pub organization_id : String
  pub tenant_id : String
  pub account_session_id : Option String
  pub authorization_version : ℕ
  pub entitlement_version : ℕ
  pub credential_revision : ℕ
  pub expires_at : ℕ
  pub status : Status
  pub revoked_at : Option ℕ
  pub created_at : ℕ

pub record Organization : Type 0 where
  pub organization_id : String
  pub canonical_name : String
  pub status : Status
  pub hydration_version : ℕ
  pub created_at : ℕ

pub record Tenant : Type 0 where
  pub tenant_id : String
  pub organization_id : String
  pub status : Status
  pub created_at : ℕ

pub record Membership : Type 0 where
  pub membership_id : String
  pub identity_id : String
  pub organization_id : String
  pub status : Status
  pub authorization_version : ℕ
  pub entitlement_version : ℕ
  pub created_at : ℕ

pub record Db : Type 0 where
  pub identities : List Identity
  pub accounts : List PersonalAccount
  pub emails : List AccountEmail
  pub credentials : List PasswordCredential
  pub verifications : List (Challenge Deadline)
  pub resets : List (Challenge Deadline)
  pub email_changes : List (Challenge EmailChange)
  pub authenticators : List MfaAuthenticator
  pub recovery_codes : List (Challenge RecoveryCode)
  pub attestations : List (Challenge MfaGrant)
  pub step_ups : List (Challenge MfaGrant)
  pub account_sessions : List AccountSession
  pub sessions : List Session
  pub handoffs : List (Challenge Handoff)
  pub organizations : List Organization
  pub tenants : List Tenant
  pub memberships : List Membership
  pub roles : List RoleDefinition
  pub policies : List PolicyDefinition
  pub entitlements : List EntitlementDefinition
  pub adapters : List AdapterDefinition
  pub operations : List OperationDefinition
  pub role_assignments : List RoleAssignment
  pub entitlement_grants : List EntitlementGrant
  pub bindings : List GrantBinding
  pub invitations : List Invitation
  pub hydration_references : List HydrationEntry

-- `status = 'active' AND consumed_at IS NULL AND revoked_at IS NULL`
abbrev pub is_open : {X : Type 0} → Challenge X → Bool
is_open c = is_active c.status && is_null c.consumed_at && is_null c.revoked_at

-- `SET status = 'consumed', consumed_at = ?`
abbrev pub consume : {X : Type 0} → ℕ → Challenge X → Challenge X
consume now c = record c { status = Status.consumed; consumed_at = some now }

-- `SET status = 'revoked', revoked_at = ?`
abbrev pub revoke : {X : Type 0} → ℕ → Challenge X → Challenge X
revoke now c = record c { status = Status.revoked; revoked_at = some now }

-- The same for the sessions.
abbrev pub revoke_session : ℕ → Session → Session
revoke_session now r = record r { status = Status.revoked; revoked_at = some now }

abbrev pub revoke_account_session : ℕ → AccountSession → AccountSession
revoke_account_session now r = record r { status = Status.revoked; revoked_at = some now }

-- `SET status = …, authorization_version = authorization_version + 1`
abbrev pub become : Status → Membership → Membership
become status m = record m { status = status; authorization_version = m.authorization_version + 1 }

-- `status IN ('active', 'suspended')`
abbrev pub is_current : Membership → Bool
is_current m = is_active m.status || is_suspended m.status

-- `s` is a current membership of the same identity and organization as `r`.
abbrev pub rivals : Membership → Membership → Bool
rivals r s =
    is_current s && s.identity_id == r.identity_id && s.organization_id == r.organization_id
