-- ===== src/Store/Organization/Derive.antt =====
-- `derive_organization_session`.
use anar_core.Base.{ℕ, ◌+◌, String, none, some, ◌&&◌, ◌==◌}
use Prim.Native.Nat.{min}
use anar_core.Platform.{Platform, seconds}
use anar_core.Contracts.TypedId.{validate_typed_id}
use anar_core.Database.Rows.{Status, is_active, AccountSession, Membership, Session}
use anar_core.Database.Tx.{
  Tx, Action, Error, ◌>>=◌, ◌>>◌, pure, lift, select_one, insert, with_connection, reading, chain,
}
use anar_core.Database.Schema.{session}
use anar_core.Database.Authority.{tenant, membership, session_allowed}
use anar_core.Store.Input.{ℤ, require_positive_integer, token_digest}
use anar_core.Store.Session.{load_account_session}

pub record DeriveDraws : Type 0 where
  pub session_id : String
  pub bearer : String

-- What the checks leave.
pub record DeriveInput : Type 0 where
  pub ttl : ℕ
  pub parent : AccountSession
  pub member : Membership
  pub tenant_id : String
  pub digest : String

-- The row of the new session; it lives no longer than its parent.
abbrev pub derived : DeriveInput → String → String → DeriveDraws → ℕ → Session
derived input account_session_id organization_id draws now = record {
  session_id = draws.session_id;
  bearer_sha256 = input.digest;
  identity_id = input.parent.identity_id;
  account_id = input.parent.account_id;
  membership_id = input.member.membership_id;
  organization_id = organization_id;
  tenant_id = input.tenant_id;
  account_session_id = some account_session_id;
  authorization_version = input.member.authorization_version;
  entitlement_version = input.member.entitlement_version;
  credential_revision = input.parent.credential_revision;
  expires_at = min (now + seconds input.ttl) input.parent.expires_at;
  status = Status.active;
  revoked_at = none;
  created_at = now;
}

module _ ⦃platform : Platform⦄ where
  unfoldable pub derive_checks : String → String → String → ℤ → DeriveDraws → ℕ → Tx DeriveInput
  derive_checks account_bearer account_session_id organization_id ttl_seconds draws checked_at = do
    lift (validate_typed_id account_session_id "acs")
    lift (validate_typed_id organization_id "org")
    ttl ← lift (require_positive_integer ttl_seconds "session TTL" none)
    parent ← load_account_session account_bearer account_session_id checked_at
    member ←
        select_one membership
          (λ m.
            m.identity_id == parent.identity_id
            && m.organization_id == organization_id
            && is_active m.status)
          (Error.authority "active membership required")
    within ←
        select_one tenant (λ t. t.organization_id == organization_id && is_active t.status)
          (Error.authority "active tenant required")
    digest ← lift (token_digest draws.bearer)
    pure (record {
      ttl = ttl;
      parent = parent;
      member = member;
      tenant_id = within.tenant_id;
      digest = digest;
    })

  unfoldable pub derive_organization_session :
      String → String → String → ℤ → DeriveDraws → ℕ → ℕ → Action (String × String)
  unfolding derive_checks
  derive_organization_session account_bearer account_session_id organization_id ttl_seconds draws
        checked_at now =
      chain
        (reading (
          derive_checks account_bearer account_session_id organization_id ttl_seconds draws
            checked_at))
        λ input. with_connection (do
          insert session session_allowed
              (derived input account_session_id organization_id draws now)
          pure (draws.session_id, draws.bearer))
