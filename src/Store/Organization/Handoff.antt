-- ===== src/Store/Organization/Handoff.antt =====
-- `issue_consumer_handoff`, `consume_consumer_handoff` and `revoke_consumer_handoff`.
use anar_core.Base.{ℕ, ◌+◌, String, none, ◌&&◌, ◌==◌, nat_eq, ltb, is_null}
use anar_core.Platform.{Platform, seconds}
use anar_core.Contracts.TypedId.{validate_typed_id}
use anar_core.Contracts.Symbol.{normalize_symbol}
use anar_core.Contracts.Projection.{AuthorizedSubject, ConsumerHandoffProjection, checked_handoff}
use anar_core.Database.Rows.{
  Status, is_active, is_open, consume, revoke, Session, Challenge, Handoff, Organization,
}
use anar_core.Database.Tx.{
  Tx, Action, Error, ◌>>=◌, ◌>>◌, pure, lift, gets, require, select_one, update, insert, immediate,
  with_connection, reading, chain,
}
use anar_core.Database.Schema.{session, identity, personal_account, consumer_handoff}
use anar_core.Database.Authority.{organization, tenant, membership, handoff_allowed}
use anar_core.Store.Input.{ℤ, require_positive_integer, token_digest}
use anar_core.Store.Subject.Project.{authenticate_rows, project_authorized_subject}
use anar_core.Store.Organization.Hydration.{
  organization_unavailable, active_references, hydration_of,
}

abbrev pub handoff_unavailable : Error
handoff_unavailable = Error.authority "handoff unavailable"

pub record HandoffDraws : Type 0 where
  pub handoff_id : String
  pub token : String

-- What the checks of `issue_consumer_handoff` leave.
pub record HandoffInput : Type 0 where
  pub ttl : ℕ
  pub consumer : String
  pub subject : AuthorizedSubject
  pub source : Session
  pub digest : String

-- The tests of the organization and the tenant, which both methods make.
unfoldable pub require_scope : String → String → Tx Organization
require_scope organization_id tenant_id = do
  of ←
      select_one organization (λ o. o.organization_id == organization_id && is_active o.status)
        organization_unavailable
  select_one tenant
      (λ t. t.tenant_id == tenant_id && t.organization_id == organization_id && is_active t.status)
      (Error.authority "tenant unavailable")
  pure of

-- The tests of the handoff's row.
unfoldable pub check_handoff : String → ℕ → Challenge Handoff → Tx (Unit {0})
check_handoff consumer now h = do
  require (h.details.consumer == consumer) (Error.authority "handoff consumer mismatch")
  require (is_active h.status) handoff_unavailable
  require (is_null h.consumed_at) (Error.authority "handoff consumed")
  require (is_null h.revoked_at) (Error.authority "handoff revoked")
  require (ltb now h.details.expires_at) (Error.authority "handoff expired")

-- The tests of the session that the handoff comes from.
unfoldable pub check_source : ℕ → Challenge Handoff → Tx (Unit {0})
check_source now h = do
  s ←
      select_one session (λ r. r.session_id == h.details.source_session_id)
        (Error.authority "handoff source session unavailable")
  require (is_active s.status && is_null s.revoked_at && ltb now s.expires_at)
      (Error.authority "handoff source session inactive")
  require
      (s.identity_id == h.details.identity_id
        && s.account_id == h.account_id
        && s.membership_id == h.details.membership_id
        && s.organization_id == h.details.organization_id
        && s.tenant_id == h.details.tenant_id)
      (Error.authority "handoff source session mismatch")
  require (nat_eq s.authorization_version h.details.authorization_version)
      (Error.authority "handoff source authorization version stale")
  require (nat_eq s.entitlement_version h.details.entitlement_version)
      (Error.authority "handoff source entitlement version stale")

-- The tests of the identity, the account and the membership that the handoff names.
unfoldable pub check_parties : Challenge Handoff → Tx (Unit {0})
check_parties h = do
  select_one identity (λ i. i.identity_id == h.details.identity_id && is_active i.status)
      (Error.authority "active identity required")
  select_one personal_account
      (λ a.
        a.account_id == h.account_id
        && a.identity_id == h.details.identity_id
        && is_active a.status)
      (Error.authority "active personal account required")
  m ←
      select_one membership
        (λ r.
          r.membership_id == h.details.membership_id
          && r.identity_id == h.details.identity_id
          && r.organization_id == h.details.organization_id
          && is_active r.status)
        (Error.authority "active membership required")
  require (nat_eq m.authorization_version h.details.authorization_version)
      (Error.authority "handoff authorization version stale")
  require (nat_eq m.entitlement_version h.details.entitlement_version)
      (Error.authority "handoff entitlement version stale")

module _ ⦃platform : Platform⦄ where
  unfoldable pub handoff_checks : String → String → String → ℤ → HandoffDraws → ℕ → Tx HandoffInput
  unfolding require_scope
  handoff_checks session_bearer session_id consumer ttl_seconds draws checked_at = do
    lift (validate_typed_id session_id "ses")
    ttl ← lift (require_positive_integer ttl_seconds "handoff TTL" none)
    normalized_consumer ← lift (normalize_symbol consumer)
    require (normalized_consumer == "adforge") (Error.authority "unsupported handoff consumer")
    subject ← authenticate_rows session_bearer session_id checked_at
    source ←
        select_one session (λ s. s.session_id == session_id && is_active s.status)
          (Error.authority "session unavailable")
    m ←
        select_one membership
          (λ r.
            r.membership_id == source.membership_id
            && r.identity_id == subject.identity_id
            && r.organization_id == subject.organization_id
            && is_active r.status)
          (Error.authority "active membership required")
    require (nat_eq m.authorization_version subject.authorization_version)
        (Error.authority "authorization version stale")
    require (nat_eq m.entitlement_version subject.entitlement_version)
        (Error.authority "entitlement version stale")
    require_scope subject.organization_id subject.tenant_id
    digest ← lift (token_digest draws.token)
    pure (record {
      ttl = ttl;
      consumer = normalized_consumer;
      subject = subject;
      source = source;
      digest = digest;
    })

  unfoldable pub issue_handoff_rows :
      HandoffInput → String → HandoffDraws → ℕ → Tx (String × String)
  issue_handoff_rows input session_id draws now = do
    insert consumer_handoff handoff_allowed (record {
      challenge_id = draws.handoff_id;
      token_sha256 = input.digest;
      account_id = input.subject.account_id;
      consumed_at = none;
      revoked_at = none;
      status = Status.active;
      created_at = now;
      details = record {
        consumer = input.consumer;
        identity_id = input.subject.identity_id;
        membership_id = input.source.membership_id;
        organization_id = input.subject.organization_id;
        tenant_id = input.subject.tenant_id;
        source_session_id = session_id;
        authorization_version = input.subject.authorization_version;
        entitlement_version = input.subject.entitlement_version;
        expires_at = now + seconds input.ttl;
      };
    })
    pure (draws.handoff_id, draws.token)

  unfoldable pub issue_consumer_handoff :
      String → String → String → ℤ → HandoffDraws → ℕ → ℕ → Action (String × String)
  unfolding handoff_checks issue_handoff_rows
  issue_consumer_handoff session_bearer session_id consumer ttl_seconds draws checked_at now =
      chain
        (reading (handoff_checks session_bearer session_id consumer ttl_seconds draws checked_at))
        λ input. with_connection (issue_handoff_rows input session_id draws now)

  -- The digest and the normalized consumer.
  unfoldable pub handoff_input : String → String → Tx (String × String)
  handoff_input token consumer = do
    digest ← lift (token_digest token)
    normalized_consumer ← lift (normalize_symbol consumer)
    require (normalized_consumer == "adforge") (Error.authority "unsupported handoff consumer")
    pure (digest, normalized_consumer)

  -- The clock is read again by the projection of the source session.
  unfoldable pub consume_handoff_rows : String → String → ℕ → ℕ → Tx ConsumerHandoffProjection
  unfolding check_handoff check_source check_parties require_scope hydration_of checked_handoff
  consume_handoff_rows digest consumer now projected_at = do
    h ← select_one consumer_handoff (λ r. r.token_sha256 == digest) handoff_unavailable
    check_handoff consumer now h
    check_source now h
    check_parties h
    of ← require_scope h.details.organization_id h.details.tenant_id
    project_authorized_subject h.details.source_session_id projected_at
    rows ← gets (active_references h.details.organization_id)
    hydration ←
        lift (hydration_of h.details.organization_id h.details.tenant_id of.hydration_version rows)
    updated ←
        update consumer_handoff (λ r. r.challenge_id == h.challenge_id && is_open r) (consume now)
    require (nat_eq updated 1) handoff_unavailable
    lift (
        checked_handoff (record {
          handoff_id = h.challenge_id;
          consumer = h.details.consumer;
          identity_id = h.details.identity_id;
          account_id = h.account_id;
          membership_id = h.details.membership_id;
          organization_id = h.details.organization_id;
          tenant_id = h.details.tenant_id;
          authorization_version = h.details.authorization_version;
          entitlement_version = h.details.entitlement_version;
          hydration = hydration;
        }))

  unfoldable pub consume_consumer_handoff :
      String → String → ℕ → ℕ → Action ConsumerHandoffProjection
  unfolding handoff_input consume_handoff_rows
  consume_consumer_handoff token consumer now projected_at =
      chain (reading (handoff_input token consumer))
        λ input. immediate (consume_handoff_rows input.0 input.1 now projected_at)

  unfoldable pub revoke_handoff_rows : String → ℕ → Tx (Unit {0})
  revoke_handoff_rows handoff_id now = do
    updated ← update consumer_handoff (λ r. r.challenge_id == handoff_id && is_open r) (revoke now)
    require (nat_eq updated 1) (Error.authority "active handoff unavailable")

  unfoldable pub revoke_consumer_handoff : String → ℕ → Action (Unit {0})
  unfolding revoke_handoff_rows
  revoke_consumer_handoff handoff_id now =
      chain (reading (lift (validate_typed_id handoff_id "hnd")))
        λ _. with_connection (revoke_handoff_rows handoff_id now)
