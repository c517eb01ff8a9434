-- ===== src/Store/Sound/Handoff.antt =====
-- `consume_consumer_handoff`: what a handoff that was consumed has passed, and that it is spent.
use anar_core.Base.{
  ℕ, ◌<◌, String, true, some, ◌≡◌, refl, ◌==◌, ◌&&◌, eq_iff, ltb→lt, arith, &&-intro, is_null,
}
use anar_core.Base.Table.{find_where}
use anar_core.Database.Rows.{
  Db, Challenge, Handoff, Session, Identity, PersonalAccount, Membership, Organization, Tenant,
  is_active, is_open,
}
use anar_core.Database.Ensures.{
  Ensures, returned, after_require, after_select_one, after_select_one_then, lastly_require,
}
use anar_core.Store.Ended.Loaded.{nat_eq→≡}
use anar_core.Store.Organization.Handoff.{require_scope, check_handoff, check_source, check_parties}

-- The organization and the tenant, both active.
pub record HasScope (organization_id tenant_id : String) (db : Db) (of : Organization)
    : Type 0 where
  pub organization_found :
      find_where (λ o. o.organization_id == organization_id && is_active o.status) db.organizations
      ≡ some of
  pub tenant : Tenant
  pub tenant_found :
      find_where
        (λ t.
          t.tenant_id == tenant_id && t.organization_id == organization_id && is_active t.status)
        db.tenants
      ≡ some tenant

pub require_scope-HasScope :
    (o t : String) (db : Db)
    → Ensures (require_scope o t) db (λ of after. HasScope o t db of × (after ≡ db))
unfolding require_scope
require_scope-HasScope o t db = after_select_one _ _ _ λ of of_is.
    after_select_one_then _ _ _ λ within within_is.
      returned _
        (record { organization_found = of_is; tenant = within; tenant_found = within_is }, refl)

-- The handoff is open, in time, and for this consumer.
pub record IsOpenFor (consumer : String) (now : ℕ) (h : Challenge Handoff) : Type 0 where
  pub same_consumer : h.details.consumer ≡ consumer
  pub was_open : is_open h ≡ true
  pub in_time : now < h.details.expires_at

pub check_handoff-IsOpenFor :
    (consumer : String) (now : ℕ) (h : Challenge Handoff) (db : Db)
    → Ensures (check_handoff consumer now h) db (λ _ after. IsOpenFor consumer now h × (after ≡ db))
unfolding check_handoff
check_handoff-IsOpenFor consumer now h db = after_require _ _ λ same. after_require _ _ λ active.
    after_require _ _ λ unconsumed. after_require _ _ λ unrevoked. lastly_require _ _ λ fresh. (
      record {
        same_consumer = (eq_iff _ _).0 same;
        was_open = &&-intro _ _ (&&-intro _ _ active unconsumed) unrevoked;
        in_time = ltb→lt _ _ fresh;
      },
      refl,
    )

-- The session that the handoff comes from is live, and is the one that it was issued for.
pub record HasSource (now : ℕ) (h : Challenge Handoff) (db : Db) : Type 0 where
  pub session : Session
  pub found :
      find_where (λ r. r.session_id == h.details.source_session_id) db.sessions ≡ some session
  pub active : is_active session.status ≡ true
  pub unrevoked : is_null session.revoked_at ≡ true
  pub in_time : now < session.expires_at
  pub same_identity : session.identity_id ≡ h.details.identity_id
  pub same_account : session.account_id ≡ h.account_id
  pub same_membership : session.membership_id ≡ h.details.membership_id
  pub same_organization : session.organization_id ≡ h.details.organization_id
  pub same_tenant : session.tenant_id ≡ h.details.tenant_id
  pub authorization_current : session.authorization_version ≡ h.details.authorization_version
  pub entitlement_current : session.entitlement_version ≡ h.details.entitlement_version

pub check_source-HasSource :
    (now : ℕ) (h : Challenge Handoff) (db : Db)
    → Ensures (check_source now h) db (λ _ after. HasSource now h db × (after ≡ db))
unfolding check_source
check_source-HasSource now h db = after_select_one _ _ _ λ s found. after_require _ _ λ live.
    after_require _ _ λ same. after_require _ _ λ authorization. lastly_require _ _ λ entitlement. (
      record {
        session = s;
        found = found;
        active = ground arith;
        unrevoked = ground arith;
        in_time = ltb→lt _ _ (ground arith);
        same_identity = (eq_iff _ _).0 (ground arith);
        same_account = (eq_iff _ _).0 (ground arith);
        same_membership = (eq_iff _ _).0 (ground arith);
        same_organization = (eq_iff _ _).0 (ground arith);
        same_tenant = (eq_iff _ _).0 (ground arith);
        authorization_current = nat_eq→≡ _ _ authorization;
        entitlement_current = nat_eq→≡ _ _ entitlement;
      },
      refl,
    )

-- The identity, the account and the membership of the handoff are active, at its versions.
pub record HasParties (h : Challenge Handoff) (db : Db) : Type 0 where
  pub identity : Identity
  pub identity_found :
      find_where (λ i. i.identity_id == h.details.identity_id && is_active i.status) db.identities
      ≡ some identity
  pub account : PersonalAccount
  pub account_found :
      find_where
        (λ a.
          a.account_id == h.account_id
          && a.identity_id == h.details.identity_id
          && is_active a.status)
        db.accounts
      ≡ some account
  pub member : Membership
  pub member_found :
      find_where
        (λ r.
          r.membership_id == h.details.membership_id
          && r.identity_id == h.details.identity_id
          && r.organization_id == h.details.organization_id
          && is_active r.status)
        db.memberships
      ≡ some member
  pub authorization_current : member.authorization_version ≡ h.details.authorization_version
  pub entitlement_current : member.entitlement_version ≡ h.details.entitlement_version

pub check_parties-HasParties :
    (h : Challenge Handoff) (db : Db)
    → Ensures (check_parties h) db (λ _ after. HasParties h db × (after ≡ db))
unfolding check_parties
check_parties-HasParties h db = after_select_one_then _ _ _ λ i i_is.
    after_select_one_then _ _ _ λ a a_is. after_select_one _ _ _ λ m m_is.
      after_require _ _ λ authorization. lastly_require _ _ λ entitlement. (
        record {
          identity = i;
          identity_found = i_is;
          account = a;
          account_found = a_is;
          member = m;
          member_found = m_is;
          authorization_current = nat_eq→≡ _ _ authorization;
          entitlement_current = nat_eq→≡ _ _ entitlement;
        },
        refl,
      )
