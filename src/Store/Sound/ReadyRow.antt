-- ===== src/Store/Sound/ReadyRow.antt =====
-- The sessions that the query of `ready` selects.
use anar_core.Base.{
  ℕ, ◌<◌, String, Bool, true, false, Option, none, some, ◌≡◌, refl, ◌&&◌, ◌==◌, &&-parts, nat_eq,
  ltb, ltb→lt, is_null,
}
use anar_core.Base.Table.{exists_where}
use anar_core.Database.Rows.{Db, Session, is_active}
use anar_core.Store.Ended.Loaded.{lt→ltb}
use anar_core.Store.Subject.Project.{has_ready_parent, is_ready_session}

-- A session that is worth a projection: it is live and in time, and so is its parent account session,
-- which is of the same identity and account and of the revision of an active credential; account,
-- identity, membership, organization and tenant are active, belong together, and the versions of the
-- membership are those of the session.
pub record IsReady (now : ℕ) (db : Db) (s : Session) : Type 0 where
  pub active : is_active s.status ≡ true
  pub in_time : now < s.expires_at
  pub unrevoked : is_null s.revoked_at ≡ true
  pub parent : String
  pub parent_is : s.account_session_id ≡ some parent
  pub parent_found :
      exists_where
        (λ p.
          p.account_session_id == parent
          && is_active p.status
          && ltb now p.expires_at
          && is_null p.revoked_at
          && p.identity_id == s.identity_id
          && p.account_id == s.account_id
          && nat_eq p.credential_revision s.credential_revision
          && exists_where
              (λ c.
                c.account_id == s.account_id
                && is_active c.status
                && nat_eq c.credential_revision p.credential_revision)
              db.credentials)
        db.account_sessions
      ≡ true
  pub account_found :
      exists_where
        (λ a. a.account_id == s.account_id && a.identity_id == s.identity_id && is_active a.status)
        db.accounts
      ≡ true
  pub identity_found :
      exists_where (λ i. i.identity_id == s.identity_id && is_active i.status) db.identities ≡ true
  pub membership_found :
      exists_where
        (λ m.
          m.membership_id == s.membership_id
          && is_active m.status
          && m.identity_id == s.identity_id
          && m.organization_id == s.organization_id
          && nat_eq s.authorization_version m.authorization_version
          && nat_eq s.entitlement_version m.entitlement_version)
        db.memberships
      ≡ true
  pub organization_found :
      exists_where
        (λ o. o.organization_id == s.organization_id && is_active o.status)
        db.organizations
      ≡ true
  pub tenant_found :
      exists_where
        (λ t.
          t.tenant_id == s.tenant_id
          && t.organization_id == s.organization_id
          && is_active t.status)
        db.tenants
      ≡ true

parent_named :
    {A : Type 0} (o : Option A) (test : A → Bool)
    → elim o [ none ↦ false | some a ↦ test a ] ≡ true
    → (a : A) × (o ≡ some a) × (test a ≡ true)
parent_named none test h = cc
parent_named (some a) test h = (a, refl, h)

pub is_ready_session-IsReady :
    (now : ℕ) (db : Db) (s : Session) → is_ready_session now db s ≡ true → IsReady now db s
unfolding is_ready_session has_ready_parent
is_ready_session-IsReady now db s h =
    let (h8, tenant) = &&-parts _ _ h in
    let (h7, organization) = &&-parts _ _ h8 in
    let (h6, membership) = &&-parts _ _ h7 in
    let (h5, identity) = &&-parts _ _ h6 in
    let (h4, account) = &&-parts _ _ h5 in
    let (h3, has_parent) = &&-parts _ (has_ready_parent now db s) h4 in
    let (h2, unrevoked) = &&-parts _ _ h3 in
    let (active, fresh) = &&-parts _ _ h2 in
    let (parent, parent_is, found) = parent_named s.account_session_id _ has_parent in
    record {
      active = active;
      in_time = ltb→lt _ _ fresh;
      unrevoked = unrevoked;
      parent = parent;
      parent_is = parent_is;
      parent_found = found;
      account_found = account;
      identity_found = identity;
      membership_found = membership;
      organization_found = organization;
      tenant_found = tenant;
    }

pub IsReady-is_ready_session :
    (now : ℕ) (db : Db) (s : Session) → IsReady now db s → is_ready_session now db s ≡ true
unfolding is_ready_session has_ready_parent
IsReady-is_ready_session now db s r = rw r.active (
    rw (lt→ltb _ _ r.in_time) (
      rw r.unrevoked (
        rw r.parent_is (
          rw r.parent_found (
            rw r.account_found (
              rw r.identity_found
                (rw r.membership_found (rw r.organization_found r.tenant_found))))))))
