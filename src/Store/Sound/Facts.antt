-- ===== src/Store/Sound/Facts.antt =====
-- The rows that a projection has read, fact by fact.
use mathlib.Core.Path.{subst}
use anar_core.Base.{
  ℕ, ◌<◌, String, true, some, ◌≡◌, refl, sym, ◌==◌, eq_iff, ltb→lt, is_null, arith,
}
use anar_core.Base.Table.{find_where}
use anar_core.Database.Rows.{Db, Session, Membership, is_active}
use anar_core.Database.Tx.{Tx, ◌>>=◌, ◌>>◌, lift, Result, ok}
use anar_core.Database.Ensures.{
  Ensures, returned, after_call, after_require, after_select_one, lastly_require, ensured,
}
use anar_core.Store.Ended.Loaded.{nat_eq→≡}
use anar_core.Store.Subject.Graph.{
  Graph, live_session, authority_graph, check_graph, session_membership,
}

-- A call that changes nothing, and what follows it.
pub after_reading :
    {A B : Type 0} (m : Tx B) {f : B → Tx A} {db : Db} {P : B → Type 0} {Q : A → Db → Type 0}
    → Ensures m db (λ b after. P b × (after ≡ db))
    → ((b : B) → P b → Ensures (f b) db Q)
    → Ensures (m >>= f) db Q
after_reading m {f} {db} {P} {Q} facts rest = after_call m λ b mid h.
    let fact = facts.at b mid h in subst (λ s. Ensures (f b) s Q) (sym fact.1) (rest b fact.0)

pub after_reading_then :
    {A B : Type 0} (m : Tx B) {k : Tx A} {db : Db} {P : B → Type 0} {Q : A → Db → Type 0}
    → Ensures m db (λ b after. P b × (after ≡ db))
    → ((b : B) → P b → Ensures k db Q)
    → Ensures (m >> k) db Q
unfolding ◌>>◌
after_reading_then m facts rest = after_reading m facts rest

pub lastly_lift :
    {A : Type 0} (r : Result A) {db : Db} {Q : A → Db → Type 0}
    → ((a : A) → r ≡ ok a → Q a db)
    → Ensures (lift r) db Q
unfolding lift
lastly_lift r {db} {Q} q =
    ensured λ a after h. let state : db ≡ after = cc in subst (Q a) state (q a cc)

-- The session exists, is live and in time.
pub record IsLive (id : String) (now : ℕ) (db : Db) (s : Session) : Type 0 where
  pub found : find_where (λ r. r.session_id == id) db.sessions ≡ some s
  pub active : is_active s.status ≡ true
  pub in_time : now < s.expires_at
  pub unrevoked : is_null s.revoked_at ≡ true

pub live_session-IsLive :
    (id : String) (now : ℕ) (db : Db)
    → Ensures (live_session id now) db (λ s after. IsLive id now db s × (after ≡ db))
unfolding live_session
live_session-IsLive id now db = after_select_one _ _ _ λ s found. after_require _ _ λ active.
    after_require _ _ λ fresh. after_require _ _ λ unrevoked. returned _ (
      record { found = found; active = active; in_time = ltb→lt _ _ fresh; unrevoked = unrevoked },
      refl,
    )

-- The rows of the graph are those that the keys name.
pub record IsGraph (s : Session) (parent : String) (db : Db) (g : Graph) : Type 0 where
  pub account_session_found :
      find_where (λ r. r.account_session_id == parent) db.account_sessions ≡ some g.account_session
  pub credential_found :
      find_where (λ c. c.account_id == g.account_session.account_id) db.credentials
      ≡ some g.credential
  pub account_found :
      find_where (λ a. a.account_id == g.account_session.account_id) db.accounts ≡ some g.account
  pub identity_found :
      find_where (λ i. i.identity_id == g.account_session.identity_id) db.identities
      ≡ some g.identity
  pub organization_found :
      find_where (λ o. o.organization_id == s.organization_id) db.organizations
      ≡ some g.organization
  pub tenant_found : find_where (λ t. t.tenant_id == s.tenant_id) db.tenants ≡ some g.tenant

pub authority_graph-IsGraph :
    (s : Session) (parent : String) (db : Db)
    → Ensures (authority_graph s parent) db (λ g after. IsGraph s parent db g × (after ≡ db))
unfolding authority_graph
authority_graph-IsGraph s parent db = after_select_one _ _ _ λ a a_is.
    after_select_one _ _ _ λ c c_is. after_select_one _ _ _ λ p p_is.
      after_select_one _ _ _ λ i i_is. after_select_one _ _ _ λ o o_is.
        after_select_one _ _ _ λ t t_is. returned _ (
          record {
            account_session_found = a_is;
            credential_found = c_is;
            account_found = p_is;
            identity_found = i_is;
            organization_found = o_is;
            tenant_found = t_is;
          },
          refl,
        )

-- The rows are live, belong together, and carry the revision of the credential.
pub record IsSound (now : ℕ) (s : Session) (g : Graph) : Type 0 where
  pub parent_active : is_active g.account_session.status ≡ true
  pub parent_unrevoked : is_null g.account_session.revoked_at ≡ true
  pub parent_in_time : now < g.account_session.expires_at
  pub same_identity : g.account_session.identity_id ≡ s.identity_id
  pub same_account : g.account_session.account_id ≡ s.account_id
  pub account_of_identity : g.account.identity_id ≡ s.identity_id
  pub tenant_of_organization : g.tenant.organization_id ≡ s.organization_id
  pub credential_active : is_active g.credential.status ≡ true
  pub parent_current : g.credential.credential_revision ≡ g.account_session.credential_revision
  pub current : s.credential_revision ≡ g.account_session.credential_revision
  pub identity_active : is_active g.identity.status ≡ true
  pub account_active : is_active g.account.status ≡ true
  pub organization_active : is_active g.organization.status ≡ true
  pub tenant_active : is_active g.tenant.status ≡ true

pub check_graph-IsSound :
    (now : ℕ) (s : Session) (g : Graph) (db : Db)
    → Ensures (check_graph now s g) db (λ _ after. IsSound now s g × (after ≡ db))
unfolding check_graph
check_graph-IsSound now s g db = after_require _ _ λ live. after_require _ _ λ same.
    after_require _ _ λ current. lastly_require _ _ λ active. (
      record {
        parent_active = ground arith;
        parent_unrevoked = ground arith;
        parent_in_time = ltb→lt _ _ (ground arith);
        same_identity = (eq_iff _ _).0 (ground arith);
        same_account = (eq_iff _ _).0 (ground arith);
        account_of_identity = (eq_iff _ _).0 (ground arith);
        tenant_of_organization = (eq_iff _ _).0 (ground arith);
        credential_active = ground arith;
        parent_current = nat_eq→≡ _ _ (ground arith);
        current = nat_eq→≡ _ _ (ground arith);
        identity_active = ground arith;
        account_active = ground arith;
        organization_active = ground arith;
        tenant_active = ground arith;
      },
      refl,
    )

-- The membership of the session, at the versions that the session was derived with.
pub record IsMember (s : Session) (db : Db) (m : Membership) : Type 0 where
  pub found : find_where (λ r. r.membership_id == s.membership_id) db.memberships ≡ some m
  pub active : is_active m.status ≡ true
  pub same_identity : m.identity_id ≡ s.identity_id
  pub same_organization : m.organization_id ≡ s.organization_id
  pub authorization_current : s.authorization_version ≡ m.authorization_version
  pub entitlement_current : s.entitlement_version ≡ m.entitlement_version

pub session_membership-IsMember :
    (s : Session) (db : Db)
    → Ensures (session_membership s) db (λ m after. IsMember s db m × (after ≡ db))
unfolding session_membership
session_membership-IsMember s db = after_select_one _ _ _ λ m found. after_require _ _ λ active.
    after_require _ _ λ same. after_require _ _ λ authorization. after_require _ _ λ entitlement.
      returned _ (
        record {
          found = found;
          active = active;
          same_identity = (eq_iff _ _).0 (ground arith);
          same_organization = (eq_iff _ _).0 (ground arith);
          authorization_current = nat_eq→≡ _ _ authorization;
          entitlement_current = nat_eq→≡ _ _ entitlement;
        },
        refl,
      )
