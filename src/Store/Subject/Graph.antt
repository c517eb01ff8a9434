-- ===== src/Store/Subject/Graph.antt =====
-- The session, its parent account session with the graph behind it, and its membership.
use anar_core.Base.{ℕ, String, ◌&&◌, ◌==◌, ltb, nat_eq, is_null}
use anar_core.Database.Rows.{
  is_active, Session, AccountSession, PasswordCredential, PersonalAccount, Identity, Organization,
  Tenant, Membership,
}
use anar_core.Database.Tx.{Tx, Error, ◌>>=◌, ◌>>◌, pure, require, select_one}
use anar_core.Database.Schema.{
  session, account_session, password_credential, personal_account, identity,
}
use anar_core.Database.Authority.{organization, tenant, membership}

abbrev pub session_inactive : Error
session_inactive = Error.authority "session inactive"

abbrev pub graph_unavailable : Error
graph_unavailable = Error.authority "authority graph unavailable"

abbrev pub revision_stale : Error
revision_stale = Error.authority "credential revision stale"

-- The joined row of the authority graph.
pub record Graph : Type 0 where
  pub account_session : AccountSession
  pub credential : PasswordCredential
  pub account : PersonalAccount
  pub identity : Identity
  pub organization : Organization
  pub tenant : Tenant

-- The query; its tables are joined on their keys.
unfoldable pub authority_graph : Session → String → Tx Graph
authority_graph s parent_id = do
  parent ← select_one account_session (λ r. r.account_session_id == parent_id) graph_unavailable
  credential ←
      select_one password_credential (λ c. c.account_id == parent.account_id) graph_unavailable
  account ← select_one personal_account (λ a. a.account_id == parent.account_id) graph_unavailable
  owner ← select_one identity (λ i. i.identity_id == parent.identity_id) graph_unavailable
  of ← select_one organization (λ o. o.organization_id == s.organization_id) graph_unavailable
  within ← select_one tenant (λ t. t.tenant_id == s.tenant_id) graph_unavailable
  pure (record {
    account_session = parent;
    credential = credential;
    account = account;
    identity = owner;
    organization = of;
    tenant = within;
  })

-- The four tests of the graph, in the order of the source.
unfoldable pub check_graph : ℕ → Session → Graph → Tx (Unit {0})
check_graph now s g = do
  require
      (is_active g.account_session.status
        && is_null g.account_session.revoked_at
        && ltb now g.account_session.expires_at)
      (Error.authority "parent account session inactive")
  require
      (g.account_session.identity_id == s.identity_id
        && g.account_session.account_id == s.account_id
        && g.account.identity_id == s.identity_id
        && g.tenant.organization_id == s.organization_id)
      (Error.authority "authority graph mismatch")
  require
      (is_active g.credential.status
        && nat_eq g.credential.credential_revision g.account_session.credential_revision
        && nat_eq s.credential_revision g.account_session.credential_revision)
      revision_stale
  require
      (is_active g.identity.status
        && is_active g.account.status
        && is_active g.organization.status
        && is_active g.tenant.status)
      (Error.authority "authority graph inactive")

-- The session itself, live and in time.
unfoldable pub live_session : String → ℕ → Tx Session
live_session session_id now = do
  s ← select_one session (λ r. r.session_id == session_id) (Error.authority "session unavailable")
  require (is_active s.status) session_inactive
  require (ltb now s.expires_at) session_inactive
  require (is_null s.revoked_at) session_inactive
  pure s

-- The membership of a session, with the versions that the session was derived with.
unfoldable pub session_membership : Session → Tx Membership
session_membership s = do
  m ←
      select_one membership (λ r. r.membership_id == s.membership_id)
        (Error.authority "membership inactive")
  require (is_active m.status) (Error.authority "membership inactive")
  require (m.identity_id == s.identity_id && m.organization_id == s.organization_id)
      (Error.authority "membership authority mismatch")
  require (nat_eq s.authorization_version m.authorization_version)
      (Error.authority "authorization version stale")
  require (nat_eq s.entitlement_version m.entitlement_version)
      (Error.authority "entitlement version stale")
  pure m
