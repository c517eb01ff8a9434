-- ===== src/Store/Sound/Complete.antt =====
-- `project_authorized_subject` returns where the rows allow it.
use anar_core.Base.{ℕ, String, ◌≡◌, refl, ◌↔◌, eq_iff}
use anar_core.Platform.{Platform}
use anar_core.Contracts.Projection.{AuthorizedSubject}
use anar_core.Database.Rows.{Db, Session, Membership}
use anar_core.Database.Tx.{ok, statements}
use anar_core.Store.Ended.Loaded.{lt→ltb, nat_eq_refl}
use anar_core.Store.Subject.Graph.{
  Graph, live_session, authority_graph, check_graph, session_membership,
}
use anar_core.Store.Subject.Grants.{binding_contracts}
use anar_core.Store.Subject.Project.{subject_of, project_authorized_subject}
use anar_core.Store.Sound.Facts.{IsLive, IsGraph, IsSound, IsMember}
use anar_core.Store.Sound.Granted.{load_grants_returns}
use anar_core.Store.Sound.Told.{subject_of_returns}
use anar_core.Store.Sound.Subject.{IsAuthorized, project_authorized_subject-IsAuthorized}

live_session_returns :
    (id : String) (now : ℕ) (db : Db) (s : Session)
    → IsLive id now db s
    → live_session id now db ≡ (ok s, db)
unfolding live_session statements
live_session_returns id now db s l =
    rw l.found (rw l.active (rw (lt→ltb _ _ l.in_time) (rw l.unrevoked refl)))

authority_graph_returns :
    (s : Session) (parent : String) (db : Db) (g : Graph)
    → IsGraph s parent db g
    → authority_graph s parent db ≡ (ok g, db)
unfolding authority_graph statements
authority_graph_returns s parent db g i = rw i.account_session_found (
    rw i.credential_found
      (rw i.account_found (rw i.identity_found (rw i.organization_found (rw i.tenant_found refl)))))

check_graph_returns :
    (now : ℕ) (s : Session) (g : Graph) (db : Db)
    → IsSound now s g
    → check_graph now s g db ≡ (ok tt, db)
unfolding check_graph statements
check_graph_returns now s g db i = rw i.parent_active (
    rw i.parent_unrevoked (
      rw (lt→ltb _ _ i.parent_in_time) (
        rw ((eq_iff _ _).1 i.same_identity) (
          rw ((eq_iff _ _).1 i.same_account) (
            rw ((eq_iff _ _).1 i.account_of_identity) (
              rw ((eq_iff _ _).1 i.tenant_of_organization) (
                rw i.credential_active (
                  rw i.parent_current (
                    rw i.current (
                      rw (nat_eq_refl g.account_session.credential_revision) (
                        rw i.identity_active (
                          rw i.account_active
                            (rw i.organization_active (rw i.tenant_active refl))))))))))))))

session_membership_returns :
    (s : Session) (db : Db) (m : Membership)
    → IsMember s db m
    → session_membership s db ≡ (ok m, db)
unfolding session_membership statements
session_membership_returns s db m i = rw i.found (
    rw i.active (
      rw ((eq_iff _ _).1 i.same_identity) (
        rw ((eq_iff _ _).1 i.same_organization) (
          rw i.authorization_current (
            rw (nat_eq_refl m.authorization_version)
              (rw i.entitlement_current (rw (nat_eq_refl m.entitlement_version) refl)))))))

module _ ⦃platform : Platform⦄ where
  project_authorized_subject_returns :
      (id : String) (now : ℕ) (db : Db) (subject : AuthorizedSubject)
      → IsAuthorized id now db subject
      → project_authorized_subject id now db ≡ (ok subject, db)
  unfolding project_authorized_subject statements authority_graph check_graph session_membership
      subject_of binding_contracts
  project_authorized_subject_returns id now db subject a = rw a.valid_id (
      rw (live_session_returns id now db a.session a.live) (
        rw a.parent_is (
          rw (authority_graph_returns a.session a.parent db a.graph a.graph_is) (
            rw (check_graph_returns now a.session a.graph db a.sound) (
              rw (session_membership_returns a.session db a.member a.member_is) (
                rw (load_grants_returns a.member.membership_id db a.grants a.granting)
                  (subject_of_returns a.session a.member a.grants db subject a.describes)))))))

  -- `project_authorized_subject` returns a subject exactly when the rows authorize it: the session,
  -- its parent, the graph behind them, the membership and all its grants are as `IsAuthorized` says,
  -- and the subject describes them; it changes nothing.
  pub project_authorized_subject_iff :
      (id : String) (now : ℕ) (db : Db) (subject : AuthorizedSubject)
      → (project_authorized_subject id now db ≡ (ok subject, db)) ↔ IsAuthorized id now db subject
  project_authorized_subject_iff id now db subject = (
    λ h. ((project_authorized_subject-IsAuthorized id now db).at subject db h).0,
    project_authorized_subject_returns id now db subject,
  )
