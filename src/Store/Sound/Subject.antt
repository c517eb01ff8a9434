-- ===== src/Store/Sound/Subject.antt =====
-- `project_authorized_subject` and `authenticate`: what a projected subject rests on.
use anar_core.Base.{ℕ, String, true, some, ◌≡◌, sym, ap, ◌∙◌, ◌==◌}
use anar_core.Platform.{Platform}
use anar_core.Base.Table.{find_where}
use anar_core.Database.Rows.{Db, Session, Membership}
use anar_core.Database.Tx.{ok, Connection, reading}
use anar_core.Store.Replay.Spent.{with_state}
use anar_core.Database.Ensures.{
  Ensures, after_lift_then, after_or_raise, after_require, after_select_one, ensured,
}
use anar_core.Contracts.TypedId.{validate_typed_id}
use anar_core.Contracts.Projection.{AuthorizedSubject}
use anar_core.Store.Subject.Graph.{
  Graph, live_session, authority_graph, check_graph, session_membership,
}
use anar_core.Store.Subject.Grants.{Grants, load_grants}
use anar_core.Store.Subject.Project.{
  project_authorized_subject, project, authenticate_rows, authenticate,
}
use anar_core.Store.Sound.Facts.{
  after_reading, after_reading_then, IsLive, live_session-IsLive, IsGraph, authority_graph-IsGraph,
  IsSound, check_graph-IsSound, IsMember, session_membership-IsMember,
}
use anar_core.Store.Sound.Granted.{IsGranting, load_grants-IsGranting}
use anar_core.Store.Sound.Told.{Describes, subject_of-Describes}

module _ ⦃platform : Platform⦄ where
  -- All that the rows say behind a subject that was projected at the time `now`.
  pub record IsAuthorized (id : String) (now : ℕ) (db : Db) (subject : AuthorizedSubject)
      : Type 0 where
    pub normalized : String
    pub valid_id : validate_typed_id id "ses" ≡ ok normalized
    pub session : Session
    pub live : IsLive id now db session
    pub parent : String
    pub parent_is : session.account_session_id ≡ some parent
    pub graph : Graph
    pub graph_is : IsGraph session parent db graph
    pub sound : IsSound now session graph
    pub member : Membership
    pub member_is : IsMember session db member
    pub grants : Grants
    pub granting : IsGranting member.membership_id db grants
    pub describes : Describes session member grants subject

  pub project_authorized_subject-IsAuthorized :
      (id : String) (now : ℕ) (db : Db)
      → Ensures
          (project_authorized_subject id now)
          db
          (λ subject after. IsAuthorized id now db subject × (after ≡ db))
  unfolding project_authorized_subject
  project_authorized_subject-IsAuthorized id now db = after_lift_then _ λ normalized valid.
      after_reading (live_session id now) (live_session-IsLive id now db) λ s live.
        after_or_raise _ _ λ parent parent_is.
          after_reading (authority_graph s parent) (authority_graph-IsGraph s parent db) λ g g_is.
            after_reading_then (check_graph now s g) (check_graph-IsSound now s g db) λ _ sound.
              after_reading (session_membership s) (session_membership-IsMember s db) λ m m_is.
                after_reading (load_grants m.membership_id)
                  (load_grants-IsGranting m.membership_id db)
                  λ grants granting. ensured λ subject after h.
                    let told = (subject_of-Describes s m grants db).at subject after h in
                    (
                      record {
                        normalized = normalized;
                        valid_id = valid;
                        session = s;
                        live = live;
                        parent = parent;
                        parent_is = parent_is;
                        graph = g;
                        graph_is = g_is;
                        sound = sound;
                        member = m;
                        member_is = m_is;
                        grants = grants;
                        granting = granting;
                        describes = told.0;
                      },
                      told.1,
                    )

  -- What `authenticate` has found of a bearer.
  pub record IsAuthenticated (bearer id : String) (now : ℕ) (db : Db) (subject : AuthorizedSubject)
      : Type 0 where
    pub row : Session
    pub found : find_where (λ r. r.bearer_sha256 == platform.sha256 bearer) db.sessions ≡ some row
    pub same : platform.compare_digest row.session_id id ≡ some true
    pub authorized : IsAuthorized id now db subject

  pub authenticate_rows-IsAuthenticated :
      (bearer id : String) (now : ℕ) (db : Db)
      → Ensures
          (authenticate_rows bearer id now)
          db
          (λ subject after. IsAuthenticated bearer id now db subject × (after ≡ db))
  unfolding authenticate_rows
  authenticate_rows-IsAuthenticated bearer id now db = after_lift_then _ λ _ _.
      after_require _ _ λ _. after_select_one _ _ _ λ row found. after_or_raise _ _ λ b compared.
        after_require _ _ λ same. ensured λ subject after h.
          let authorized = (project_authorized_subject-IsAuthorized id now db).at subject after h in
          (
            record {
              row = row;
              found = found;
              same = compared ∙ ap some same;
              authorized = authorized.0;
            },
            authorized.1,
          )

  -- `authenticate` returns a subject only for the bearer of the session that it names, and only if
  -- the session, its parent account session, the credential, the identity, the account, the
  -- organization, the tenant, the membership and all that its roles, entitlements and bindings refer
  -- to are active in the rows, the two sessions are in time and not revoked, and the revision and the
  -- versions are the current ones; the subject says what these rows say. It changes nothing.
  pub authenticate-IsAuthenticated :
      (bearer id : String) (now : ℕ) (c c' : Connection) (subject : AuthorizedSubject)
      → authenticate bearer id now c ≡ (ok subject, c')
      → IsAuthenticated bearer id now c.working subject × (c' ≡ c)
  unfolding authenticate reading
  authenticate-IsAuthenticated bearer id now c c' subject h = (
    ((authenticate_rows-IsAuthenticated bearer id now c.working).at subject _
        (with_state _ (ap (λ r. r.0) h))).0,
    ap (λ r. r.1) (sym h),
  )

  -- A projection that returned has read all of that.
  pub project-IsAuthorized :
      (id : String) (now : ℕ) (c : Connection) (subject : AuthorizedSubject)
      → (project id now c).0 ≡ ok subject
      → IsAuthorized id now c.working subject
  unfolding project reading
  project-IsAuthorized id now c subject h =
      ((project_authorized_subject-IsAuthorized id now c.working).at subject _ (with_state _ h)).0
