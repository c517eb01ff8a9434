-- ===== src/Store/Evolution/Authority.antt =====
-- The bodies of the transactions on an organization's authority.
use anar_core.Base.{ℕ, ◌+◌, String, Bool, true, false, refl, inl, arith, ◌≡◌, ◌&&◌, ◌==◌, ltb}
use anar_core.Platform.{Platform}
use anar_core.Contracts.Json.{Json, Items, nil, cons}
use anar_core.Contracts.Check.{VersionedDefinitionRef}
use anar_core.Database.Status.{Status, is_active, is_suspended}
use anar_core.Database.Rows.{
  Db, Session, Membership, Organization, is_current, become, Challenge, Handoff,
}
use anar_core.Database.Definitions.{spend}
use anar_core.Database.Tx.{Error, Table, insert, update}
use anar_core.Database.Authority.{membership, organization, invitation}
use anar_core.Database.Evolution.Members.{become-Lowers}
use anar_core.Database.Evolution.Steps.{
  Steps, Steps-bind, Steps-then, Steps-require, Steps-when, Steps-gets, steps_rules,
}
use anar_core.Database.Evolution.Tables.{table_rules}
use anar_core.Database.Evolution.Organization.{
  organization_rules, update-memberships, update-organizations, become-Moves, spend-invitations,
}
use anar_core.Store.Subject.Graph.{
  Graph, live_session, authority_graph, check_graph, session_membership,
}
use anar_core.Store.Subject.Grants.{Grants, load_grants}
use anar_core.Store.Subject.Project.{subject_of, project_authorized_subject}
use anar_core.Store.Organization.Invitation.{
  RedeemDraws, assign_roles, grant_entitlements, usable_invitation, redeem_rows,
}
use anar_core.Store.Organization.Grant.{grant_rows, insert_or_ignore, spine_rows}
use anar_core.Store.Organization.Membership.{revoke_membership_sessions, end_membership_rows}
use anar_core.Store.Organization.Hydration.{hydration_rows}
use anar_core.Store.Organization.Handoff.{
  HandoffInput, HandoffDraws, require_scope, check_handoff, check_source, check_parties,
  issue_handoff_rows, consume_handoff_rows, revoke_handoff_rows,
}

ruleset authority_rules = (steps_rules, table_rules, organization_rules)

-- A row that only counts up.
counts_up :
    (p : Membership → Bool)
    → Steps (
        update membership p (λ m. record m { authorization_version = m.authorization_version + 1 }))
counts_up p =
    update-memberships p _ (λ m. refl)
      (λ m h. record {
        same_identity = refl;
        same_organization = refl;
        authorization_grows = omega arith;
        entitlement_grows = omega arith;
        changes_version = inl refl;
        was_active = λ q. q;
        was_current = λ q. q;
      })
      (record {
        same_identity = λ m. refl;
        same_organization = λ m. refl;
        was_current = λ m found q. q;
      })

counts_references :
    (p : Organization → Bool)
    → Steps (update organization p (λ o. record o { hydration_version = o.hydration_version + 1 }))
counts_references p =
    update-organizations p _ (λ o. refl)
      (λ o. record { same_name = refl; same_status = refl; hydration_grows = omega arith })

spends_usable :
    (id : String)
    → Steps (
        update invitation
          (λ r. r.invitation_id == id && is_active r.status && ltb r.consumed_uses r.maximum_uses)
          spend)
spends_usable id = spend-invitations _ (λ i h. ground arith)

pub assign_roles-Steps :
    (items : Items) (m : String) (draws : ℕ → String) (i now : ℕ)
    → Steps (assign_roles items m draws i now)
unfolding assign_roles
assign_roles-Steps nil m draws i now = search authority_rules
assign_roles-Steps (cons item rest) m draws i now =
    Steps-then (search authority_rules depth 12) (assign_roles-Steps rest m draws _ now)

pub grant_entitlements-Steps :
    (items : Items) (m : String) (draws : ℕ → String) (i now : ℕ)
    → Steps (grant_entitlements items m draws i now)
unfolding grant_entitlements
grant_entitlements-Steps nil m draws i now = search authority_rules
grant_entitlements-Steps (cons item rest) m draws i now =
    Steps-then (search authority_rules depth 12) (grant_entitlements-Steps rest m draws _ now)

pub insert_or_ignore-Steps :
    {A : Type 0} (t : Table A) (conflict allowed : Db → A → Bool) (row : A)
    → Steps (insert t allowed row)
    → Steps (insert_or_ignore t conflict allowed row)
unfolding insert_or_ignore
insert_or_ignore-Steps t conflict allowed row s = Steps-bind (Steps-gets _) (λ b. Steps-when _ s)

pub spine_rows-Steps : (now : ℕ) → Steps (spine_rows now)
unfolding spine_rows
spine_rows-Steps now = search (authority_rules, insert_or_ignore-Steps) depth 12

live_session-Steps : (id : String) (now : ℕ) → Steps (live_session id now)
unfolding live_session
live_session-Steps id now = search authority_rules depth 12

authority_graph-Steps : (s : Session) (id : String) → Steps (authority_graph s id)
unfolding authority_graph
authority_graph-Steps s id = search authority_rules depth 15

check_graph-Steps : (now : ℕ) (s : Session) (g : Graph) → Steps (check_graph now s g)
unfolding check_graph
check_graph-Steps now s g = search authority_rules depth 12

session_membership-Steps : (s : Session) → Steps (session_membership s)
unfolding session_membership
session_membership-Steps s = search authority_rules depth 15

load_grants-Steps : (m : String) → Steps (load_grants m)
unfolding load_grants
load_grants-Steps m = search authority_rules depth 20

check_handoff-Steps :
    (consumer : String) (now : ℕ) (h : Challenge Handoff) → Steps (check_handoff consumer now h)
unfolding check_handoff
check_handoff-Steps consumer now h = search authority_rules depth 12

check_source-Steps : (now : ℕ) (h : Challenge Handoff) → Steps (check_source now h)
unfolding check_source
check_source-Steps now h = search authority_rules depth 15

check_parties-Steps : (h : Challenge Handoff) → Steps (check_parties h)
unfolding check_parties
check_parties-Steps h = search authority_rules depth 15

require_scope-Steps : (o t : String) → Steps (require_scope o t)
unfolding require_scope
require_scope-Steps o t = search authority_rules depth 12

module _ ⦃platform : Platform⦄ where
  usable_invitation-Steps : (digest : String) (now : ℕ) → Steps (usable_invitation digest now)
  unfolding usable_invitation
  usable_invitation-Steps digest now = search authority_rules depth 12

  pub redeem_rows-Steps :
      (digest identity : String) (draws : RedeemDraws) (now : ℕ)
      → Steps (redeem_rows digest identity draws now)
  unfolding redeem_rows
  redeem_rows-Steps digest identity draws now =
      search
        (
          authority_rules, spends_usable, usable_invitation-Steps, assign_roles-Steps,
          grant_entitlements-Steps,
        )
        depth 25

  pub grant_rows-Steps :
      (m adapter operation : String) (entitlement : VersionedDefinitionRef) (scope : Json)
      (policy : VersionedDefinitionRef) (version binding : String) (now : ℕ)
      → Steps (grant_rows m adapter operation entitlement scope policy version binding now)
  unfolding grant_rows
  grant_rows-Steps m adapter operation entitlement scope policy version binding now =
      search (authority_rules, counts_up) depth 12

  pub revoke_membership_sessions-Steps :
      (m : String) (now : ℕ) → Steps (revoke_membership_sessions m now)
  unfolding revoke_membership_sessions
  revoke_membership_sessions-Steps m now = search authority_rules depth 12

  pub end_membership_rows-Steps :
      (m : String) (from : Membership → Bool) (to : Status) (e : Error) (now : ℕ)
      → ((r : Membership) → from r ≡ true → is_current r ≡ true)
      → ((r : Membership) → from r ≡ true → is_suspended to ≡ true → is_active r.status ≡ true)
      → is_active to ≡ false
      → Steps (end_membership_rows m from to e now)
  unfolding end_membership_rows
  end_membership_rows-Steps m from to e now current active ends =
      Steps-bind
        (update-memberships _ (become to) (λ r. refl)
          (λ r h. become-Moves to r ends (active r (ground arith)) (current r (ground arith)))
          (become-Lowers _ to (λ r h. current r (ground arith))))
        λ n. Steps-then (Steps-require _ e) (revoke_membership_sessions-Steps m now)

  pub hydration_rows-Steps :
      (o kind target version id : String) (now : ℕ)
      → Steps (hydration_rows o kind target version id now)
  unfolding hydration_rows
  hydration_rows-Steps o kind target version id now =
      search (authority_rules, counts_references) depth 12

  pub issue_handoff_rows-Steps :
      (input : HandoffInput) (s : String) (draws : HandoffDraws) (now : ℕ)
      → Steps (issue_handoff_rows input s draws now)
  unfolding issue_handoff_rows
  issue_handoff_rows-Steps input s draws now = search authority_rules depth 12

  pub revoke_handoff_rows-Steps : (h : String) (now : ℕ) → Steps (revoke_handoff_rows h now)
  unfolding revoke_handoff_rows
  revoke_handoff_rows-Steps h now = search authority_rules depth 12

  subject_of-Steps : (s : Session) (m : Membership) (g : Grants) → Steps (subject_of s m g)
  unfolding subject_of
  subject_of-Steps s m g = search authority_rules depth 12

  pub project_authorized_subject-Steps :
      (id : String) (now : ℕ) → Steps (project_authorized_subject id now)
  unfolding project_authorized_subject
  project_authorized_subject-Steps id now =
      search
        (
          authority_rules, live_session-Steps, authority_graph-Steps, check_graph-Steps,
          session_membership-Steps, load_grants-Steps, subject_of-Steps,
        )
        depth 20

  pub consume_handoff_rows-Steps :
      (digest consumer : String) (now projected_at : ℕ)
      → Steps (consume_handoff_rows digest consumer now projected_at)
  unfolding consume_handoff_rows
  consume_handoff_rows-Steps digest consumer now projected_at =
      search
        (
          authority_rules, check_handoff-Steps, check_source-Steps, check_parties-Steps,
          require_scope-Steps, project_authorized_subject-Steps,
        )
        depth 25
