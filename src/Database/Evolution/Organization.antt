-- ===== src/Database/Evolution/Organization.antt =====
-- The statements of the store on the tables of an organization's authority, as steps of the evolution.
use anar_core.Base.{ℕ, Bool, true, false, ◌≡◌, refl, ◌&&◌, ◌==◌, arith, inr}
use anar_core.Database.Definitions.{
  RoleDefinition, PolicyDefinition, EntitlementDefinition, RoleAssignment, EntitlementGrant,
  AdapterDefinition, OperationDefinition, GrantBinding, Invitation, HydrationEntry, spend,
}
use anar_core.Database.Rows.{
  Db, Challenge, Handoff, Session, Membership, Organization, Tenant, Status, is_active,
  is_suspended, is_current, rivals, become, revoke_session,
}
use anar_core.Database.Tx.{update, insert}
use anar_core.Database.Schema.{session, consumer_handoff}
use anar_core.Database.Authority.{
  organization, tenant, membership, role_definition, policy_definition, entitlement_definition,
  adapter_definition, operation_definition, role_assignment, entitlement_grant,
  adapter_grant_binding, invitation, hydration_reference, session_allowed, membership_allowed,
  invitation_allowed, handoff_allowed, organization_allowed,
}
use anar_core.Database.Evolve.{Evolves-insert, Evolves-update}
use anar_core.Database.Evolution.Members.{
  SessionMoves, session_stays, session_ends, MembershipMoves, membership_stays, InvitationMoves,
  invitation_stays, spends, OrganizationMoves, organization_stays, Lowers, one_current-insert,
  one_current-update,
}
use anar_core.Database.Evolution.Moves.{
  ChallengeMoves, stays_as, token_key, session_key, membership_key, code_key, organization_key,
  Evolution-refl,
}
use anar_core.Database.Evolution.Steps.{Steps, Steps-update, Steps-insert}
use anar_core.Database.Evolution.Tokens.{exists-or_right, exists-or_left}

pub revoke-sessions : (p : Session → Bool) (now : ℕ) → Steps (update session p (revoke_session now))
revoke-sessions p now = Steps-update session p (revoke_session now) λ db. assumption (
  Evolution-refl db,
  Evolves-update session_key SessionMoves session_stays p (revoke_session now) db.sessions
      (λ s. refl) (λ s _. session_ends now refl),
)

pub insert-sessions : (row : Session) → Steps (insert session session_allowed row)
unfolding session_allowed
insert-sessions row = Steps-insert session session_allowed row λ db h. assumption (
  Evolution-refl db,
  Evolves-insert session_key SessionMoves session_stays row db.sessions (
      exists-or_left (λ r. r.session_id == row.session_id)
        (λ r. r.bearer_sha256 == row.bearer_sha256) db.sessions (ground arith)),
)

pub update-memberships :
    (p : Membership → Bool) (f : Membership → Membership)
    → ((m : Membership) → (f m).membership_id ≡ m.membership_id)
    → ((m : Membership) → p m ≡ true → MembershipMoves m (f m))
    → Lowers p f
    → Steps (update membership p f)
update-memberships p f keep move low = Steps-update membership p f λ db. assumption (
  Evolution-refl db,
  Evolves-update membership_key MembershipMoves membership_stays p f db.memberships keep move,
  one_current-update p f db.memberships low,
)

pub insert-memberships : (row : Membership) → Steps (insert membership membership_allowed row)
unfolding membership_allowed
insert-memberships row = Steps-insert membership membership_allowed row λ db h.
    let fresh =
      exists-or_left (λ r. r.membership_id == row.membership_id)
        (λ r. is_current row && rivals row r) db.memberships (ground arith) in
    let unrivalled =
      exists-or_right (λ r. r.membership_id == row.membership_id)
        (λ r. is_current row && rivals row r) db.memberships (ground arith) in
    assumption (
      Evolution-refl db,
      Evolves-insert membership_key MembershipMoves membership_stays row db.memberships fresh,
      one_current-insert row db.memberships unrivalled,
    )

-- What the three methods that end a membership do.
pub become-Moves :
    (status : Status) (m : Membership)
    → (is_active status ≡ false)
    → (is_suspended status ≡ true → is_active m.status ≡ true)
    → is_current m ≡ true
    → MembershipMoves m (become status m)
become-Moves status m inactive active was = record {
  same_identity = refl;
  same_organization = refl;
  authorization_grows = omega arith;
  entitlement_grows = omega arith;
  changes_version = inr (omega arith);
  was_active = λ h. cc;
  was_current = λ h. was;
}

pub insert-invitations : (row : Invitation) → Steps (insert invitation invitation_allowed row)
unfolding invitation_allowed
insert-invitations row = Steps-insert invitation invitation_allowed row λ db h. assumption (
  Evolution-refl db,
  Evolves-insert code_key InvitationMoves invitation_stays row db.invitations (
      exists-or_right (λ r. r.invitation_id == row.invitation_id)
        (λ r. r.code_sha256 == row.code_sha256) db.invitations (ground arith)),
)

pub spend-invitations :
    (p : Invitation → Bool)
    → ((i : Invitation) → p i ≡ true → is_active i.status ≡ true)
    → Steps (update invitation p spend)
spend-invitations p active = Steps-update invitation p spend λ db. assumption (
  Evolution-refl db,
  Evolves-update code_key InvitationMoves invitation_stays p spend db.invitations (λ i. refl)
      (λ i h. spends (active i h) refl),
)

pub insert-organizations :
    (row : Organization) → Steps (insert organization organization_allowed row)
unfolding organization_allowed
insert-organizations row = Steps-insert organization organization_allowed row λ db h. assumption (
  Evolution-refl db,
  Evolves-insert organization_key OrganizationMoves organization_stays row db.organizations
      (ground arith),
)

pub update-organizations :
    (p : Organization → Bool) (f : Organization → Organization)
    → ((o : Organization) → (f o).organization_id ≡ o.organization_id)
    → ((o : Organization) → OrganizationMoves o (f o))
    → Steps (update organization p f)
update-organizations p f keep move = Steps-update organization p f λ db. assumption (
  Evolution-refl db,
  Evolves-update organization_key OrganizationMoves organization_stays p f db.organizations keep
      (λ o _. move o),
)

pub insert-handoffs :
    (row : Challenge Handoff) → Steps (insert consumer_handoff handoff_allowed row)
unfolding handoff_allowed
insert-handoffs row = Steps-insert consumer_handoff handoff_allowed row λ db h. assumption (
  Evolution-refl db,
  Evolves-insert token_key ChallengeMoves stays_as row db.handoffs (
      exists-or_right (λ r. r.challenge_id == row.challenge_id)
        (λ r. r.token_sha256 == row.token_sha256) db.handoffs (ground arith)),
)

-- The tables of which the evolution says nothing.
pub tenant-Steps : (allowed : Db → Tenant → Bool) (row : Tenant) → Steps (insert tenant allowed row)
tenant-Steps allowed row = Steps-insert tenant allowed row λ db h. assumption (Evolution-refl db)

pub role_definition-Steps :
    (allowed : Db → RoleDefinition → Bool) (row : RoleDefinition)
    → Steps (insert role_definition allowed row)
role_definition-Steps allowed row =
    Steps-insert role_definition allowed row λ db h. assumption (Evolution-refl db)

pub policy_definition-Steps :
    (allowed : Db → PolicyDefinition → Bool) (row : PolicyDefinition)
    → Steps (insert policy_definition allowed row)
policy_definition-Steps allowed row =
    Steps-insert policy_definition allowed row λ db h. assumption (Evolution-refl db)

pub entitlement_definition-Steps :
    (allowed : Db → EntitlementDefinition → Bool) (row : EntitlementDefinition)
    → Steps (insert entitlement_definition allowed row)
entitlement_definition-Steps allowed row =
    Steps-insert entitlement_definition allowed row λ db h. assumption (Evolution-refl db)

pub adapter_definition-Steps :
    (allowed : Db → AdapterDefinition → Bool) (row : AdapterDefinition)
    → Steps (insert adapter_definition allowed row)
adapter_definition-Steps allowed row =
    Steps-insert adapter_definition allowed row λ db h. assumption (Evolution-refl db)

pub operation_definition-Steps :
    (allowed : Db → OperationDefinition → Bool) (row : OperationDefinition)
    → Steps (insert operation_definition allowed row)
operation_definition-Steps allowed row =
    Steps-insert operation_definition allowed row λ db h. assumption (Evolution-refl db)

pub role_assignment-Steps :
    (allowed : Db → RoleAssignment → Bool) (row : RoleAssignment)
    → Steps (insert role_assignment allowed row)
role_assignment-Steps allowed row =
    Steps-insert role_assignment allowed row λ db h. assumption (Evolution-refl db)

pub entitlement_grant-Steps :
    (allowed : Db → EntitlementGrant → Bool) (row : EntitlementGrant)
    → Steps (insert entitlement_grant allowed row)
entitlement_grant-Steps allowed row =
    Steps-insert entitlement_grant allowed row λ db h. assumption (Evolution-refl db)

pub adapter_grant_binding-Steps :
    (allowed : Db → GrantBinding → Bool) (row : GrantBinding)
    → Steps (insert adapter_grant_binding allowed row)
adapter_grant_binding-Steps allowed row =
    Steps-insert adapter_grant_binding allowed row λ db h. assumption (Evolution-refl db)

pub hydration_reference-Steps :
    (allowed : Db → HydrationEntry → Bool) (row : HydrationEntry)
    → Steps (insert hydration_reference allowed row)
hydration_reference-Steps allowed row =
    Steps-insert hydration_reference allowed row λ db h. assumption (Evolution-refl db)

pub ruleset organization_rules = (
  revoke-sessions, insert-sessions, insert-memberships, insert-invitations, spend-invitations,
  insert-organizations, insert-handoffs, tenant-Steps, role_definition-Steps,
  policy_definition-Steps, entitlement_definition-Steps, adapter_definition-Steps,
  operation_definition-Steps, role_assignment-Steps, entitlement_grant-Steps,
  adapter_grant_binding-Steps, hydration_reference-Steps,
)
