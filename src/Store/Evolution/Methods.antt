-- ===== src/Store/Evolution/Methods.antt =====
-- The calls on an organization's authority.
use anar_core.Base.{ℕ, String, Option, List, refl, arith}
use anar_core.Platform.{Platform}
use anar_core.Contracts.Json.{Json}
use anar_core.Contracts.Check.{VersionedDefinitionRef}
use anar_core.Database.Evolution.Moves.{Evolution-refl}
use anar_core.Database.Evolution.Steps.{steps_rules}
use anar_core.Database.Evolution.Organization.{organization_rules}
use anar_core.Database.Evolution.Actions.{
  Advances, Advances-chain, Advances-reading, Advances-with_connection, advance_rules,
}
use anar_core.Store.Input.{ℤ}
use anar_core.Store.Evolution.Authority.{
  spine_rows-Steps, redeem_rows-Steps, grant_rows-Steps, end_membership_rows-Steps,
  hydration_rows-Steps, issue_handoff_rows-Steps, consume_handoff_rows-Steps,
  revoke_handoff_rows-Steps,
}
use anar_core.Store.Organization.Invitation.{InvitationDraws, RedeemDraws}
use anar_core.Store.Organization.Derive.{DeriveDraws}
use anar_core.Store.Organization.Handoff.{HandoffDraws}
use anar_core.Store.Organization.Definitions.{
  create_organization, define_role, define_policy, define_entitlement, define_adapter,
  define_operation,
}
use anar_core.Store.Organization.Invitation.{issue_invitation, redeem_invitation}
use anar_core.Store.Organization.Grant.{grant_adapter_operation, ensure_cloud_spine_definitions}
use anar_core.Store.Organization.Derive.{derive_organization_session}
use anar_core.Store.Subject.Project.{create_session, authenticate, project, ready}
use anar_core.Store.Organization.Membership.{
  suspend_membership, leave_membership, revoke_membership,
}
use anar_core.Store.Organization.Hydration.{add_hydration_reference, project_hydration}
use anar_core.Store.Organization.Handoff.{
  issue_consumer_handoff, consume_consumer_handoff, revoke_consumer_handoff,
}

ruleset method_rules = (
  advance_rules, steps_rules, organization_rules, spine_rows-Steps, redeem_rows-Steps,
  grant_rows-Steps, hydration_rows-Steps, issue_handoff_rows-Steps, consume_handoff_rows-Steps,
  revoke_handoff_rows-Steps,
)

module _ ⦃platform : Platform⦄ where
  pub create_organization-Advances :
      (canonical_name : String) (organization_id : String) (tenant_id : String) (now : ℕ)
      → Advances (create_organization canonical_name organization_id tenant_id now)
  unfolding create_organization
  create_organization-Advances canonical_name organization_id tenant_id now =
      search method_rules depth 12

  pub define_role-Advances :
      (name : String) (grants : List String) (prohibitions : List String) (id : Option String)
      (version : ℤ) (drawn : String) (now : ℕ)
      → Advances (define_role name grants prohibitions id version drawn now)
  unfolding define_role
  define_role-Advances name grants prohibitions id version drawn now = search method_rules depth 12

  pub define_policy-Advances :
      (name : String) (version : ℤ) (now : ℕ) → Advances (define_policy name version now)
  unfolding define_policy
  define_policy-Advances name version now = search method_rules depth 12

  pub define_entitlement-Advances :
      (name : String) (id : Option String) (version : ℤ) (drawn : String) (now : ℕ)
      → Advances (define_entitlement name id version drawn now)
  unfolding define_entitlement
  define_entitlement-Advances name id version drawn now = search method_rules depth 12

  pub define_adapter-Advances :
      (name : String) (id : String) (now : ℕ) → Advances (define_adapter name id now)
  unfolding define_adapter
  define_adapter-Advances name id now = search method_rules depth 12

  pub define_operation-Advances :
      (adapter : String) (name : String) (id : String) (now : ℕ)
      → Advances (define_operation adapter name id now)
  unfolding define_operation
  define_operation-Advances adapter name id now = search method_rules depth 12

  pub issue_invitation-Advances :
      (organization_id : String) (tenant_id : String) (roles : List VersionedDefinitionRef)
      (entitlements : List VersionedDefinitionRef) (ttl : ℤ) (draws : InvitationDraws) (now : ℕ)
      (created_at : ℕ)
      → Advances
          (issue_invitation organization_id tenant_id roles entitlements ttl draws now created_at)
  unfolding issue_invitation
  issue_invitation-Advances organization_id tenant_id roles entitlements ttl draws now created_at =
      search method_rules depth 12

  pub redeem_invitation-Advances :
      (code : String) (identity_id : String) (draws : RedeemDraws) (now : ℕ)
      → Advances (redeem_invitation code identity_id draws now)
  unfolding redeem_invitation
  redeem_invitation-Advances code identity_id draws now = search method_rules depth 12

  pub grant_adapter_operation-Advances :
      (membership_id : String) (adapter : String) (operation : String)
      (entitlement : VersionedDefinitionRef) (scope : Json) (policy : VersionedDefinitionRef)
      (version : String) (binding_id : String) (now : ℕ)
      → Advances (
          grant_adapter_operation membership_id adapter operation entitlement scope policy version
            binding_id now)
  unfolding grant_adapter_operation
  grant_adapter_operation-Advances membership_id adapter operation entitlement scope policy version
        binding_id now =
      search method_rules depth 12

  pub ensure_cloud_spine_definitions-Advances :
      (created_at : ℕ) → Advances (ensure_cloud_spine_definitions created_at)
  unfolding ensure_cloud_spine_definitions
  ensure_cloud_spine_definitions-Advances created_at = search method_rules depth 12

  pub derive_organization_session-Advances :
      (bearer : String) (id : String) (organization_id : String) (ttl : ℤ) (draws : DeriveDraws)
      (checked_at : ℕ) (now : ℕ)
      → Advances (derive_organization_session bearer id organization_id ttl draws checked_at now)
  unfolding derive_organization_session
  derive_organization_session-Advances bearer id organization_id ttl draws checked_at now =
      search method_rules depth 12

  pub create_session-Advances :
      (identity_id : String) (account_id : String) (organization_id : String) (ttl : ℤ)
      → Advances (create_session identity_id account_id organization_id ttl)
  unfolding create_session
  create_session-Advances identity_id account_id organization_id ttl = search method_rules depth 12

  pub authenticate-Advances :
      (bearer : String) (id : String) (now : ℕ) → Advances (authenticate bearer id now)
  unfolding authenticate
  authenticate-Advances bearer id now = search method_rules depth 12

  pub project-Advances : (id : String) (now : ℕ) → Advances (project id now)
  unfolding project
  project-Advances id now = search method_rules depth 12

  pub ready-Advances : (now : ℕ) (later : ℕ → ℕ) → Advances (ready now later)
  unfolding ready
  ready-Advances now later = record { at = λ c ahead. (Evolution-refl c.committed, ahead) }

  pub suspend_membership-Advances : (id : String) (now : ℕ) → Advances (suspend_membership id now)
  unfolding suspend_membership
  suspend_membership-Advances id now = Advances-chain (Advances-reading _) λ _.
      Advances-with_connection
        (end_membership_rows-Steps id _ _ _ now (λ r h. ground arith) (λ r h q. h) refl)

  pub leave_membership-Advances : (id : String) (now : ℕ) → Advances (leave_membership id now)
  unfolding leave_membership
  leave_membership-Advances id now = Advances-chain (Advances-reading _) λ _.
      Advances-with_connection
        (end_membership_rows-Steps id _ _ _ now (λ r h. ground arith) (λ r h q. h) refl)

  pub revoke_membership-Advances : (id : String) (now : ℕ) → Advances (revoke_membership id now)
  unfolding revoke_membership
  revoke_membership-Advances id now = Advances-chain (Advances-reading _) λ _.
      Advances-with_connection
        (end_membership_rows-Steps id _ _ _ now (λ r h. h) (λ r h q. ground arith) refl)

  pub add_hydration_reference-Advances :
      (organization_id : String) (kind : String) (target : String) (version : String) (id : String)
      (now : ℕ)
      → Advances (add_hydration_reference organization_id kind target version id now)
  unfolding add_hydration_reference
  add_hydration_reference-Advances organization_id kind target version id now =
      search method_rules depth 12

  pub project_hydration-Advances :
      (organization_id : String) → Advances (project_hydration organization_id)
  unfolding project_hydration
  project_hydration-Advances organization_id = search method_rules depth 12

  pub issue_consumer_handoff-Advances :
      (bearer : String) (id : String) (consumer : String) (ttl : ℤ) (draws : HandoffDraws)
      (checked_at : ℕ) (now : ℕ)
      → Advances (issue_consumer_handoff bearer id consumer ttl draws checked_at now)
  unfolding issue_consumer_handoff
  issue_consumer_handoff-Advances bearer id consumer ttl draws checked_at now =
      search method_rules depth 12

  pub consume_consumer_handoff-Advances :
      (token : String) (consumer : String) (now : ℕ) (projected_at : ℕ)
      → Advances (consume_consumer_handoff token consumer now projected_at)
  unfolding consume_consumer_handoff
  consume_consumer_handoff-Advances token consumer now projected_at = search method_rules depth 12

  pub revoke_consumer_handoff-Advances :
      (id : String) (now : ℕ) → Advances (revoke_consumer_handoff id now)
  unfolding revoke_consumer_handoff
  revoke_consumer_handoff-Advances id now = search method_rules depth 12
