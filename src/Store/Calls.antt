-- ===== src/Store/Calls.antt =====
-- The calls of the store as data, and histories of them. A lock serialises the calls
-- (`_synchronized`), so a history is a list.
use anar_core.Base.{ℕ, String, Option, List, [], ◌∷◌}
use anar_core.Platform.{Platform}
use anar_core.Database.Tx.{Connection, Action}
use anar_core.Store.Input.{ℤ}
use anar_core.Store.Session
use anar_core.Store.Account.Signup
use anar_core.Store.Account.Signup.{SignupDraws}
use anar_core.Store.Account.Login
use anar_core.Store.Account.Login.{LoginDraws}
use anar_core.Store.Account.Signout
use anar_core.Store.Mfa.Attestation.{StepUpDraws}
use anar_core.Store.Mfa.StepUp
use anar_core.Store.Mfa.Enrollment
use anar_core.Store.Mfa.Recovery
use anar_core.Store.Mfa.Recovery.{CodeDraw}
use anar_core.Store.Password
use anar_core.Store.Password.{ResetDraws}
use anar_core.Store.Email
use anar_core.Store.Email.{EmailDraws}
use anar_core.Store.Identity
use anar_core.Store.Organization.Definitions
use anar_core.Store.Organization.Invitation
use anar_core.Store.Organization.Grant
use anar_core.Store.Organization.Derive
use anar_core.Store.Subject.Project
use anar_core.Store.Organization.Membership
use anar_core.Store.Organization.Hydration
use anar_core.Store.Organization.Handoff
use anar_core.Store.Organization.Invitation.{InvitationDraws, RedeemDraws}
use anar_core.Store.Organization.Derive.{DeriveDraws}
use anar_core.Store.Organization.Handoff.{HandoffDraws}
use anar_core.Contracts.Json.{Json}
use anar_core.Contracts.Check.{VersionedDefinitionRef}

pub data Call : Type 0 where
  signup : String → String → String → ℤ → SignupDraws → ℕ → Call
  verify_email : String → ℕ → Call
  login : String → String → ℤ → LoginDraws → ℕ → ℕ → Call
  authenticate_account_session : String → String → ℕ → Call
  signout : String → String → ℕ → ℕ → Call
  change_password :
      String → String → String → String → String → (Option String) → String → ℕ → ℕ → Call
  issue_password_reset : String → ℤ → ResetDraws → ℕ → Call
  consume_password_reset : String → String → String → String → ℕ → Call
  begin_totp_enrollment : String → String → String → String → ℕ → ℕ → Call
  complete_totp_enrollment : String → String → String → String → ℕ → ℕ → Call
  issue_mfa_recovery_codes :
      String → String → ℤ → (Option String) → (ℕ → List CodeDraw) → ℕ → ℕ → Call
  exchange_mfa_broker_attestation :
      String → String → String → String → String → ℤ → StepUpDraws → ℕ → ℕ → Call
  exchange_mfa_recovery_code : String → String → String → String → ℤ → StepUpDraws → ℕ → ℕ → Call
  consume_mfa_step_up : String → String → String → String → ℕ → ℕ → Call
  request_email_change :
      String → String → String → String → ℤ → (Option String) → EmailDraws → ℕ → ℕ → Call
  consume_email_change : String → ℕ → Call
  change_display_name : String → String → String → ℕ → Call
  create_identity : String → String → String → ℕ → Call
  create_personal_account : String → String → ℕ → Call
  create_organization : String → String → String → ℕ → Call
  define_role : String → (List String) → (List String) → (Option String) → ℤ → String → ℕ → Call
  define_policy : String → ℤ → ℕ → Call
  define_entitlement : String → (Option String) → ℤ → String → ℕ → Call
  define_adapter : String → String → ℕ → Call
  define_operation : String → String → String → ℕ → Call
  issue_invitation :
      String
      → String
      → (List VersionedDefinitionRef)
      → (List VersionedDefinitionRef)
      → ℤ
      → InvitationDraws
      → ℕ
      → ℕ
      → Call
  redeem_invitation : String → String → RedeemDraws → ℕ → Call
  grant_adapter_operation :
      String
      → String
      → String
      → VersionedDefinitionRef
      → Json
      → VersionedDefinitionRef
      → String
      → String
      → ℕ
      → Call
  ensure_cloud_spine_definitions : ℕ → Call
  derive_organization_session : String → String → String → ℤ → DeriveDraws → ℕ → ℕ → Call
  create_session : String → String → String → ℤ → Call
  authenticate : String → String → ℕ → Call
  project : String → ℕ → Call
  ready : ℕ → (ℕ → ℕ) → Call
  suspend_membership : String → ℕ → Call
  leave_membership : String → ℕ → Call
  revoke_membership : String → ℕ → Call
  add_hydration_reference : String → String → String → String → String → ℕ → Call
  project_hydration : String → Call
  issue_consumer_handoff : String → String → String → ℤ → HandoffDraws → ℕ → ℕ → Call
  consume_consumer_handoff : String → String → ℕ → ℕ → Call
  revoke_consumer_handoff : String → ℕ → Call

-- The state that a call leaves, whether it returns or raises.
abbrev pub after : {A : Type 0} → Action A → Connection → Connection
after m c = (m c).1

module _ ⦃platform : Platform⦄ where
  unfoldable pub perform : Call → Connection → Connection
  perform (Call.signup email password name ttl draws now) =
      after (Signup.signup email password name ttl draws now)
  perform (Call.verify_email token now) = after (Signup.verify_email token now)
  perform (Call.login email password ttl draws rehashed_at now) =
      after (Login.login email password ttl draws rehashed_at now)
  perform (Call.authenticate_account_session bearer id now) =
      after (Session.authenticate_account_session bearer id now)
  perform (Call.signout bearer id checked_at now) = after (Signout.signout bearer id checked_at now)
  perform (Call.change_password bearer id current new repeat token salt checked_at now) =
      after (Password.change_password bearer id current new repeat token salt checked_at now)
  perform (Call.issue_password_reset email ttl draws now) =
      after (Password.issue_password_reset email ttl draws now)
  perform (Call.consume_password_reset token new repeat salt now) =
      after (Password.consume_password_reset token new repeat salt now)
  perform (Call.begin_totp_enrollment bearer id reference authenticator checked_at now) =
      after (Enrollment.begin_totp_enrollment bearer id reference authenticator checked_at now)
  perform (Call.complete_totp_enrollment bearer id authenticator token checked_at now) =
      after (Enrollment.complete_totp_enrollment bearer id authenticator token checked_at now)
  perform (Call.issue_mfa_recovery_codes bearer id count token draws checked_at now) =
      after (Recovery.issue_mfa_recovery_codes bearer id count token draws checked_at now)
  perform
        (Call.exchange_mfa_broker_attestation bearer id authenticator token purpose ttl draws
          checked_at now) =
      after (
        StepUp.exchange_mfa_broker_attestation bearer id authenticator token purpose ttl draws
          checked_at now)
  perform (Call.exchange_mfa_recovery_code bearer id code purpose ttl draws checked_at now) =
      after (Recovery.exchange_mfa_recovery_code bearer id code purpose ttl draws checked_at now)
  perform (Call.consume_mfa_step_up bearer id token purpose checked_at now) =
      after (StepUp.consume_mfa_step_up bearer id token purpose checked_at now)
  perform (Call.request_email_change bearer id password email ttl token draws checked_at now) =
      after (Email.request_email_change bearer id password email ttl token draws checked_at now)
  perform (Call.consume_email_change token now) = after (Email.consume_email_change token now)
  perform (Call.change_display_name bearer id name checked_at) =
      after (Identity.change_display_name bearer id name checked_at)
  perform (Call.create_identity name kind id now) =
      after (Identity.create_identity name kind id now)
  perform (Call.create_personal_account identity account now) =
      after (Identity.create_personal_account identity account now)
  perform (Call.create_organization canonical_name organization_id tenant_id now) =
      after (Definitions.create_organization canonical_name organization_id tenant_id now)
  perform (Call.define_role name grants prohibitions id version drawn now) =
      after (Definitions.define_role name grants prohibitions id version drawn now)
  perform (Call.define_policy name version now) = after (Definitions.define_policy name version now)
  perform (Call.define_entitlement name id version drawn now) =
      after (Definitions.define_entitlement name id version drawn now)
  perform (Call.define_adapter name id now) = after (Definitions.define_adapter name id now)
  perform (Call.define_operation adapter name id now) =
      after (Definitions.define_operation adapter name id now)
  perform
        (Call.issue_invitation organization_id tenant_id roles entitlements ttl draws now
          created_at) =
      after (
        Invitation.issue_invitation organization_id tenant_id roles entitlements ttl draws now
          created_at)
  perform (Call.redeem_invitation code identity_id draws now) =
      after (Invitation.redeem_invitation code identity_id draws now)
  perform
        (Call.grant_adapter_operation membership_id adapter operation entitlement scope policy
          version binding_id now) =
      after (
        Grant.grant_adapter_operation membership_id adapter operation entitlement scope policy
          version binding_id now)
  perform (Call.ensure_cloud_spine_definitions created_at) =
      after (Grant.ensure_cloud_spine_definitions created_at)
  perform (Call.derive_organization_session bearer id organization_id ttl draws checked_at now) =
      after (Derive.derive_organization_session bearer id organization_id ttl draws checked_at now)
  perform (Call.create_session identity_id account_id organization_id ttl) =
      after (Project.create_session identity_id account_id organization_id ttl)
  perform (Call.authenticate bearer id now) = after (Project.authenticate bearer id now)
  perform (Call.project id now) = after (Project.project id now)
  perform (Call.ready now later) = after (Project.ready now later)
  perform (Call.suspend_membership id now) = after (Membership.suspend_membership id now)
  perform (Call.leave_membership id now) = after (Membership.leave_membership id now)
  perform (Call.revoke_membership id now) = after (Membership.revoke_membership id now)
  perform (Call.add_hydration_reference organization_id kind target version id now) =
      after (Hydration.add_hydration_reference organization_id kind target version id now)
  perform (Call.project_hydration organization_id) =
      after (Hydration.project_hydration organization_id)
  perform (Call.issue_consumer_handoff bearer id consumer ttl draws checked_at now) =
      after (Handoff.issue_consumer_handoff bearer id consumer ttl draws checked_at now)
  perform (Call.consume_consumer_handoff token consumer now projected_at) =
      after (Handoff.consume_consumer_handoff token consumer now projected_at)
  perform (Call.revoke_consumer_handoff id now) = after (Handoff.revoke_consumer_handoff id now)

  unfoldable pub run : List Call → Connection → Connection
  unfolding perform
  run [] c = c
  run (call ∷ calls) c = run calls (perform call c)
