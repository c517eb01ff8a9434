-- ===== src/Store/Evolution/Calls.antt =====
-- The calls, and any history of them.
use anar_core.Base.{List, [], ◌∷◌}
use anar_core.Platform.{Platform}
use anar_core.Database.Tx.{Connection}
use anar_core.Database.Evolution.Moves.{Evolution, Evolution-refl, Evolution-trans}
use anar_core.Database.Evolution.Actions.{IsAhead}
use anar_core.Store.Calls.{Call, perform, run}
use anar_core.Store.Evolution.Methods.{
  create_organization-Advances, define_role-Advances, define_policy-Advances,
  define_entitlement-Advances, define_adapter-Advances, define_operation-Advances,
  issue_invitation-Advances, redeem_invitation-Advances, grant_adapter_operation-Advances,
  ensure_cloud_spine_definitions-Advances, derive_organization_session-Advances,
  create_session-Advances, authenticate-Advances, project-Advances, ready-Advances,
  suspend_membership-Advances, leave_membership-Advances, revoke_membership-Advances,
  add_hydration_reference-Advances, project_hydration-Advances, issue_consumer_handoff-Advances,
  consume_consumer_handoff-Advances, revoke_consumer_handoff-Advances,
}
use anar_core.Store.Evolution.Accounts.{
  signup-Advances, verify_email-Advances, login-Advances, authenticate_account_session-Advances,
  signout-Advances, change_password-Advances, issue_password_reset-Advances,
  consume_password_reset-Advances, begin_totp_enrollment-Advances,
  complete_totp_enrollment-Advances, issue_mfa_recovery_codes-Advances,
  exchange_mfa_broker_attestation-Advances, exchange_mfa_recovery_code-Advances,
  consume_mfa_step_up-Advances, request_email_change-Advances, consume_email_change-Advances,
  change_display_name-Advances, create_identity-Advances, create_personal_account-Advances,
}

module _ ⦃platform : Platform⦄ where
  pub perform-IsAhead :
      (call : Call) (c : Connection)
      → IsAhead c
      → Evolution c.committed (perform call c).committed × IsAhead (perform call c)
  unfolding perform
  perform-IsAhead (Call.signup email password name ttl draws now) =
      (signup-Advances email password name ttl draws now).at
  perform-IsAhead (Call.verify_email token now) = (verify_email-Advances token now).at
  perform-IsAhead (Call.login email password ttl draws rehashed_at now) =
      (login-Advances email password ttl draws rehashed_at now).at
  perform-IsAhead (Call.authenticate_account_session bearer id now) =
      (authenticate_account_session-Advances bearer id now).at
  perform-IsAhead (Call.signout bearer id checked_at now) =
      (signout-Advances bearer id checked_at now).at
  perform-IsAhead (Call.change_password bearer id current new repeat token salt checked_at now) =
      (change_password-Advances bearer id current new repeat token salt checked_at now).at
  perform-IsAhead (Call.issue_password_reset email ttl draws now) =
      (issue_password_reset-Advances email ttl draws now).at
  perform-IsAhead (Call.consume_password_reset token new repeat salt now) =
      (consume_password_reset-Advances token new repeat salt now).at
  perform-IsAhead (Call.begin_totp_enrollment bearer id reference authenticator checked_at now) =
      (begin_totp_enrollment-Advances bearer id reference authenticator checked_at now).at
  perform-IsAhead (Call.complete_totp_enrollment bearer id authenticator token checked_at now) =
      (complete_totp_enrollment-Advances bearer id authenticator token checked_at now).at
  perform-IsAhead (Call.issue_mfa_recovery_codes bearer id count token draws checked_at now) =
      (issue_mfa_recovery_codes-Advances bearer id count token draws checked_at now).at
  perform-IsAhead
        (Call.exchange_mfa_broker_attestation bearer id authenticator token purpose ttl draws
          checked_at now) =
      (exchange_mfa_broker_attestation-Advances bearer id authenticator token purpose ttl draws
        checked_at now).at
  perform-IsAhead
        (Call.exchange_mfa_recovery_code bearer id code purpose ttl draws checked_at now) =
      (exchange_mfa_recovery_code-Advances bearer id code purpose ttl draws checked_at now).at
  perform-IsAhead (Call.consume_mfa_step_up bearer id token purpose checked_at now) =
      (consume_mfa_step_up-Advances bearer id token purpose checked_at now).at
  perform-IsAhead
        (Call.request_email_change bearer id password email ttl token draws checked_at now) =
      (request_email_change-Advances bearer id password email ttl token draws checked_at now).at
  perform-IsAhead (Call.consume_email_change token now) =
      (consume_email_change-Advances token now).at
  perform-IsAhead (Call.change_display_name bearer id name checked_at) =
      (change_display_name-Advances bearer id name checked_at).at
  perform-IsAhead (Call.create_identity name kind id now) =
      (create_identity-Advances name kind id now).at
  perform-IsAhead (Call.create_personal_account identity account now) =
      (create_personal_account-Advances identity account now).at
  perform-IsAhead (Call.create_organization canonical_name organization_id tenant_id now) =
      (create_organization-Advances canonical_name organization_id tenant_id now).at
  perform-IsAhead (Call.define_role name grants prohibitions id version drawn now) =
      (define_role-Advances name grants prohibitions id version drawn now).at
  perform-IsAhead (Call.define_policy name version now) =
      (define_policy-Advances name version now).at
  perform-IsAhead (Call.define_entitlement name id version drawn now) =
      (define_entitlement-Advances name id version drawn now).at
  perform-IsAhead (Call.define_adapter name id now) = (define_adapter-Advances name id now).at
  perform-IsAhead (Call.define_operation adapter name id now) =
      (define_operation-Advances adapter name id now).at
  perform-IsAhead
        (Call.issue_invitation organization_id tenant_id roles entitlements ttl draws now
          created_at) =
      (issue_invitation-Advances organization_id tenant_id roles entitlements ttl draws now
        created_at).at
  perform-IsAhead (Call.redeem_invitation code identity_id draws now) =
      (redeem_invitation-Advances code identity_id draws now).at
  perform-IsAhead
        (Call.grant_adapter_operation membership_id adapter operation entitlement scope policy
          version binding_id now) =
      (grant_adapter_operation-Advances membership_id adapter operation entitlement scope policy
        version binding_id now).at
  perform-IsAhead (Call.ensure_cloud_spine_definitions created_at) =
      (ensure_cloud_spine_definitions-Advances created_at).at
  perform-IsAhead
        (Call.derive_organization_session bearer id organization_id ttl draws checked_at now) =
      (derive_organization_session-Advances bearer id organization_id ttl draws checked_at now).at
  perform-IsAhead (Call.create_session identity_id account_id organization_id ttl) =
      (create_session-Advances identity_id account_id organization_id ttl).at
  perform-IsAhead (Call.authenticate bearer id now) = (authenticate-Advances bearer id now).at
  perform-IsAhead (Call.project id now) = (project-Advances id now).at
  perform-IsAhead (Call.ready now later) = (ready-Advances now later).at
  perform-IsAhead (Call.suspend_membership id now) = (suspend_membership-Advances id now).at
  perform-IsAhead (Call.leave_membership id now) = (leave_membership-Advances id now).at
  perform-IsAhead (Call.revoke_membership id now) = (revoke_membership-Advances id now).at
  perform-IsAhead (Call.add_hydration_reference organization_id kind target version id now) =
      (add_hydration_reference-Advances organization_id kind target version id now).at
  perform-IsAhead (Call.project_hydration organization_id) =
      (project_hydration-Advances organization_id).at
  perform-IsAhead (Call.issue_consumer_handoff bearer id consumer ttl draws checked_at now) =
      (issue_consumer_handoff-Advances bearer id consumer ttl draws checked_at now).at
  perform-IsAhead (Call.consume_consumer_handoff token consumer now projected_at) =
      (consume_consumer_handoff-Advances token consumer now projected_at).at
  perform-IsAhead (Call.revoke_consumer_handoff id now) =
      (revoke_consumer_handoff-Advances id now).at

  -- Whatever the calls, committed data evolves.
  pub run-IsAhead :
      (calls : List Call) (c : Connection)
      → IsAhead c
      → Evolution c.committed (run calls c).committed × IsAhead (run calls c)
  unfolding run
  run-IsAhead [] c ahead = (Evolution-refl c.committed, ahead)
  run-IsAhead (call ∷ calls) c ahead =
      let first = perform-IsAhead call c ahead in
      let rest = run-IsAhead calls (perform call c) first.1 in
      (Evolution-trans first.0 rest.0, rest.1)
