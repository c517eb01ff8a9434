-- ===== src/Store/Evolution/Rows.antt =====
-- The bodies of the transactions.
use anar_core.Base.{ℕ, String, Bool, Option, none, some, List, [], ◌∷◌, refl, arith}
use anar_core.Platform.{Platform}
use anar_core.Database.Rows.{Challenge, AccountSession}
use anar_core.Database.Tx.{Error, update}
use anar_core.Database.Schema.{account_session, session}
use anar_core.Database.Evolution.Steps.{
  Steps, Steps-bind, Steps-then, Steps-when, Steps-pure, Steps-require, steps_rules,
}
use anar_core.Database.Evolution.Tables.{
  table_rules, insert-account_sessions, update-account_sessions, update-credentials,
}
use anar_core.Database.Evolution.Organization.{revoke-sessions}
use anar_core.Store.Input.{ℤ}
use anar_core.Store.Challenge.{check_challenge}
use anar_core.Store.Session.{load_account_session}
use anar_core.Store.Cascade.{
  revoke_account_session, revoke_derived, revoke_derived_all, revoke_mfa_authority,
  revoke_account_authority, revoke_account_session_mfa_authority,
}
use anar_core.Store.Account.Signup.{SignupInput, SignupDraws, signup_rows, verify_email_rows}
use anar_core.Store.Account.Login.{LoginRow, LoginDraws, login_rows}
use anar_core.Store.Account.Signout.{signout_rows}
use anar_core.Store.Mfa.Attestation.{StepUpDraws, consume_mfa_broker_attestation, mint_mfa_step_up}
use anar_core.Store.Mfa.StepUp.{consume_mfa_step_up_for_action}
use anar_core.Store.Mfa.Enrollment.{begin_rows, complete_rows}
use anar_core.Store.Mfa.Recovery.{
  CodeDraw, supplied_token, consume_rotation_receipt, insert_codes, issue_rows,
  consume_recovery_code,
}
use anar_core.Store.Password.{
  PasswordChange, ResetDraws, replace_hash, require_step_up, change_rows, issue_reset_rows,
  consume_reset_rows,
}
use anar_core.Store.Email.{EmailRequest, EmailDraws, request_rows, consume_email_rows}

check_challenge-Steps :
    {X : Type 0} (u c r e : Error) (expires_at now : ℕ) (row : Challenge X)
    → Steps (check_challenge u c r e expires_at now row)
unfolding check_challenge
check_challenge-Steps u c r e expires_at now row = search steps_rules

module _ ⦃platform : Platform⦄ where
  pub signup_rows-Steps :
      (input : SignupInput) (draws : SignupDraws) (now : ℕ) → Steps (signup_rows input draws now)
  unfolding signup_rows
  signup_rows-Steps input draws now = search (steps_rules, table_rules) depth 12

  pub verify_email_rows-Steps : (digest : String) (now : ℕ) → Steps (verify_email_rows digest now)
  unfolding verify_email_rows
  verify_email_rows-Steps digest now =
      search (steps_rules, table_rules, check_challenge-Steps) depth 16

revoke_account_sessions-Steps :
    (p : AccountSession → Bool) (now : ℕ)
    → Steps (update account_session p (revoke_account_session now))
revoke_account_sessions-Steps p now =
    update-account_sessions p (revoke_account_session now) (λ s. refl) (λ s. refl)

ruleset row_rules = (
  steps_rules, table_rules, check_challenge-Steps, revoke-sessions, revoke_account_sessions-Steps,
)

pub revoke_derived-Steps : (s : String) (now : ℕ) → Steps (revoke_derived s now)
unfolding revoke_derived
revoke_derived-Steps s now = search row_rules depth 12

pub revoke_derived_all-Steps : (l : List String) (now : ℕ) → Steps (revoke_derived_all l now)
unfolding revoke_derived_all
revoke_derived_all-Steps [] now = search row_rules
revoke_derived_all-Steps (s ∷ l) now =
    Steps-then (revoke_derived-Steps s now) (revoke_derived_all-Steps l now)

pub revoke_mfa_authority-Steps : (a : String) (now : ℕ) → Steps (revoke_mfa_authority a now)
unfolding revoke_mfa_authority
revoke_mfa_authority-Steps a now = search row_rules depth 12

pub revoke_account_authority-Steps : (a : String) (now : ℕ) → Steps (revoke_account_authority a now)
unfolding revoke_account_authority
revoke_account_authority-Steps a now =
    search (row_rules, revoke_derived_all-Steps, revoke_mfa_authority-Steps) depth 12

pub replace_hash-Steps :
    (account_id credential_id hash : String) (now : ℕ)
    → Steps (replace_hash account_id credential_id hash now)
unfolding replace_hash
replace_hash-Steps account_id credential_id hash now =
    Steps-bind
      (update-credentials _ _ (λ c. refl)
        (λ c. record { same_id = refl; revision_grows = omega arith }))
      (λ n. Steps-require _ _)

module _ ⦃platform : Platform⦄ where
  load_account_session-Steps :
      (bearer id : String) (now : ℕ) → Steps (load_account_session bearer id now)
  unfolding load_account_session
  load_account_session-Steps bearer id now = search row_rules depth 20

  pub login_rows-Steps :
      (password : String) (ttl : ℕ) (row : LoginRow) (draws : LoginDraws) (rehashed_at now : ℕ)
      → Steps (login_rows password ttl row draws rehashed_at now)
  unfolding login_rows
  login_rows-Steps password ttl row draws rehashed_at now =
      Steps-then
        (Steps-when _ (
          Steps-then
            (update-credentials _ _ (λ c. refl)
              (λ c. record { same_id = refl; revision_grows = omega arith }))
            (Steps-pure tt)))
        (search (row_rules, insert-account_sessions) depth 12)

  pub revoke_account_session_mfa_authority-Steps :
      (s : String) (now : ℕ) → Steps (revoke_account_session_mfa_authority s now)
  unfolding revoke_account_session_mfa_authority
  revoke_account_session_mfa_authority-Steps s now = search row_rules depth 12

  pub signout_rows-Steps : (s : String) (now : ℕ) → Steps (signout_rows s now)
  unfolding signout_rows
  signout_rows-Steps s now =
      search (row_rules, revoke_derived-Steps, revoke_account_session_mfa_authority-Steps) depth 12

  pub consume_mfa_broker_attestation-Steps :
      (account session authenticator token purpose : String) (now : ℕ)
      → Steps (consume_mfa_broker_attestation account session authenticator token purpose now)
  unfolding consume_mfa_broker_attestation
  consume_mfa_broker_attestation-Steps account session authenticator token purpose now =
      search row_rules depth 20

  pub mint_mfa_step_up-Steps :
      (account session authenticator purpose : String) (ttl : ℤ) (draws : StepUpDraws) (now : ℕ)
      → Steps (mint_mfa_step_up account session authenticator purpose ttl draws now)
  unfolding mint_mfa_step_up
  mint_mfa_step_up-Steps account session authenticator purpose ttl draws now =
      search row_rules depth 12

  pub consume_mfa_step_up_for_action-Steps :
      (account session token purpose : String) (now : ℕ)
      → Steps (consume_mfa_step_up_for_action account session token purpose now)
  unfolding consume_mfa_step_up_for_action
  consume_mfa_step_up_for_action-Steps account session token purpose now = search row_rules depth 25

  pub begin_rows-Steps :
      (account reference authenticator : String) (now : ℕ)
      → Steps (begin_rows account reference authenticator now)
  unfolding begin_rows
  begin_rows-Steps account reference authenticator now = search row_rules depth 12

  pub complete_rows-Steps :
      (account session authenticator token : String) (now : ℕ)
      → Steps (complete_rows account session authenticator token now)
  unfolding complete_rows
  complete_rows-Steps account session authenticator token now =
      search (row_rules, consume_mfa_broker_attestation-Steps) depth 12

  supplied_token-Steps : (t : Option String) (e : Error) → Steps (supplied_token t e)
  unfolding supplied_token
  supplied_token-Steps none e = search row_rules
  supplied_token-Steps (some t) e = search row_rules

  consume_rotation_receipt-Steps :
      (account session authenticator : String) (token : Option String) (now : ℕ)
      → Steps (consume_rotation_receipt account session authenticator token now)
  unfolding consume_rotation_receipt
  consume_rotation_receipt-Steps account session authenticator token now =
      search (row_rules, supplied_token-Steps) depth 20

  pub insert_codes-Steps :
      (account : String) (draws : List CodeDraw) (now : ℕ) → Steps (insert_codes account draws now)
  unfolding insert_codes
  insert_codes-Steps account [] now = search row_rules
  insert_codes-Steps account (draw ∷ rest) now =
      Steps-then (search row_rules depth 12) (insert_codes-Steps account rest now)

  pub issue_rows-Steps :
      (account session authenticator : String) (rotation : Bool) (token : Option String)
      (draws : List CodeDraw) (now : ℕ)
      → Steps (issue_rows account session authenticator rotation token draws now)
  unfolding issue_rows
  issue_rows-Steps account session authenticator rotation token draws now =
      search (row_rules, consume_rotation_receipt-Steps, insert_codes-Steps) depth 12

  pub consume_recovery_code-Steps :
      (account digest : String) (now : ℕ) → Steps (consume_recovery_code account digest now)
  unfolding consume_recovery_code
  consume_recovery_code-Steps account digest now = search row_rules depth 15

  require_step_up-Steps :
      (account session : String) (token : Option String) (purpose : String) (missing : Error)
      (now : ℕ)
      → Steps (require_step_up account session token purpose missing now)
  unfolding require_step_up
  require_step_up-Steps account session token purpose missing now =
      search (row_rules, supplied_token-Steps, consume_mfa_step_up_for_action-Steps) depth 12

  pub change_rows-Steps :
      (change : PasswordChange) (session : String) (token : Option String) (now : ℕ)
      → Steps (change_rows change session token now)
  unfolding change_rows
  change_rows-Steps change session token now =
      search (row_rules, require_step_up-Steps, replace_hash-Steps, revoke_account_authority-Steps)
        depth 12

  pub issue_reset_rows-Steps :
      (account : String) (ttl : ℕ) (digest : String) (draws : ResetDraws) (now : ℕ)
      → Steps (issue_reset_rows account ttl digest draws now)
  unfolding issue_reset_rows
  issue_reset_rows-Steps account ttl digest draws now = search row_rules depth 12

  pub consume_reset_rows-Steps :
      (digest password salt : String) (now : ℕ)
      → Steps (consume_reset_rows digest password salt now)
  unfolding consume_reset_rows
  consume_reset_rows-Steps digest password salt now =
      search (row_rules, replace_hash-Steps, revoke_account_authority-Steps) depth 20

  pub request_rows-Steps :
      (request : EmailRequest) (session : String) (token : Option String) (draws : EmailDraws)
      (now : ℕ)
      → Steps (request_rows request session token draws now)
  unfolding request_rows
  request_rows-Steps request session token draws now =
      search (row_rules, require_step_up-Steps) depth 12

  pub consume_email_rows-Steps : (digest : String) (now : ℕ) → Steps (consume_email_rows digest now)
  unfolding consume_email_rows
  consume_email_rows-Steps digest now = search (row_rules, revoke_account_authority-Steps) depth 20
