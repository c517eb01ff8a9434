-- ===== src/Database/Evolution/Tables.antt =====
-- The statements of the store on each table, as steps of the evolution.
use mathlib.Core.Bool.{false≢true}
use anar_core.Base.{sym, ◌∙◌, Bool, false, ◌≡◌, ◌==◌, arith}
use anar_core.Database.Rows.{
  Db, PasswordCredential, AccountSession, Identity, PersonalAccount, AccountEmail, MfaAuthenticator,
}
use anar_core.Database.Tx.{update, insert}
use anar_core.Database.Schema.{
  identity, personal_account, account_email, password_credential, mfa_authenticator,
  account_session, credential_allowed, account_session_allowed,
}
use anar_core.Database.Evolve.{Evolves-insert, Evolves-update, Retires-insert, Retires-update}
use anar_core.Database.Evolution.Moves.{
  CredentialMoves, credential_stays, account_key, account_session_key, is_live_account_session,
  Evolution-refl,
}
use anar_core.Database.Evolution.Steps.{Steps, Steps-update, Steps-insert}
use anar_core.Database.Evolution.Tokens.{
  Opens, exists-or_right, exists-or_left, fresh_token, tokens_insert, consume-verifications,
  revoke-verifications, insert-verifications, consume-resets, revoke-resets, insert-resets,
  consume-email_changes, revoke-email_changes, insert-email_changes, consume-recovery_codes,
  revoke-recovery_codes, insert-recovery_codes, consume-attestations, revoke-attestations,
  consume-step_ups, revoke-step_ups, insert-step_ups, consume-handoffs, revoke-handoffs,
  Opens-is_open, Opens-and,
}

pub update-identities :
    (p : Identity → Bool) (f : Identity → Identity) → Steps (update identity p f)
update-identities p f = Steps-update identity p f λ db. assumption (Evolution-refl db)

pub insert-identities :
    (allowed : Db → Identity → Bool) (row : Identity) → Steps (insert identity allowed row)
insert-identities allowed row =
    Steps-insert identity allowed row λ db h. assumption (Evolution-refl db)

pub update-accounts :
    (p : PersonalAccount → Bool) (f : PersonalAccount → PersonalAccount)
    → Steps (update personal_account p f)
update-accounts p f = Steps-update personal_account p f λ db. assumption (Evolution-refl db)

pub insert-accounts :
    (allowed : Db → PersonalAccount → Bool) (row : PersonalAccount)
    → Steps (insert personal_account allowed row)
insert-accounts allowed row =
    Steps-insert personal_account allowed row λ db h. assumption (Evolution-refl db)

pub update-emails :
    (p : AccountEmail → Bool) (f : AccountEmail → AccountEmail) → Steps (update account_email p f)
update-emails p f = Steps-update account_email p f λ db. assumption (Evolution-refl db)

pub insert-emails :
    (allowed : Db → AccountEmail → Bool) (row : AccountEmail)
    → Steps (insert account_email allowed row)
insert-emails allowed row =
    Steps-insert account_email allowed row λ db h. assumption (Evolution-refl db)

pub update-authenticators :
    (p : MfaAuthenticator → Bool) (f : MfaAuthenticator → MfaAuthenticator)
    → Steps (update mfa_authenticator p f)
update-authenticators p f = Steps-update mfa_authenticator p f λ db. assumption (Evolution-refl db)

pub insert-authenticators :
    (allowed : Db → MfaAuthenticator → Bool) (row : MfaAuthenticator)
    → Steps (insert mfa_authenticator allowed row)
insert-authenticators allowed row =
    Steps-insert mfa_authenticator allowed row λ db h. assumption (Evolution-refl db)

pub update-credentials :
    (p : PasswordCredential → Bool) (f : PasswordCredential → PasswordCredential)
    → ((c : PasswordCredential) → (f c).account_id ≡ c.account_id)
    → ((c : PasswordCredential) → CredentialMoves c (f c))
    → Steps (update password_credential p f)
update-credentials p f keep move = Steps-update password_credential p f λ db. assumption (
  Evolution-refl db,
  Evolves-update account_key CredentialMoves credential_stays p f db.credentials keep
      (λ c _. move c),
)

pub insert-credentials :
    (row : PasswordCredential) → Steps (insert password_credential credential_allowed row)
unfolding credential_allowed
insert-credentials row = Steps-insert password_credential credential_allowed row λ db h.
    assumption (
      Evolution-refl db,
      Evolves-insert account_key CredentialMoves credential_stays row db.credentials (
          exists-or_right (λ r. r.credential_id == row.credential_id)
            (λ r. r.account_id == row.account_id) db.credentials (ground arith)),
    )

pub update-account_sessions :
    (p : AccountSession → Bool) (f : AccountSession → AccountSession)
    → ((s : AccountSession) → (f s).account_session_id ≡ s.account_session_id)
    → ((s : AccountSession) → is_live_account_session (f s) ≡ false)
    → Steps (update account_session p f)
update-account_sessions p f keep dead = Steps-update account_session p f λ db. assumption (
  Evolution-refl db,
  Retires-update account_session_key is_live_account_session p f db.account_sessions keep
      (λ s h. absurd (false≢true (sym (dead s) ∙ h))),
)

pub insert-account_sessions :
    (row : AccountSession) → Steps (insert account_session account_session_allowed row)
unfolding account_session_allowed
insert-account_sessions row = Steps-insert account_session account_session_allowed row λ db h.
    assumption (
      Evolution-refl db,
      Retires-insert account_session_key is_live_account_session row db.account_sessions (
          exists-or_left (λ r. r.account_session_id == row.account_session_id)
            (λ r. r.bearer_sha256 == row.bearer_sha256) db.account_sessions (ground arith)),
    )

pub ruleset table_rules = (
  Opens-is_open, Opens-and, consume-verifications, revoke-verifications, insert-verifications,
  consume-resets, revoke-resets, insert-resets, consume-email_changes, revoke-email_changes,
  insert-email_changes, consume-recovery_codes, revoke-recovery_codes, insert-recovery_codes,
  consume-attestations, revoke-attestations, consume-step_ups, revoke-step_ups, insert-step_ups,
  consume-handoffs, revoke-handoffs, insert-credentials, insert-account_sessions, update-identities,
  insert-identities, update-accounts, insert-accounts, update-emails, insert-emails,
  update-authenticators, insert-authenticators,
)
