-- ===== src/Database/Schema.antt =====
-- The constraints of `_migrate`'s CREATE TABLE statements, as tests of a row to be inserted, and the
-- tables as parts of the database.
use anar_core.Base.{String, Bool, List, ◌&&◌, ◌||◌, not, leb, ◌==◌}
use anar_core.Base.Table.{exists_where}
use anar_core.Database.Rows.{
  Db, is_active, Identity, PersonalAccount, AccountEmail, PasswordCredential, Challenge, Deadline,
  EmailChange, MfaGrant, RecoveryCode, Handoff, MfaAuthenticator, AccountSession, Session,
}
use anar_core.Database.Tx.{Table}

abbrev pub identity : Table Identity
identity = record { rows = λ db. db.identities; store = λ rows db. record db { identities = rows } }

abbrev pub personal_account : Table PersonalAccount
personal_account = record {
  rows = λ db. db.accounts;
  store = λ rows db. record db { accounts = rows };
}

abbrev pub account_email : Table AccountEmail
account_email = record { rows = λ db. db.emails; store = λ rows db. record db { emails = rows } }

abbrev pub password_credential : Table PasswordCredential
password_credential = record {
  rows = λ db. db.credentials;
  store = λ rows db. record db { credentials = rows };
}

abbrev pub email_verification_challenge : Table (Challenge Deadline)
email_verification_challenge = record {
  rows = λ db. db.verifications;
  store = λ rows db. record db { verifications = rows };
}

abbrev pub password_reset_challenge : Table (Challenge Deadline)
password_reset_challenge = record {
  rows = λ db. db.resets;
  store = λ rows db. record db { resets = rows };
}

abbrev pub email_change_challenge : Table (Challenge EmailChange)
email_change_challenge = record {
  rows = λ db. db.email_changes;
  store = λ rows db. record db { email_changes = rows };
}

abbrev pub mfa_authenticator : Table MfaAuthenticator
mfa_authenticator = record {
  rows = λ db. db.authenticators;
  store = λ rows db. record db { authenticators = rows };
}

abbrev pub mfa_recovery_code : Table (Challenge RecoveryCode)
mfa_recovery_code = record {
  rows = λ db. db.recovery_codes;
  store = λ rows db. record db { recovery_codes = rows };
}

abbrev pub mfa_broker_attestation : Table (Challenge MfaGrant)
mfa_broker_attestation = record {
  rows = λ db. db.attestations;
  store = λ rows db. record db { attestations = rows };
}

abbrev pub mfa_step_up_receipt : Table (Challenge MfaGrant)
mfa_step_up_receipt = record {
  rows = λ db. db.step_ups;
  store = λ rows db. record db { step_ups = rows };
}

abbrev pub account_session : Table AccountSession
account_session = record {
  rows = λ db. db.account_sessions;
  store = λ rows db. record db { account_sessions = rows };
}

abbrev pub session : Table Session
session = record { rows = λ db. db.sessions; store = λ rows db. record db { sessions = rows } }

abbrev pub consumer_handoff : Table (Challenge Handoff)
consumer_handoff = record {
  rows = λ db. db.handoffs;
  store = λ rows db. record db { handoffs = rows };
}

-- REFERENCES identity(identity_id), personal_account(account_id), …
abbrev pub has_identity : Db → String → Bool
has_identity db i = exists_where (λ r. r.identity_id == i) db.identities

abbrev pub has_account : Db → String → Bool
has_account db a = exists_where (λ r. r.account_id == a) db.accounts

abbrev pub has_account_session : Db → String → Bool
has_account_session db s = exists_where (λ r. r.account_session_id == s) db.account_sessions

abbrev pub has_authenticator : Db → String → Bool
has_authenticator db m = exists_where (λ r. r.authenticator_id == m) db.authenticators

unfoldable pub identity_allowed : Db → Identity → Bool
identity_allowed db row = not (has_identity db row.identity_id)

unfoldable pub account_allowed : Db → PersonalAccount → Bool
account_allowed db row =
    not (
      exists_where (λ r. r.account_id == row.account_id || r.identity_id == row.identity_id)
        db.accounts)
    && has_identity db row.identity_id

unfoldable pub email_allowed : Db → AccountEmail → Bool
email_allowed db row =
    not (
      exists_where
        (λ r. r.account_id == row.account_id || r.normalized_email == row.normalized_email)
        db.emails)
    && has_account db row.account_id

unfoldable pub credential_allowed : Db → PasswordCredential → Bool
credential_allowed db row =
    not (
      exists_where (λ r. r.credential_id == row.credential_id || r.account_id == row.account_id)
        db.credentials)
    && has_account db row.account_id
    && leb 1 row.credential_revision

-- The key, the unique digest and the account of a one-time token.
abbrev pub challenge_allowed : {X : Type 0} → List (Challenge X) → Db → Challenge X → Bool
challenge_allowed rows db row =
    not (
      exists_where (λ r. r.challenge_id == row.challenge_id || r.token_sha256 == row.token_sha256)
        rows)
    && has_account db row.account_id

unfoldable pub verification_allowed : Db → Challenge Deadline → Bool
verification_allowed db = challenge_allowed db.verifications db

unfoldable pub reset_allowed : Db → Challenge Deadline → Bool
reset_allowed db = challenge_allowed db.resets db

unfoldable pub email_change_allowed : Db → Challenge EmailChange → Bool
email_change_allowed db = challenge_allowed db.email_changes db

unfoldable pub recovery_code_allowed : Db → Challenge RecoveryCode → Bool
recovery_code_allowed db = challenge_allowed db.recovery_codes db

unfoldable pub step_up_allowed : Db → Challenge MfaGrant → Bool
step_up_allowed db row =
    challenge_allowed db.step_ups db row
    && has_account_session db row.details.account_session_id
    && has_authenticator db row.details.authenticator_id

-- The index one_active_mfa_authenticator_per_kind concerns active rows only.
unfoldable pub authenticator_allowed : Db → MfaAuthenticator → Bool
authenticator_allowed db row =
    not (
      exists_where
        (λ r.
          r.authenticator_id == row.authenticator_id
          || (is_active row.status && is_active r.status && r.account_id == row.account_id))
        db.authenticators)
    && has_account db row.account_id

unfoldable pub account_session_allowed : Db → AccountSession → Bool
account_session_allowed db row =
    not (
      exists_where
        (λ r.
          r.account_session_id == row.account_session_id || r.bearer_sha256 == row.bearer_sha256)
        db.account_sessions)
    && has_identity db row.identity_id
    && has_account db row.account_id
    && leb 1 row.credential_revision
