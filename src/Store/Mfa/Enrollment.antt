-- ===== src/Store/Mfa/Enrollment.antt =====
-- `begin_totp_enrollment` and `complete_totp_enrollment`.
use text.Mathlib.Text.{starts_with}
use anar_core.Base.{
  ℕ, String, Bool, true, none, some, ◌&&◌, ◌==◌, not, nat_eq, leb, is_null, List, [], ◌∷◌,
}
use anar_core.Base.Table.{exists_where, update_where}
use anar_core.Platform.{Platform}
use anar_core.Contracts.Text.{codes, length}
use anar_core.Database.Rows.{Status, MfaAuthenticator, is_active, is_pending}
use anar_core.Database.Tx.{
  Tx, Action, Error, ◌>>=◌, ◌>>◌, pure, gets, require, select_one, update, insert, immediate,
  with_connection, reading, chain,
}
use anar_core.Database.Schema.{mfa_authenticator, authenticator_allowed}
use anar_core.Store.Session.{load_account_session}
use anar_core.Store.Mfa.Purpose.{active_mfa_authenticator}
use anar_core.Store.Mfa.Attestation.{consume_mfa_broker_attestation}

abbrev pub pending_unavailable : Error
pending_unavailable = Error.authority "pending MFA authenticator unavailable"

-- The WHERE clause of the SELECT and the UPDATE of `complete_totp_enrollment`.
abbrev pub is_pending_authenticator : String → String → MfaAuthenticator → Bool
is_pending_authenticator authenticator_id account_id r =
    r.authenticator_id == authenticator_id
    && r.account_id == account_id
    && is_pending r.status
    && is_null r.verified_at
    && is_null r.revoked_at

-- The unique index one_active_mfa_authenticator_per_kind: no account has two active rows.
unfoldable pub one_active_per_account : List MfaAuthenticator → Bool
one_active_per_account [] = true
one_active_per_account (r ∷ rest) =
    not (
      is_active r.status
      && exists_where (λ s. is_active s.status && s.account_id == r.account_id) rest)
    && one_active_per_account rest

module _ ⦃platform : Platform⦄ where
  -- The checks of `begin_totp_enrollment`: the account and the reference.
  unfoldable pub begin_checks : String → String → String → ℕ → Tx (String × String)
  begin_checks bearer account_session_id secret_reference checked_at = do
    account_session ← load_account_session bearer account_session_id checked_at
    let reference = platform.strip secret_reference
    require (starts_with reference "vault://")
        (Error.authority "MFA secret reference must be an opaque Vault reference")
    require (leb (length (codes reference)) 512) (Error.authority "MFA secret reference too long")
    existing ← gets (active_mfa_authenticator account_session.account_id)
    require (is_null existing) (Error.authority "active MFA authenticator already exists")
    pure (account_session.account_id, reference)

  unfoldable pub begin_rows : String → String → String → ℕ → Tx String
  begin_rows account_id reference authenticator_id now = do
    update mfa_authenticator
        (λ r. r.account_id == account_id && is_pending r.status && is_null r.revoked_at)
        (λ r. record r { status = Status.revoked; revoked_at = some now })
    insert mfa_authenticator authenticator_allowed (record {
      authenticator_id = authenticator_id;
      account_id = account_id;
      secret_reference = reference;
      status = Status.pending;
      verified_at = none;
      revoked_at = none;
      created_at = now;
    })
    pure authenticator_id

  unfoldable pub begin_totp_enrollment : String → String → String → String → ℕ → ℕ → Action String
  begin_totp_enrollment bearer account_session_id secret_reference authenticator_id checked_at now =
      chain (reading (begin_checks bearer account_session_id secret_reference checked_at))
        λ checked. with_connection (begin_rows checked.0 checked.1 authenticator_id now)

  -- The UPDATE is refused where the row would be a second active one.
  unfoldable pub complete_rows : String → String → String → String → ℕ → Tx String
  unfolding one_active_per_account
  complete_rows account_id account_session_id authenticator_id token now = do
    consume_mfa_broker_attestation account_id account_session_id authenticator_id token "mfa.enroll"
        now
    before ← gets (λ db. db.authenticators)
    let activate =
        λ (r : MfaAuthenticator). record r { status = Status.active; verified_at = some now }
    require
        (one_active_per_account
          (update_where (is_pending_authenticator authenticator_id account_id) activate before))
        Error.integrity
    updated ←
        update mfa_authenticator (is_pending_authenticator authenticator_id account_id) activate
    require (nat_eq updated 1) pending_unavailable
    pure authenticator_id

  unfoldable pub complete_totp_enrollment :
      String → String → String → String → ℕ → ℕ → Action String
  complete_totp_enrollment bearer account_session_id authenticator_id token checked_at now =
      chain
        (reading (do
          account_session ← load_account_session bearer account_session_id checked_at
          select_one mfa_authenticator
              (is_pending_authenticator authenticator_id account_session.account_id)
              pending_unavailable
          pure account_session.account_id))
        λ account_id.
          immediate (complete_rows account_id account_session_id authenticator_id token now)
