-- ===== src/Store/Cascade.antt =====
-- Revocation of what an account session or an account has granted: the session, handoff and MFA
-- statements of `signout`, `_revoke_account_session_mfa_authority`, `_revoke_account_authority` and
-- `_revoke_mfa_authority`.
use anar_core.Base.{ℕ, String, Bool, false, none, some, List, [], ◌∷◌, map, ◌&&◌, ◌==◌, is_null}
use anar_core.Base.Table.{exists_where}
pub use anar_core.Database.Rows.{revoke_session, revoke_account_session}
use anar_core.Platform.{Platform}
use anar_core.Contracts.TypedId.{validate_typed_id}
use anar_core.Database.Rows.{
  AccountSession, Session, Challenge, Handoff, is_active, is_revoked, is_open, revoke,
}
use anar_core.Database.Tx.{Tx, ◌>>=◌, ◌>>◌, pure, lift, gets, select, update}
use anar_core.Database.Schema.{
  account_session, session, consumer_handoff, mfa_broker_attestation, mfa_step_up_receipt,
}

-- `account_session_id = ?` on the table `session`, where NULL equals nothing.
abbrev pub derives_from : String → Session → Bool
derives_from s r = elim r.account_session_id [ none ↦ false | some parent ↦ parent == s ]

-- `source_session_id IN (SELECT session_id FROM session WHERE p)`
abbrev pub sourced_in : (Session → Bool) → List Session → Challenge Handoff → Bool
sourced_in p sessions h =
    exists_where (λ r. p r && r.session_id == h.details.source_session_id) sessions

-- The statements that end the sessions derived from one account session, and their open handoffs.
unfoldable pub revoke_derived : String → ℕ → Tx (Unit {0})
revoke_derived account_session_id now = do
  update session (λ r. derives_from account_session_id r && is_active r.status) (revoke_session now)
  sessions ← gets (λ db. db.sessions)
  update consumer_handoff
      (λ h.
        sourced_in (λ r. derives_from account_session_id r && is_revoked r.status) sessions h
        && is_open h)
      (revoke now)
  pure tt

-- `for account_session_id in account_session_ids: …`
unfoldable pub revoke_derived_all : List String → ℕ → Tx (Unit {0})
revoke_derived_all [] now = pure tt
revoke_derived_all (s ∷ rest) now = revoke_derived s now >> revoke_derived_all rest now

unfoldable pub revoke_mfa_authority : String → ℕ → Tx (Unit {0})
revoke_mfa_authority account_id now = do
  update mfa_broker_attestation (λ a. a.account_id == account_id && is_open a) (revoke now)
  update mfa_step_up_receipt (λ a. a.account_id == account_id && is_open a) (revoke now)
  pure tt

unfoldable pub revoke_account_authority : String → ℕ → Tx (Unit {0})
revoke_account_authority account_id now = do
  rows ←
      select account_session
        (λ r. r.account_id == account_id && is_active r.status && is_null r.revoked_at)
  update account_session
      (λ r. r.account_id == account_id && is_active r.status && is_null r.revoked_at)
      (revoke_account_session now)
  revoke_derived_all (map (λ (r : AccountSession). r.account_session_id) rows) now
  revoke_mfa_authority account_id now

module _ ⦃platform : Platform⦄ where
  unfoldable pub revoke_account_session_mfa_authority : String → ℕ → Tx (Unit {0})
  revoke_account_session_mfa_authority account_session_id now = do
    lift (validate_typed_id account_session_id "acs")
    update mfa_broker_attestation
        (λ a. a.details.account_session_id == account_session_id && is_open a) (revoke now)
    update mfa_step_up_receipt
        (λ a. a.details.account_session_id == account_session_id && is_open a) (revoke now)
    pure tt
