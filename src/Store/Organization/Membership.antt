-- ===== src/Store/Organization/Membership.antt =====
-- `suspend_membership`, `leave_membership`, `revoke_membership` and `_revoke_membership_sessions`.
use anar_core.Base.{ℕ, String, Bool, ◌&&◌, ◌==◌, nat_eq, is_null}
use anar_core.Platform.{Platform}
use anar_core.Contracts.TypedId.{validate_typed_id}
use anar_core.Database.Rows.{
  Status, Membership, become, is_current, is_active, is_revoked, is_open, revoke,
}
use anar_core.Database.Tx.{
  Tx, Action, Error, ◌>>=◌, ◌>>◌, pure, lift, gets, require, update, with_connection, reading,
  chain,
}
use anar_core.Database.Schema.{session, consumer_handoff}
use anar_core.Database.Authority.{membership}
use anar_core.Store.Cascade.{revoke_session, sourced_in}

module _ ⦃platform : Platform⦄ where
  unfoldable pub revoke_membership_sessions : String → ℕ → Tx (Unit {0})
  revoke_membership_sessions membership_id revoked_at = do
    lift (validate_typed_id membership_id "mbr")
    update session
        (λ s. s.membership_id == membership_id && is_active s.status && is_null s.revoked_at)
        (revoke_session revoked_at)
    sessions ← gets (λ db. db.sessions)
    update consumer_handoff
        (λ h.
          sourced_in (λ s. s.membership_id == membership_id && is_revoked s.status) sessions h
          && is_open h)
        (revoke revoked_at)
    pure tt

  -- The transaction of the three methods: which rows it takes, what they become, and the error.
  unfoldable pub end_membership_rows :
      String → (Membership → Bool) → Status → Error → ℕ → Tx (Unit {0})
  unfolding revoke_membership_sessions
  end_membership_rows membership_id from to unavailable now = do
    updated ← update membership (λ m. m.membership_id == membership_id && from m) (become to)
    require (nat_eq updated 1) unavailable
    revoke_membership_sessions membership_id now

  unfoldable pub suspend_membership : String → ℕ → Action (Unit {0})
  suspend_membership membership_id now =
      chain (reading (lift (validate_typed_id membership_id "mbr"))) λ _. with_connection (
        end_membership_rows membership_id (λ m. is_active m.status) Status.suspended
          (Error.authority "active membership unavailable") now)

  unfoldable pub leave_membership : String → ℕ → Action (Unit {0})
  leave_membership membership_id now =
      chain (reading (lift (validate_typed_id membership_id "mbr"))) λ _. with_connection (
        end_membership_rows membership_id (λ m. is_active m.status) Status.left
          (Error.authority "active membership unavailable") now)

  unfoldable pub revoke_membership : String → ℕ → Action (Unit {0})
  revoke_membership membership_id now =
      chain (reading (lift (validate_typed_id membership_id "mbr"))) λ _. with_connection (
        end_membership_rows membership_id is_current Status.revoked
          (Error.authority "current membership unavailable") now)
