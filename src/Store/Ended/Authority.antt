-- ===== src/Store/Ended/Authority.antt =====
-- `_revoke_account_authority`, and the calls that end with it: `change_password`,
-- `consume_password_reset` and `consume_email_change`.
use mathlib.Core.Path.{subst}
use anar_core.Base.{
  ℕ, String, Bool, false, refl, ◌≡◌, List, [], ◌∷◌, map, ap, ◌∙◌, ◌==◌, ◌&&◌, arith, is_null,
}
use anar_core.Base.Table.{exists_where, exists_where-cleared, exists_where-none, select_where, All}
use anar_core.Database.Rows.{Db, AccountSession, is_active, is_open, revoke}
use anar_core.Database.Tx.{ok, statements}
use anar_core.Store.Replay.Spent.{with_state}
use anar_core.Database.Ensures.{
  Ensures, returned, after_then, after_gets, after_update_then, ensured, after_select,
}
use anar_core.Store.Cascade.{
  derives_from, revoke_derived, revoke_derived_all, revoke_mfa_authority, revoke_account_authority,
  revoke_session, revoke_account_session,
}

-- No session of an organization that derives from this account session is active.
abbrev pub NoneDerived : String → Db → Type 0
NoneDerived s db = exists_where (λ r. derives_from s r && is_active r.status) db.sessions ≡ false

-- The tables that the revocation of derived sessions leaves alone, with what it does to them.
record Cut (ids : List String) (before after : Db) : Type 0 where
  account_sessions_kept : after.account_sessions ≡ before.account_sessions
  credentials_kept : after.credentials ≡ before.credentials
  cut : All (λ s. NoneDerived s after) ids
  stays_cut : (s : String) → NoneDerived s before → NoneDerived s after

revoke_derived-Cut :
    (s : String) (now : ℕ) (db : Db)
    → Ensures (revoke_derived s now) db (λ _ after. Cut (s ∷ []) db after)
unfolding revoke_derived
revoke_derived-Cut s now db = after_update_then _ _ _ (
    after_gets _ λ sessions _. after_update_then _ _ _ (
      returned tt (record {
        account_sessions_kept = refl;
        credentials_kept = refl;
        cut = (
          exists_where-cleared _ _ (revoke_session now) db.sessions (λ r h. h) (λ r. ground arith),
          tt,
        );
        stays_cut =
            λ t h. exists_where-none _ _ (revoke_session now) db.sessions (λ r q. ground arith) h;
      })))

revoke_derived_all-Cut :
    (ids : List String) (now : ℕ) (db : Db)
    → Ensures (revoke_derived_all ids now) db (λ _ after. Cut ids db after)
unfolding revoke_derived_all
revoke_derived_all-Cut [] now db = returned tt (record {
  account_sessions_kept = refl;
  credentials_kept = refl;
  cut = tt;
  stays_cut = λ s h. h;
})
revoke_derived_all-Cut (s ∷ ids) now db = after_then (revoke_derived s now) λ u mid h.
    let first = (revoke_derived-Cut s now db).at u mid h in
    ensured λ v after k.
      let rest = (revoke_derived_all-Cut ids now mid).at v after k in
      record {
        account_sessions_kept = rest.account_sessions_kept ∙ first.account_sessions_kept;
        credentials_kept = rest.credentials_kept ∙ first.credentials_kept;
        cut = (rest.stays_cut s first.cut.0, rest.cut);
        stays_cut = λ t q. rest.stays_cut t (first.stays_cut t q);
      }

abbrev pub is_live_of : String → AccountSession → Bool
is_live_of account r = r.account_id == account && is_active r.status && is_null r.revoked_at

-- What an account has no more.
pub record IsShut (account : String) (db : Db) : Type 0 where
  pub no_session : exists_where (is_live_of account) db.account_sessions ≡ false
  pub no_attestation :
      exists_where (λ a. a.account_id == account && is_open a) db.attestations ≡ false
  pub no_step_up : exists_where (λ a. a.account_id == account && is_open a) db.step_ups ≡ false

abbrev pub live_ids : String → Db → List String
live_ids account db =
    map (λ (r : AccountSession). r.account_session_id)
      (select_where (is_live_of account) db.account_sessions)

pub revoke_account_authority-IsShut :
    (account : String) (now : ℕ) (db : Db)
    → Ensures (revoke_account_authority account now) db (λ _ after.
      IsShut account after
      × All (λ s. NoneDerived s after) (live_ids account db)
      × (after.credentials ≡ db.credentials))
unfolding revoke_account_authority revoke_mfa_authority
revoke_account_authority-IsShut account now db = after_select _ _ λ rows rows_is.
    (after_update_then _ _ _ (
      after_then (revoke_derived_all _ now) λ u mid h.
        let cut = (revoke_derived_all-Cut _ now _).at u mid h in
        after_update_then _ _ _ (
          after_update_then _ _ _ (
            returned tt (
              record {
                no_session =
                    ap (exists_where (is_live_of account)) cut.account_sessions_kept
                    ∙ exists_where-cleared _ _ (revoke_account_session now) db.account_sessions
                        (λ r q. q) (λ r. ground arith);
                no_attestation =
                    exists_where-cleared _ _ (revoke now) mid.attestations (λ r q. q)
                      (λ r. ground arith);
                no_step_up =
                    exists_where-cleared _ _ (revoke now) mid.step_ups (λ r q. q)
                      (λ r. ground arith);
              },
              subst
                  (λ l.
                    All (λ s. NoneDerived s mid)
                      (map (λ (r : AccountSession). r.account_session_id) l))
                  rows_is cut.cut,
              cut.credentials_kept,
            )))))

revoke_derived_all-returns :
    (ids : List String) (now : ℕ) (db : Db) → (revoke_derived_all ids now db).0 ≡ ok tt
unfolding revoke_derived_all revoke_derived statements
revoke_derived_all-returns [] now db = refl
revoke_derived_all-returns (s ∷ ids) now db = revoke_derived_all-returns ids now _

revoke_account_authority-returns :
    (account : String) (now : ℕ) (db : Db) → (revoke_account_authority account now db).0 ≡ ok tt
unfolding revoke_account_authority revoke_mfa_authority statements
revoke_account_authority-returns account now db =
    rw
      (with_state (revoke_derived_all (live_ids account db) now _)
        (revoke_derived_all-returns (live_ids account db) now _))
      refl

-- `_revoke_account_authority` returns, and leaves the account no live session, no open attestation
-- and no open step-up receipt, and no active session derived from an account session that was live
-- before; it changes no credential.
pub authority_is_revoked :
    (account : String) (now : ℕ) (db : Db)
    → let after = (revoke_account_authority account now db).1 in
      ((revoke_account_authority account now db).0 ≡ ok tt)
      × IsShut account after
      × All (λ s. NoneDerived s after) (live_ids account db)
      × (after.credentials ≡ db.credentials)
authority_is_revoked account now db =
    let returned = revoke_account_authority-returns account now db in
    let s = (revoke_account_authority-IsShut account now db).at tt _ (with_state _ returned) in
    (returned, s.0, s.1, s.2)
