-- ===== src/Store/Gate/Receipt.antt =====
-- `_consume_mfa_step_up_for_action` and `consume_mfa_step_up`: the receipt that a call has used.
use anar_core.Base.{ℕ, ◌<◌, String, true, some, refl, ◌≡◌, sym, ap, ◌∙◌, ◌==◌, eq_iff}
use anar_core.Base.Table.{find_where}
use anar_core.Platform.{Platform}
use anar_core.Database.Rows.{Db, Challenge, MfaGrant, MfaAuthenticator, is_open, consume}
use anar_core.Database.Tx.{ok}
use anar_core.Database.Ensures.{
  Ensures, returned, after_require, after_select_one, after_update, after_lift, after_gets,
  after_or_raise,
}
use anar_core.Database.Inversion.{consume-found}
use anar_core.Store.Input.{token_digest}
use anar_core.Store.Mfa.Purpose.{active_mfa_authenticator, require_mfa_purpose}
use anar_core.Store.Mfa.StepUp.{consume_mfa_step_up_for_action}
use anar_core.Store.Replay.Spent.{IsSpent, after_check}

module _ ⦃platform : Platform⦄ where
  -- The receipt behind a token before a call that used it at the time `now`, and after.
  pub record IsUsed (account session token purpose : String) (now : ℕ) (before after : Db)
      : Type 0 where
    pub digest : String
    pub digested : token_digest token ≡ ok digest
    pub receipt : Challenge MfaGrant
    pub found : find_where (λ r. r.token_sha256 == digest) before.step_ups ≡ some receipt
    pub was_open : is_open receipt ≡ true
    pub in_time : now < receipt.details.expires_at
    pub for_account : receipt.account_id ≡ account
    pub for_session : receipt.details.account_session_id ≡ session
    pub for_purpose : require_mfa_purpose purpose ≡ ok receipt.details.purpose
    pub authenticator : MfaAuthenticator
    pub is_enrolled : active_mfa_authenticator account before ≡ some authenticator
    pub by_authenticator : authenticator.authenticator_id ≡ receipt.details.authenticator_id
    pub spent : IsSpent digest after.step_ups

  pub consume_mfa_step_up_for_action-IsUsed :
      (account session token purpose : String) (now : ℕ) (db : Db)
      → Ensures
          (consume_mfa_step_up_for_action account session token purpose now)
          db
          (λ _ db'. IsUsed account session token purpose now db db')
  unfolding consume_mfa_step_up_for_action
  consume_mfa_step_up_for_action-IsUsed account session token purpose now db =
      after_lift _ λ normalized allowed. after_require _ _ λ _. after_lift _ λ d digested.
        after_select_one _ _ _ λ c found. after_check _ _ _ _ _ _ c λ opened fresh.
          after_require _ _ λ account_ok. after_require _ _ λ session_ok.
            after_require _ _ λ purpose_ok. after_gets _ λ o o_is. after_or_raise _ _ λ a a_is.
              after_require _ _ λ authenticator_ok. after_update _ _ _ λ n _. after_require _ _ λ _.
                returned _ (record {
                  digest = d;
                  digested = digested;
                  receipt = c;
                  found = found;
                  was_open = opened;
                  in_time = fresh;
                  for_account = (eq_iff _ _).0 account_ok;
                  for_session = (eq_iff _ _).0 session_ok;
                  for_purpose = allowed ∙ ap ok (sym ((eq_iff _ _).0 purpose_ok));
                  authenticator = a;
                  is_enrolled = sym o_is ∙ a_is;
                  by_authenticator = (eq_iff _ _).0 authenticator_ok;
                  spent = (consume now c, consume-found d c now db.step_ups found opened, refl);
                })

  -- When `_consume_mfa_step_up_for_action` returns, the token's receipt was open, in time, of this
  -- account and session, for this purpose, and minted by the account's active authenticator; the
  -- receipt is spent now.
  pub step_up_was_earned :
      (account session token purpose : String) (now : ℕ) (db after : Db) (authenticator : String)
      → consume_mfa_step_up_for_action account session token purpose now db
        ≡ (ok authenticator, after)
      → IsUsed account session token purpose now db after
  step_up_was_earned account session token purpose now db after authenticator h =
      (consume_mfa_step_up_for_action-IsUsed account session token purpose now db).at authenticator
        after h
