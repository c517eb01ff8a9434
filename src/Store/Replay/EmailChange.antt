-- ===== src/Store/Replay/EmailChange.antt =====
-- `consume_email_change`, used twice.
use anar_core.Base.{ℕ, String, refl, ◌≡◌, List}
use anar_core.Platform.{Platform}
use anar_core.Database.Rows.{Db, consume}
use anar_core.Database.Tx.{Connection, ok, err, lift, chain, reading}
use anar_core.Database.Schema.{email_change_challenge}
use anar_core.Database.Evolution.Steps.{steps_rules}
use anar_core.Database.Evolution.Tables.{table_rules}
use anar_core.Database.Ensures.{Ensures, after_require, after_select_one, after_update, after_gets}
use anar_core.Database.Inversion.{consume-found, reading_ok}
use anar_core.Store.Input.{token_digest}
use anar_core.Store.Email.{consume_email_rows, consume_email_change, email_change_unavailable}
use anar_core.Store.Calls.{Call, run}
use anar_core.Store.Evolution.Rows.{revoke_account_authority-Steps}
use anar_core.Store.Replay.Spent.{
  IsSpent, after_check, IsSpent-after, spent_fails, then-IsSpent, refused, refused_with,
}

module _ ⦃platform : Platform⦄ where
  consume_email_rows-spends :
      (d : String) (now : ℕ) (db : Db)
      → Ensures (consume_email_rows d now) db (λ _ db'. IsSpent d db'.email_changes)
  unfolding consume_email_rows
  consume_email_rows-spends d now db = after_select_one _ _ _ λ c found.
      after_check _ _ _ _ _ _ c λ opened fresh. after_gets _ λ conflict _. after_require _ _ λ _.
        after_update _ _ _ λ n _. after_require _ _ λ _. after_update _ _ _ λ m _.
          after_require _ _ λ _.
            then-IsSpent (λ s. s.email_changes) (λ a b e. e.email_changes) d
              (search (steps_rules, table_rules, revoke_account_authority-Steps) depth 12)
              (consume now c, consume-found d c now db.email_changes found opened, refl)

  consume_email_change_refused :
      (token d : String) (now : ℕ) (c : Connection)
      → token_digest token ≡ ok d
      → IsSpent d c.working.email_changes
      → (consume_email_change token now c).0 ≡ err (refused_with email_change_unavailable c)
  unfolding consume_email_change chain reading lift consume_email_rows
  consume_email_change_refused token d now c digested spent = rw digested (
      refused (consume_email_rows d now) email_change_unavailable c
        (spent_fails email_change_challenge d _ _ _ _ _ now _ c.working spent))

  -- A token changes one e-mail address: after a call that returned, whatever calls come between,
  -- `consume_email_change` raises "email change unavailable" for the same token, or, where an
  -- earlier call has left a transaction open, the error of the nested BEGIN.
  pub consume_email_change_once :
      (token : String) (now later : ℕ) (c c' : Connection) (account : String) (calls : List Call)
      → consume_email_change token now c ≡ (ok account, c')
      → (consume_email_change token later (run calls c')).0
        ≡ err (refused_with email_change_unavailable (run calls c'))
  unfolding consume_email_change lift
  consume_email_change_once token now later c c' account calls h =
      let (d, digested, opened) = reading_ok (lift (token_digest token)) _ c h in
      consume_email_change_refused token d later (run calls c') digested (
        IsSpent-after (λ db. db.email_changes) (λ a b e. e.email_changes) d
          (consume_email_rows d now) c calls (consume_email_rows-spends d now c.working) opened)
