-- ===== src/Store/Replay/Reset.antt =====
-- `consume_password_reset`, used twice.
use mathlib.Core.Path.{subst}
use anar_core.Base.{ℕ, String, refl, ◌≡◌, ◌≢◌, List, sym, ap, ◌∙◌}
use anar_core.Platform.{Platform}
use anar_core.Database.Rows.{Db, consume}
use anar_core.Database.Tx.{Connection, ok}
use anar_core.Database.Evolution.Steps.{steps_rules}
use anar_core.Database.Evolution.Tables.{table_rules}
use anar_core.Base.Table.{find_where}
use anar_core.Database.Ensures.{
  Ensures, returned, after_then, after_require, after_select_one, after_update, after_lift,
  after_lift_then, lastly_require,
}
use anar_core.Database.Inversion.{consume-found, reading_ok, immediate_ok}
use anar_core.Store.Input.{token_digest}
use anar_core.Store.Password.{replace_hash, reset_input, consume_reset_rows, consume_password_reset}
use anar_core.Store.Calls.{Call, run}
use anar_core.Store.Evolution.Rows.{revoke_account_authority-Steps}
use anar_core.Store.Replay.Spent.{
  IsSpent, after_check, IsSpent-after, spent_not_open, then-IsSpent, ok_injective, with_state,
}

-- The UPDATE of the credential leaves the challenges alone.
replace_hash-resets :
    (account credential hash : String) (now : ℕ) (db : Db)
    → Ensures (replace_hash account credential hash now) db (λ _ db'. db'.resets ≡ db.resets)
unfolding replace_hash
replace_hash-resets account credential hash now db =
    after_update _ _ _ λ n _. lastly_require _ _ λ _. refl

module _ ⦃platform : Platform⦄ where
  consume_reset_rows-spends :
      (d password salt : String) (now : ℕ) (db : Db)
      → Ensures (consume_reset_rows d password salt now) db (λ _ db'. IsSpent d db'.resets)
  unfolding consume_reset_rows
  consume_reset_rows-spends d password salt now db = after_select_one _ _ _ λ c found.
      after_check _ _ _ _ _ _ c λ opened fresh. after_select_one _ _ _ λ credential _.
        after_lift_then _ λ _ _. after_then (replace_hash _ _ _ now) λ u mid replaced.
          let kept = (replace_hash-resets _ _ _ now db).at u mid replaced in
          let spent = consume-found d c now mid.resets (ap (find_where _) kept ∙ found) opened in
          after_update _ _ _ λ n _. after_require _ _ λ _.
            then-IsSpent (λ s. s.resets) (λ a b e. e.resets) d
              (search (steps_rules, table_rules, revoke_account_authority-Steps) depth 12)
              (consume now c, spent, refl)

  -- A spent token is refused by the checks of its row.
  consume_reset_rows-refuses :
      (d password salt : String) (now : ℕ) (db : Db)
      → IsSpent d db.resets
      → Ensures (consume_reset_rows d password salt now) db (λ _ _. ⊥)
  unfolding consume_reset_rows
  consume_reset_rows-refuses d password salt now db spent = after_select_one _ _ _ λ c found.
      after_check _ _ _ _ _ _ c λ opened _. absurd (spent_not_open d db.resets c spent found opened)

  -- The checks before the transaction: they return the digest of the token.
  reset_input_digest :
      (token password repeat_password : String) (db : Db)
      → Ensures (reset_input token password repeat_password) db (λ r _. token_digest token ≡ ok r.0)
  unfolding reset_input
  reset_input_digest token password repeat_password db =
      after_lift _ λ d digested. after_lift _ λ p _. after_require _ _ λ _. returned _ digested

  -- A password reset token resets one password: after a call that returned, whatever calls come
  -- between, no call with the same token returns, with whatever new password.
  pub consume_password_reset_once :
      (token new repeat_new salt : String) (now : ℕ) (c c' : Connection) (account : String)
      (calls : List Call) (new' repeat_new' salt' : String) (later : ℕ) (account' : String)
      → consume_password_reset token new repeat_new salt now c ≡ (ok account, c')
      → (consume_password_reset token new' repeat_new' salt' later (run calls c')).0 ≢ ok account'
  unfolding consume_password_reset
  consume_password_reset_once token new repeat_new salt now c c' account calls new' repeat_new'
        salt' later account' h again =
      let first = reading_ok (reset_input token new repeat_new) _ c h in
      let second =
        reading_ok (reset_input token new' repeat_new') _ (run calls c') (with_state _ again) in
      let digested =
        (reset_input_digest token new repeat_new c.working).at first.0 _ (with_state _ first.1) in
      let digested' =
        (reset_input_digest token new' repeat_new' (run calls c').working).at second.0 _
          (with_state _ second.1) in
      let same : second.0.0 ≡ first.0.0 = ok_injective (sym digested' ∙ digested) in
      let spent =
        IsSpent-after (λ s. s.resets) (λ a b e. e.resets) first.0.0
          (consume_reset_rows first.0.0 first.0.1 salt now) c calls
          (consume_reset_rows-spends first.0.0 first.0.1 salt now c.working) first.2 in
      let ended = (immediate_ok _ (run calls c') second.2).1 in
      (consume_reset_rows-refuses second.0.0 second.0.1 salt' later (run calls c').working
          (subst (λ d. IsSpent d (run calls c').working.resets) (sym same) spent)).at
        account' ended.0 ended.1
