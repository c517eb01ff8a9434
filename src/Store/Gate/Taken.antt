-- ===== src/Store/Gate/Taken.antt =====
-- A step-up receipt that a call takes, for the rotation of recovery codes too.
use mathlib.Core.Path.{subst}
use anar_core.Base.{ℕ, String, Bool, true, some, List, ◌≡◌, refl, sym, ap, ◌∙◌, ◌==◌}
use anar_core.Base.Table.{find_where}
use anar_core.Platform.{Platform}
use anar_core.Database.Rows.{Db, Challenge, MfaGrant, is_open, consume}
use anar_core.Database.Tx.{ok}
use anar_core.Database.Ensures.{
  Ensures, after_then, after_require, after_select_one, after_update, after_lift, lastly_require,
  when_holds,
}
use anar_core.Database.Evolution.Steps.{steps_rules}
use anar_core.Database.Evolution.Tables.{table_rules}
use anar_core.Database.Inversion.{consume-found}
use anar_core.Store.Input.{token_digest}
use anar_core.Store.Mfa.Recovery.{CodeDraw, supplied_token, consume_rotation_receipt, issue_rows}
use anar_core.Store.Evolution.Rows.{insert_codes-Steps}
use anar_core.Store.Gate.Receipt.{IsUsed}
use anar_core.Store.Gate.Password.{Stepped, supplied_token_is}
use anar_core.Store.Replay.Spent.{IsSpent, IsSpent-stays, after_check, steps_carry}
use anar_core.Store.Sound.Facts.{after_reading}

module _ ⦃platform : Platform⦄ where
  -- The receipt of a token was open before, and is spent after.
  pub record IsTaken (token : String) (before after : Db) : Type 0 where
    pub digest : String
    pub digested : token_digest token ≡ ok digest
    pub receipt : Challenge MfaGrant
    pub found : find_where (λ r. r.token_sha256 == digest) before.step_ups ≡ some receipt
    pub was_open : is_open receipt ≡ true
    pub spent : IsSpent digest after.step_ups

  pub IsUsed-IsTaken :
      {account session token purpose : String} {now : ℕ} {before after : Db}
      → IsUsed account session token purpose now before after
      → IsTaken token before after
  IsUsed-IsTaken u = record {
    digest = u.digest;
    digested = u.digested;
    receipt = u.receipt;
    found = u.found;
    was_open = u.was_open;
    spent = u.spent;
  }

  pub Stepped-IsTaken :
      {account session token purpose : String} {now : ℕ} {before after : Db}
      → Stepped account session (some token) purpose now before after
      → IsTaken token before after
  Stepped-IsTaken {token = token} {before = before} {after = after} (t, given, used) =
      let same : t ≡ token = cc in subst (λ x. IsTaken x before after) same (IsUsed-IsTaken used)

  pub consume_rotation_receipt-IsTaken :
      (account session authenticator token : String) (now : ℕ) (db : Db)
      → Ensures
          (consume_rotation_receipt account session authenticator (some token) now)
          db
          (λ _ after. IsTaken token db after)
  unfolding consume_rotation_receipt
  consume_rotation_receipt-IsTaken account session authenticator token now db =
      after_reading (supplied_token (some token) _) (supplied_token_is (some token) _ db) λ t given.
        after_lift _ λ d digested. after_select_one _ _ _ λ c found.
          after_check _ _ _ _ _ _ c λ opened _. after_require _ _ λ _. after_require _ _ λ _.
            after_require _ _ λ _. after_require _ _ λ _. after_update _ _ _ λ n _.
              lastly_require _ _ λ _.
                (let same : t ≡ token = cc in
                  record {
                    digest = d;
                    digested = ap token_digest (sym same) ∙ digested;
                    receipt = c;
                    found = found;
                    was_open = opened;
                    spent = (consume now c, consume-found d c now db.step_ups found opened, refl);
                  })

  pub issue_rows-IsTaken :
      (account session authenticator token : String) (rotates : Bool) (draws : List CodeDraw)
      (now : ℕ) (db : Db)
      → rotates ≡ true
      → Ensures
          (issue_rows account session authenticator rotates (some token) draws now)
          db
          (λ _ after. IsTaken token db after)
  unfolding issue_rows
  issue_rows-IsTaken account session authenticator token rotates draws now db rotated =
      after_then _ λ u mid h.
        let taken =
          (when_holds rotates rotated
              (consume_rotation_receipt-IsTaken account session authenticator token now db)).at
            u mid h in
        steps_carry (search (steps_rules, table_rules, insert_codes-Steps) depth 12) λ _ after e.
          record {
            digest = taken.digest;
            digested = taken.digested;
            receipt = taken.receipt;
            found = taken.found;
            was_open = taken.was_open;
            spent = IsSpent-stays taken.digest _ after.step_ups e.step_ups taken.spent;
          }
