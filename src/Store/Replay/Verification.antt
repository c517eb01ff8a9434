-- ===== src/Store/Replay/Verification.antt =====
-- `verify_email`, used twice.
use anar_core.Base.{ℕ, String, refl, ◌≡◌, List}
use anar_core.Platform.{Platform}
use anar_core.Database.Rows.{Db, consume}
use anar_core.Database.Tx.{Connection, ok, err, lift, chain, reading}
use anar_core.Database.Schema.{email_verification_challenge}
use anar_core.Store.Input.{token_digest}
use anar_core.Store.Calls.{Call, run}
use anar_core.Database.Ensures.{Ensures, returned, after_require, after_select_one, after_update}
use anar_core.Database.Inversion.{consume-found, reading_ok}
use anar_core.Store.Account.Signup.{verify_email_rows, verify_email, verification_unavailable}
use anar_core.Store.Replay.Spent.{
  IsSpent, after_check, spent_fails, refused, IsSpent-after, refused_with,
}

module _ ⦃platform : Platform⦄ where
  -- The transaction leaves its token spent.
  verify_email_rows-spends :
      (d : String) (now : ℕ) (db : Db)
      → Ensures (verify_email_rows d now) db (λ account db'. IsSpent d db'.verifications)
  unfolding verify_email_rows
  verify_email_rows-spends d now db = after_select_one _ _ _ λ c found.
      after_check _ _ _ _ _ _ c λ opened fresh. after_update _ _ _ λ n _. after_require _ _ λ _.
        after_update _ _ _ λ m _.
          after_require _ _ λ _.
            returned _ (consume now c, consume-found d c now db.verifications found opened, refl)

  -- The second use, on any connection that sees the token spent.
  verify_email_refused :
      (token d : String) (now : ℕ) (c : Connection)
      → token_digest token ≡ ok d
      → IsSpent d c.working.verifications
      → (verify_email token now c).0 ≡ err (refused_with verification_unavailable c)
  unfolding verify_email chain reading lift verify_email_rows
  verify_email_refused token d now c digested spent = rw digested (
      refused (verify_email_rows d now) verification_unavailable c
        (spent_fails email_verification_challenge d _ _ _ _ _ now _ c.working spent))

  -- Once a token has verified an address, no later call accepts it: whatever calls come between,
  -- `verify_email` raises "email verification unavailable", or, where an earlier call has left a
  -- transaction open, the error of the nested BEGIN.
  pub verify_email_once :
      (token : String) (now later : ℕ) (c c' : Connection) (account : String) (calls : List Call)
      → verify_email token now c ≡ (ok account, c')
      → (verify_email token later (run calls c')).0
        ≡ err (refused_with verification_unavailable (run calls c'))
  unfolding verify_email lift
  verify_email_once token now later c c' account calls h =
      let (d, digested, opened) = reading_ok (lift (token_digest token)) _ c h in
      verify_email_refused token d later (run calls c') digested (
        IsSpent-after (λ db. db.verifications) (λ a b e. e.verifications) d
          (verify_email_rows d now) c calls (verify_email_rows-spends d now c.working) opened)
