-- ===== src/Store/Gate/Once.antt =====
-- A step-up receipt and the calls that spend it: `consume_mfa_step_up`, `change_password`,
-- `request_email_change` and the rotation of `issue_mfa_recovery_codes`.
use mathlib.Core.Path.{subst}
use anar_core.Base.{ℕ, String, true, some, List, ◌≡◌, sym, ap, ◌∙◌}
use anar_core.Platform.{Platform}
use anar_core.Database.Rows.{Db, MfaAuthenticator}
use anar_core.Database.Tx.{Connection, ok, at_rest, Tx, immediate}
use anar_core.Database.Ensures.{Ensures, ensured}
use anar_core.Database.Evolution.Moves.{Evolution-refl, Evolution-trans}
use anar_core.Database.Inversion.{reading_ok, immediate_ok}
use anar_core.Store.Input.{ℤ}
use anar_core.Store.Session.{load_account_session}
use anar_core.Store.Mfa.Purpose.{active_mfa_authenticator}
use anar_core.Store.Mfa.StepUp.{consume_mfa_step_up}
use anar_core.Store.Mfa.Recovery.{CodeDraw, issue_checks, issue_mfa_recovery_codes}
use anar_core.Store.Password.{PasswordChange, change_checks, change_password}
use anar_core.Store.Email.{EmailRequest, EmailDraws, request_checks, request_email_change}
use anar_core.Store.Calls.{Call, run}
use anar_core.Store.Evolution.Calls.{run-IsAhead}
use anar_core.Store.Gate.Receipt.{consume_mfa_step_up_for_action-IsUsed}
use anar_core.Store.Gate.Password.{change_password-Stepped, request_email_change-Stepped}
use anar_core.Store.Gate.Taken.{IsTaken, IsUsed-IsTaken, Stepped-IsTaken, issue_rows-IsTaken}
use anar_core.Store.Replay.Spent.{IsSpent, IsSpent-stays, spent_not_open, ok_injective}

module _ ⦃platform : Platform⦄ where
  -- The calls that spend the receipt of this token, each from one state of the connection to the
  -- next: the call for its own sake, a change of the password or of the address of an account with
  -- an active authenticator, and new recovery codes where there have been codes before.
  pub data Spends (token : String) : Connection → Connection → Type 0 where
    spends_alone :
        (bearer session purpose : String) (checked_at now : ℕ) (c c' : Connection)
        (authenticator : String)
        → consume_mfa_step_up bearer session token purpose checked_at now c ≡ (ok authenticator, c')
        → Spends token c c'
    spends_for_password :
        (bearer session current new repeat_new salt : String) (checked_at now : ℕ)
        (c c' : Connection) (change : PasswordChange) (a : MfaAuthenticator)
        → (change_checks bearer session current new repeat_new salt checked_at c.working).0
          ≡ ok change
        → active_mfa_authenticator change.account_id c.working ≡ some a
        → change_password bearer session current new repeat_new (some token) salt checked_at now c
          ≡ (ok tt, c')
        → Spends token c c'
    spends_for_email :
        (bearer session password email : String) (ttl : ℤ) (draws : EmailDraws) (checked_at now : ℕ)
        (c c' : Connection) (request : EmailRequest) (answer : String × String)
        (a : MfaAuthenticator)
        → (request_checks bearer session password email ttl draws checked_at c.working).0
          ≡ ok request
        → active_mfa_authenticator request.account_id c.working ≡ some a
        → request_email_change bearer session password email ttl (some token) draws checked_at now c
          ≡ (ok answer, c')
        → Spends token c c'
    spends_for_codes :
        (bearer session : String) (count : ℤ) (draws : ℕ → List CodeDraw) (checked_at now : ℕ)
        (c c' : Connection) (n : ℕ) (account authenticator : String) (codes : List String)
        → (issue_checks bearer session count checked_at c.working).0
          ≡ ok (n, account, authenticator, true)
        → issue_mfa_recovery_codes bearer session count (some token) draws checked_at now c
          ≡ (ok codes, c')
        → Spends token c c'

  -- What such a call leaves.
  abbrev Left : String → Connection → Connection → Type 0
  Left token c c' = (db : Db) × (c' ≡ at_rest db) × IsTaken token c.working db

  -- A transaction that has returned, and what is known of the data after it.
  rests :
      {A : Type 0} (m : Tx A) (token : String) (c : Connection) {a : A} {c' : Connection}
      → Ensures m c.working (λ _ after. IsTaken token c.working after)
      → immediate m c ≡ (ok a, c')
      → Left token c c'
  rests m token c {a} taken h =
      let ended = (immediate_ok m c h).1 in (ended.0, ended.2, taken.at a ended.0 ended.1)

  rests_working :
      {A : Type 0} (m : Tx A) (token : String) (c : Connection) {a : A} {c' : Connection}
      → IsTaken token c.working c'.working
      → immediate m c ≡ (ok a, c')
      → Left token c c'
  rests_working m token c {a} taken h =
      let ended = (immediate_ok m c h).1 in
      (ended.0, ended.2, subst (λ x. IsTaken token c.working x.working) ended.2 taken)

  Spends-Left : {token : String} {c c' : Connection} → Spends token c c' → Left token c c'
  unfolding consume_mfa_step_up change_password request_email_change issue_mfa_recovery_codes
  Spends-Left {token} (spends_alone bearer session purpose checked_at now c c' authenticator h) =
      let begun = reading_ok (load_account_session bearer session checked_at) _ c h in
      let used =
        consume_mfa_step_up_for_action-IsUsed begun.0.account_id session token purpose now
          c.working in
      rests _ token c (ensured λ a after q. IsUsed-IsTaken (used.at a after q)) begun.2
  Spends-Left {token}
        (spends_for_password bearer session current new repeat_new salt checked_at now c c' change a
          checked enrolled h) =
      let begun =
        reading_ok (change_checks bearer session current new repeat_new salt checked_at) _ c h in
      rests_working _ token c
        (Stepped-IsTaken (
          change_password-Stepped bearer session current new repeat_new (some token) salt checked_at
            now c c' change a checked enrolled h))
        begun.2
  Spends-Left {token}
        (spends_for_email bearer session password email ttl draws checked_at now c c' request answer
          a checked enrolled h) =
      let begun =
        reading_ok (request_checks bearer session password email ttl draws checked_at) _ c h in
      rests_working _ token c
        (Stepped-IsTaken (
          request_email_change-Stepped bearer session password email ttl (some token) draws
            checked_at now c c' request answer a checked enrolled h))
        begun.2
  Spends-Left {token}
        (spends_for_codes bearer session count draws checked_at now c c' n account authenticator
          codes checked h) =
      let begun = reading_ok (issue_checks bearer session count checked_at) _ c h in
      let same = ok_injective (sym begun.1 ∙ checked) in
      rests _ token c
        (issue_rows-IsTaken begun.0.1 session begun.0.2 token begun.0.3 (draws begun.0.0) now
          c.working (ap (λ x. x.3) same))
        begun.2

  -- A receipt that was taken is spent in all that follows, so that it is not open there.
  not_again :
      (token : String) (c c' d : Connection) (calls : List Call)
      → Left token c c'
      → Left token (run calls c') d
      → ⊥
  not_again token c c' d calls (db, rests, taken) (db', rests', again) =
      let ahead = run-IsAhead calls (at_rest db) (Evolution-refl db) in
      let spent =
        IsSpent-stays taken.digest db.step_ups (run calls (at_rest db)).working.step_ups
          ((Evolution-trans ahead.0 ahead.1).step_ups) taken.spent in
      let spent' =
        subst (λ x. IsSpent taken.digest (run calls x).working.step_ups) (sym rests) spent in
      let same = ok_injective (sym taken.digested ∙ again.digested) in
      spent_not_open again.digest (run calls c').working.step_ups again.receipt
        (subst (λ x. IsSpent x (run calls c').working.step_ups) same spent') again.found
        again.was_open

  -- A step-up receipt is good for one action, whichever it is: after a call that spent it, whatever
  -- calls come between, no call spends it again, whoever makes it and for whatever purpose. The calls
  -- that spend a receipt are `consume_mfa_step_up`, `change_password` and `request_email_change` of
  -- an account with an active authenticator, and the rotation of `issue_mfa_recovery_codes`.
  pub step_up_once :
      (token : String) (c c' : Connection) (calls : List Call) (d : Connection)
      → Spends token c c'
      → ¬ Spends token (run calls c') d
  step_up_once token c c' calls d first again =
      not_again token c c' d calls (Spends-Left first) (Spends-Left again)
