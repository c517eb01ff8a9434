-- ===== src/Store/Gate/Password.antt =====
-- `change_password` and `request_email_change` of an account with an authenticator.
use mathlib.Core.Path.{subst}
use anar_core.Base.{ℕ, String, Option, none, some, refl, ◌≡◌, sym, ap, ◌∙◌, not, is_null}
use anar_core.Platform.{Platform}
use anar_core.Database.Rows.{Db, MfaAuthenticator}
use anar_core.Database.Tx.{Connection, Error, ok, err, Result, raise}
use anar_core.Database.Evolution.Steps.{steps_rules}
use anar_core.Database.Evolution.Tables.{table_rules}
use anar_core.Database.Evolution.Moves.{Evolution}
use anar_core.Database.Ensures.{
  Ensures, returned, after_then, after_call, after_require, after_gets, ensured, when_holds,
}
use anar_core.Database.Inversion.{reading_ok, immediate_ok}
use anar_core.Store.Mfa.Purpose.{active_mfa_authenticator}
use anar_core.Store.Mfa.StepUp.{consume_mfa_step_up_for_action}
use anar_core.Store.Mfa.Recovery.{supplied_token}
use anar_core.Store.Password.{
  PasswordChange, require_step_up, change_rows, change_checks, change_password,
}
use anar_core.Store.Email.{
  EmailRequest, EmailDraws, request_rows, request_checks, request_email_change,
}
use anar_core.Store.Evolution.Rows.{revoke_account_authority-Steps, replace_hash-Steps}
use anar_core.Store.Gate.Receipt.{IsUsed, consume_mfa_step_up_for_action-IsUsed}
use anar_core.Store.Replay.Spent.{IsSpent-stays, steps_carry, ok_injective}
use anar_core.Store.Input.{ℤ}

raised :
    {A : Type 0} {e : Error} {db db' : Db} {a : A}
    → ◌≡◌ {A = Result A × Db} (err e, db) (ok a, db')
    → ⊥
raised h = cc

module _ ⦃platform : Platform⦄ where
  -- A token was given, and its receipt was used for the purpose.
  abbrev pub Stepped : String → String → Option String → String → ℕ → Db → Db → Type 0
  Stepped account session supplied purpose now before after =
      (token : String) × (supplied ≡ some token)
      × IsUsed account session token purpose now before after

  later-Stepped :
      {account session : String} {supplied : Option String} {purpose : String} {now : ℕ}
      {before mid : Db} (after : Db)
      → Evolution mid after
      → Stepped account session supplied purpose now before mid
      → Stepped account session supplied purpose now before after
  later-Stepped after e (token, given, used) = (
    token,
    given,
    record {
      digest = used.digest;
      digested = used.digested;
      receipt = used.receipt;
      found = used.found;
      was_open = used.was_open;
      in_time = used.in_time;
      for_account = used.for_account;
      for_session = used.for_session;
      for_purpose = used.for_purpose;
      authenticator = used.authenticator;
      is_enrolled = used.is_enrolled;
      by_authenticator = used.by_authenticator;
      spent = IsSpent-stays used.digest _ after.step_ups e.step_ups used.spent;
    },
  )

  pub supplied_token_is :
      (supplied : Option String) (e : Error) (db : Db)
      → Ensures (supplied_token supplied e) db (λ t db'. (supplied ≡ some t) × (db' ≡ db))
  unfolding supplied_token raise
  supplied_token_is none e db = ensured λ a db' h. absurd (raised h)
  supplied_token_is (some t) e db = after_require _ _ λ _. returned t (refl, refl)

  require_step_up-Stepped :
      (account session : String) (supplied : Option String) (purpose : String) (missing : Error)
      (now : ℕ) (db : Db) (a : MfaAuthenticator)
      → active_mfa_authenticator account db ≡ some a
      → Ensures
          (require_step_up account session supplied purpose missing now)
          db
          (λ _ db'. Stepped account session supplied purpose now db db')
  unfolding require_step_up
  require_step_up-Stepped account session supplied purpose missing now db a enrolled =
      after_gets _ λ o o_is. when_holds _ (ap (λ x. not (is_null x)) (o_is ∙ enrolled)) (
        after_call (supplied_token supplied missing) λ t mid given.
          let token_is = (supplied_token_is supplied missing db).at t mid given in
          after_then (consume_mfa_step_up_for_action account session t purpose now) λ x end used.
            returned tt (
              t,
              token_is.0,
              subst (λ s. IsUsed account session t purpose now s end) token_is.1
                  ((consume_mfa_step_up_for_action-IsUsed account session t purpose now mid).at x
                    end used),
            ))

  change_rows-Stepped :
      (change : PasswordChange) (session : String) (supplied : Option String) (now : ℕ) (db : Db)
      (a : MfaAuthenticator)
      → active_mfa_authenticator change.account_id db ≡ some a
      → Ensures
          (change_rows change session supplied now)
          db
          (λ _ db'. Stepped change.account_id session supplied "password.change" now db db')
  unfolding change_rows
  change_rows-Stepped change session supplied now db a enrolled =
      after_then (require_step_up change.account_id session supplied "password.change" _ now)
        λ u mid h.
          let stepped =
            (require_step_up-Stepped change.account_id session supplied "password.change" _ now db a
                enrolled).at
              u mid h in
          steps_carry
            (search (steps_rules, table_rules, replace_hash-Steps, revoke_account_authority-Steps)
              depth 12)
            (λ _ after e. later-Stepped after e stepped)

  request_rows-Stepped :
      (request : EmailRequest) (session : String) (supplied : Option String) (draws : EmailDraws)
      (now : ℕ) (db : Db) (a : MfaAuthenticator)
      → active_mfa_authenticator request.account_id db ≡ some a
      → Ensures
          (request_rows request session supplied draws now)
          db
          (λ _ db'. Stepped request.account_id session supplied "email.change" now db db')
  unfolding request_rows
  request_rows-Stepped request session supplied draws now db a enrolled =
      after_then (require_step_up request.account_id session supplied "email.change" _ now)
        λ u mid h.
          let stepped =
            (require_step_up-Stepped request.account_id session supplied "email.change" _ now db a
                enrolled).at
              u mid h in
          steps_carry (search (steps_rules, table_rules) depth 12)
            (λ _ after e. later-Stepped after e stepped)

  -- An account with an active authenticator changes its password only against a step-up receipt:
  -- when `change_password` returns, a token was given, and its receipt was open, in time, of this
  -- account and session, for "password.change" and of the active authenticator; it is spent now.
  pub change_password-Stepped :
      (bearer session current new repeat_new : String) (supplied : Option String) (salt : String)
      (checked_at now : ℕ) (c c' : Connection) (change : PasswordChange) (a : MfaAuthenticator)
      → (change_checks bearer session current new repeat_new salt checked_at c.working).0
        ≡ ok change
      → active_mfa_authenticator change.account_id c.working ≡ some a
      → change_password bearer session current new repeat_new supplied salt checked_at now c
        ≡ (ok tt, c')
      → Stepped change.account_id session supplied "password.change" now c.working c'.working
  unfolding change_password
  change_password-Stepped bearer session current new repeat_new supplied salt checked_at now c c'
        change a checked enrolled h =
      let begun =
        reading_ok (change_checks bearer session current new repeat_new salt checked_at) _ c h in
      let same : begun.0 ≡ change = ok_injective (sym begun.1 ∙ checked) in
      let ended = (immediate_ok (change_rows begun.0 session supplied now) c begun.2).1 in
      rw ended.2 (
        subst (λ x. Stepped x.account_id session supplied "password.change" now c.working ended.0)
          same
          ((change_rows-Stepped begun.0 session supplied now c.working a (
              subst (λ x. active_mfa_authenticator x.account_id c.working ≡ some a) (sym same)
                enrolled)).at
            tt ended.0 ended.1))

  -- The same for a change of the e-mail address, with the purpose "email.change".
  pub request_email_change-Stepped :
      (bearer session password email : String) (ttl : ℤ) (supplied : Option String)
      (draws : EmailDraws) (checked_at now : ℕ) (c c' : Connection) (request : EmailRequest)
      (answer : String × String) (a : MfaAuthenticator)
      → (request_checks bearer session password email ttl draws checked_at c.working).0 ≡ ok request
      → active_mfa_authenticator request.account_id c.working ≡ some a
      → request_email_change bearer session password email ttl supplied draws checked_at now c
        ≡ (ok answer, c')
      → Stepped request.account_id session supplied "email.change" now c.working c'.working
  unfolding request_email_change
  request_email_change-Stepped bearer session password email ttl supplied draws checked_at now c c'
        request answer a checked enrolled h =
      let begun =
        reading_ok (request_checks bearer session password email ttl draws checked_at) _ c h in
      let same : begun.0 ≡ request = ok_injective (sym begun.1 ∙ checked) in
      let ended = (immediate_ok (request_rows begun.0 session supplied draws now) c begun.2).1 in
      rw ended.2 (
        subst (λ x. Stepped x.account_id session supplied "email.change" now c.working ended.0) same
          ((request_rows-Stepped begun.0 session supplied draws now c.working a (
              subst (λ x. active_mfa_authenticator x.account_id c.working ≡ some a) (sym same)
                enrolled)).at
            answer ended.0 ended.1))
