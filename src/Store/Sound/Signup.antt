-- ===== src/Store/Sound/Signup.antt =====
-- `signup`, and the verification with the token that it returned.
use mathlib.Core.Path.{subst}
use anar_core.Base.{ℕ, ◌+◌, ◌<◌, String, true, none, ◌≡◌, refl, ap, ◌∙◌, arith, ltb, is_null}
use anar_core.Platform.{Platform, seconds}
use anar_core.Database.Rows.{Db, is_active}
use anar_core.Database.Tx.{
  Tx, Connection, Result, Error, ok, err, at_rest, transactions, catching_integrity, on_integrity,
  chain, chain_end, with_connection, answer, finish,
}
use anar_core.Database.Ensures.{Ensures, returned, after_insert_then, after_require, after_lift}
use anar_core.Database.Inversion.{reading_ok, with_connection_ok}
use anar_core.Store.Challenge.{check_challenge}
use anar_core.Store.Input.{ℤ, require_positive_integer, token_digest}
use anar_core.Store.Account.Signup.{
  SignupInput, SignupDraws, signup_input, signup_rows, signup, verify_email_rows, verify_email,
}
use anar_core.Store.Ended.Loaded.{lt→ltb}
use anar_core.Store.Replay.Spent.{with_state}
use anar_core.Store.Sound.SignupRow.{
  lastly_insert, IsVerifiable, fresh_email, fresh_challenge, first_token, sent,
}

module _ ⦃platform : Platform⦄ where
  signup_rows-IsVerifiable :
      (input : SignupInput) (draws : SignupDraws) (now : ℕ) (db : Db)
      → Ensures
          (signup_rows input draws now)
          db
          (λ _ after. IsVerifiable input.digest draws.account_id (now + seconds input.ttl) after)
  unfolding signup_rows
  signup_rows-IsVerifiable input draws now db = after_insert_then _ _ _ λ _.
      after_insert_then _ _ _ λ _. after_insert_then _ _ _ λ email_ok. after_insert_then _ _ _ λ _.
        lastly_insert _ _ _ λ challenge_ok. record {
          challenge = sent input draws now;
          found = first_token (sent input draws now) db.verifications;
          opened = refl;
          for_account = refl;
          expires_with = refl;
          one_email = fresh_email _ _ email_ok refl refl;
          one_challenge = fresh_challenge _ _ challenge_ok refl;
        }

  verify_email_rows_returns :
      (digest account_id : String) (expires_at later : ℕ) (db : Db)
      → IsVerifiable digest account_id expires_at db
      → later < expires_at
      → (verify_email_rows digest later db).0 ≡ ok account_id
  unfolding verify_email_rows check_challenge transactions
  verify_email_rows_returns digest account_id expires_at later db v in_time =
      let c = v.challenge in
      let fresh : ltb later c.details.expires_at ≡ true = rw v.expires_with (lt→ltb _ _ in_time) in
      let active : is_active c.status ≡ true = ground (arith, v.opened) in
      let unconsumed : is_null c.consumed_at ≡ true = ground (arith, v.opened) in
      let unrevoked : is_null c.revoked_at ≡ true = ground (arith, v.opened) in
      rw v.found (
        rw active (
          rw unconsumed
            (rw unrevoked (rw fresh (rw v.one_email (rw v.one_challenge (ap ok v.for_account)))))))

  signup_input_digest :
      (email password name : String) (ttl : ℤ) (draws : SignupDraws) (db : Db)
      → Ensures (signup_input email password name ttl draws) db (λ input _.
        (require_positive_integer ttl "email verification TTL" none ≡ ok input.ttl)
        × (token_digest draws.verification_token ≡ ok input.digest))
  unfolding signup_input
  signup_input_digest email password name ttl draws db = after_lift _ λ _ _. after_lift _ λ _ _.
      after_require _ _
        λ _. after_lift _ λ n n_is. after_lift _ λ d digested. returned _ (n_is, digested)

  err_stays : {A : Type 0} (e x : Error) → (y : Error) × (on_integrity {A = A} e (err x) ≡ err y)
  unfolding on_integrity
  err_stays e Error.integrity = (e, refl)
  err_stays e (Error.authority m) = (Error.authority m, refl)
  err_stays e (Error.invalid_identifier m) = (Error.invalid_identifier m, refl)
  err_stays e (Error.prefix_mismatch m k) = (Error.prefix_mismatch m k, refl)
  err_stays e (Error.invalid_symbol m) = (Error.invalid_symbol m, refl)
  err_stays e (Error.contract m) = (Error.contract m, refl)
  err_stays e Error.operational = (Error.operational, refl)
  err_stays e Error.overflow = (Error.overflow, refl)
  err_stays e Error.verification = (Error.verification, refl)
  err_stays e Error.bad_json = (Error.bad_json, refl)
  err_stays e Error.type_error = (Error.type_error, refl)
  err_stays e Error.bad_document = (Error.bad_document, refl)

  answered :
      {B : Type 0} (e : Error) (out : B) (r : Result (Unit {0}) × Connection) {b : B}
      {c' : Connection}
      → chain_end (λ _. answer (ok out)) (on_integrity e r.0, r.1) ≡ (ok b, c')
      → (out ≡ b) × (r ≡ (ok tt, c'))
  unfolding answer on_integrity
  answered e out (ok a, d) h = (cc, cc)
  answered e out (err x, d) h =
      let stays = err_stays {A = Unit {0}} e x in let failed = rw stays.1 at h in cc

  signup_end :
      {B : Type 0} (e : Error) (m : Tx (Unit {0})) (out : B) (c c' : Connection) {b : B}
      → chain (catching_integrity e (with_connection m)) (λ _. answer (ok out)) c ≡ (ok b, c')
      → (out ≡ b) × ((db : Db) × (m c.working ≡ (ok tt, db)) × (c' ≡ at_rest db))
  unfolding chain catching_integrity
  signup_end e m out c c' h =
      let done = answered e out (with_connection m c) h in (done.0, with_connection_ok m c done.1)

  answer_of :
      {A : Type 0} (c : Connection) (r : Result A × Db) {a : A} → r.0 ≡ ok a → (finish c r).0 ≡ ok a
  unfolding finish
  answer_of c (ok x, db) h = h
  answer_of c (err e, db) h = cc

  verified_at_rest :
      (token digest account_id : String) (expires_at later : ℕ) (db : Db)
      → token_digest token ≡ ok digest
      → IsVerifiable digest account_id expires_at db
      → later < expires_at
      → (verify_email token later (at_rest db)).0 ≡ ok account_id
  unfolding verify_email transactions
  verified_at_rest token digest account_id expires_at later db digested v in_time = rw digested (
      answer_of (at_rest db) (verify_email_rows digest later db)
        (verify_email_rows_returns digest account_id expires_at later db v in_time))

  -- What `signup` returned verifies the address: on the state that a call of `signup` left,
  -- `verify_email` with the token that it returned answers, until the token expires, with the account
  -- that it returned.
  pub signup_verifies :
      (email password name : String) (ttl : ℤ) (draws : SignupDraws) (now later n : ℕ)
      (c c' : Connection) (identity_id account_id verification_id token : String)
      → signup email password name ttl draws now c
        ≡ (ok (identity_id, account_id, verification_id, token), c')
      → require_positive_integer ttl "email verification TTL" none ≡ ok n
      → later < now + seconds n
      → (verify_email token later c').0 ≡ ok account_id
  unfolding signup
  signup_verifies email password name ttl draws now later n c c' identity_id account_id
        verification_id token h ttl_is in_time =
      let first = reading_ok (signup_input email password name ttl draws) _ c h in
      let facts =
        (signup_input_digest email password name ttl draws c.working).at first.0 _
          (with_state _ first.1) in
      let ended = signup_end _ _ _ c c' first.2 in
      let db = ended.1.0 in
      let v = (signup_rows-IsVerifiable first.0 draws now c.working).at tt db ended.1.1 in
      let same_ttl : first.0.ttl ≡ n = cc in
      let answer =
        verified_at_rest draws.verification_token first.0.digest draws.account_id
          (now + seconds first.0.ttl) later db facts.1 v (omega arith) in
      rw ended.1.2 (
        subst (λ t. (verify_email t later (at_rest db)).0 ≡ ok account_id) (ap (λ o. o.3) ended.0)
          (answer ∙ ap (λ (o : String × String × String × String). ok o.1) ended.0))
