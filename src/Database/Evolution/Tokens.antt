-- ===== src/Database/Evolution/Tokens.antt =====
-- The statements of the store on the tables of one-time tokens, as steps of the evolution.
use anar_core.Base.{
  &&-parts, ℕ, Bool, true, false, List, [], ◌∷◌, ◌≡◌, refl, ◌&&◌, ◌||◌, ◌==◌, arith,
}
use anar_core.Base.Table.{exists_where, update_where}
use anar_core.Database.Rows.{
  Db, Challenge, Deadline, EmailChange, RecoveryCode, MfaGrant, Handoff, is_open, consume, revoke,
}
use anar_core.Database.Tx.{update, insert}
use anar_core.Database.Schema.{
  email_verification_challenge, password_reset_challenge, email_change_challenge, mfa_recovery_code,
  mfa_broker_attestation, mfa_step_up_receipt, consumer_handoff, challenge_allowed,
  verification_allowed, reset_allowed, email_change_allowed, recovery_code_allowed, step_up_allowed,
}
use anar_core.Database.Evolve.{Evolves-insert, Evolves-update}
use anar_core.Database.Evolution.Moves.{
  ChallengeMoves, consumes, revokes, stays_as, token_key, TokensEvolve, Evolution-refl,
}
use anar_core.Database.Evolution.Steps.{Steps, Steps-update, Steps-insert}

-- A test that finds open tokens only.
pub record Opens {X : Type 0} (p : Challenge X → Bool) : Type 0 where
  pub at : (c : Challenge X) → p c ≡ true → is_open c ≡ true

tokens_consume :
    {X : Type 0} (p : Challenge X → Bool) (now : ℕ) (xs : List (Challenge X))
    → Opens p
    → TokensEvolve xs (update_where p (consume now) xs)
tokens_consume p now xs o =
    Evolves-update token_key ChallengeMoves stays_as p (consume now) xs (λ c. refl)
      λ c h. consumes now (o.at c h) refl

tokens_revoke :
    {X : Type 0} (p : Challenge X → Bool) (now : ℕ) (xs : List (Challenge X))
    → Opens p
    → TokensEvolve xs (update_where p (revoke now) xs)
tokens_revoke p now xs o =
    Evolves-update token_key ChallengeMoves stays_as p (revoke now) xs (λ c. refl)
      λ c h. revokes now (o.at c h) refl

pub exists-or_right :
    {A : Type 0} (p q : A → Bool) (xs : List A)
    → exists_where (λ r. p r || q r) xs ≡ false
    → exists_where q xs ≡ false
exists-or_right p q [] h = refl
exists-or_right p q (x ∷ xs) h = ground (arith, exists-or_right p q xs)

pub exists-or_left :
    {A : Type 0} (p q : A → Bool) (xs : List A)
    → exists_where (λ r. p r || q r) xs ≡ false
    → exists_where p xs ≡ false
exists-or_left p q [] h = refl
exists-or_left p q (x ∷ xs) h = ground (arith, exists-or_left p q xs)

-- The UNIQUE digest of a new token.
pub fresh_token :
    {X : Type 0} (rows : List (Challenge X)) (db : Db) (row : Challenge X)
    → challenge_allowed rows db row ≡ true
    → exists_where (λ r. token_key r == token_key row) rows ≡ false
fresh_token rows db row h =
    exists-or_right (λ r. r.challenge_id == row.challenge_id)
      (λ r. r.token_sha256 == row.token_sha256) rows (ground arith)

pub tokens_insert :
    {X : Type 0} (rows : List (Challenge X)) (db : Db) (row : Challenge X)
    → challenge_allowed rows db row ≡ true
    → TokensEvolve rows (row ∷ rows)
tokens_insert rows db row h =
    Evolves-insert token_key ChallengeMoves stays_as row rows (fresh_token rows db row h)

pub consume-verifications :
    (p : Challenge Deadline → Bool) (now : ℕ)
    → Opens p
    → Steps (update email_verification_challenge p (consume now))
consume-verifications p now o =
    Steps-update email_verification_challenge p (consume now)
      λ db. assumption (Evolution-refl db, tokens_consume p now db.verifications o)

pub revoke-verifications :
    (p : Challenge Deadline → Bool) (now : ℕ)
    → Opens p
    → Steps (update email_verification_challenge p (revoke now))
revoke-verifications p now o =
    Steps-update email_verification_challenge p (revoke now)
      λ db. assumption (Evolution-refl db, tokens_revoke p now db.verifications o)

pub insert-verifications :
    (row : Challenge Deadline)
    → Steps (insert email_verification_challenge verification_allowed row)
unfolding verification_allowed
insert-verifications row =
    Steps-insert email_verification_challenge verification_allowed row
      λ db h. assumption (Evolution-refl db, tokens_insert db.verifications db row h)

pub consume-resets :
    (p : Challenge Deadline → Bool) (now : ℕ)
    → Opens p
    → Steps (update password_reset_challenge p (consume now))
consume-resets p now o =
    Steps-update password_reset_challenge p (consume now)
      λ db. assumption (Evolution-refl db, tokens_consume p now db.resets o)

pub revoke-resets :
    (p : Challenge Deadline → Bool) (now : ℕ)
    → Opens p
    → Steps (update password_reset_challenge p (revoke now))
revoke-resets p now o =
    Steps-update password_reset_challenge p (revoke now)
      λ db. assumption (Evolution-refl db, tokens_revoke p now db.resets o)

pub insert-resets :
    (row : Challenge Deadline) → Steps (insert password_reset_challenge reset_allowed row)
unfolding reset_allowed
insert-resets row =
    Steps-insert password_reset_challenge reset_allowed row
      λ db h. assumption (Evolution-refl db, tokens_insert db.resets db row h)

pub consume-email_changes :
    (p : Challenge EmailChange → Bool) (now : ℕ)
    → Opens p
    → Steps (update email_change_challenge p (consume now))
consume-email_changes p now o =
    Steps-update email_change_challenge p (consume now)
      λ db. assumption (Evolution-refl db, tokens_consume p now db.email_changes o)

pub revoke-email_changes :
    (p : Challenge EmailChange → Bool) (now : ℕ)
    → Opens p
    → Steps (update email_change_challenge p (revoke now))
revoke-email_changes p now o =
    Steps-update email_change_challenge p (revoke now)
      λ db. assumption (Evolution-refl db, tokens_revoke p now db.email_changes o)

pub insert-email_changes :
    (row : Challenge EmailChange) → Steps (insert email_change_challenge email_change_allowed row)
unfolding email_change_allowed
insert-email_changes row =
    Steps-insert email_change_challenge email_change_allowed row
      λ db h. assumption (Evolution-refl db, tokens_insert db.email_changes db row h)

pub consume-recovery_codes :
    (p : Challenge RecoveryCode → Bool) (now : ℕ)
    → Opens p
    → Steps (update mfa_recovery_code p (consume now))
consume-recovery_codes p now o =
    Steps-update mfa_recovery_code p (consume now)
      λ db. assumption (Evolution-refl db, tokens_consume p now db.recovery_codes o)

pub revoke-recovery_codes :
    (p : Challenge RecoveryCode → Bool) (now : ℕ)
    → Opens p
    → Steps (update mfa_recovery_code p (revoke now))
revoke-recovery_codes p now o =
    Steps-update mfa_recovery_code p (revoke now)
      λ db. assumption (Evolution-refl db, tokens_revoke p now db.recovery_codes o)

pub insert-recovery_codes :
    (row : Challenge RecoveryCode) → Steps (insert mfa_recovery_code recovery_code_allowed row)
unfolding recovery_code_allowed
insert-recovery_codes row =
    Steps-insert mfa_recovery_code recovery_code_allowed row
      λ db h. assumption (Evolution-refl db, tokens_insert db.recovery_codes db row h)

pub consume-attestations :
    (p : Challenge MfaGrant → Bool) (now : ℕ)
    → Opens p
    → Steps (update mfa_broker_attestation p (consume now))
consume-attestations p now o =
    Steps-update mfa_broker_attestation p (consume now)
      λ db. assumption (Evolution-refl db, tokens_consume p now db.attestations o)

pub revoke-attestations :
    (p : Challenge MfaGrant → Bool) (now : ℕ)
    → Opens p
    → Steps (update mfa_broker_attestation p (revoke now))
revoke-attestations p now o =
    Steps-update mfa_broker_attestation p (revoke now)
      λ db. assumption (Evolution-refl db, tokens_revoke p now db.attestations o)

pub consume-step_ups :
    (p : Challenge MfaGrant → Bool) (now : ℕ)
    → Opens p
    → Steps (update mfa_step_up_receipt p (consume now))
consume-step_ups p now o =
    Steps-update mfa_step_up_receipt p (consume now)
      λ db. assumption (Evolution-refl db, tokens_consume p now db.step_ups o)

pub revoke-step_ups :
    (p : Challenge MfaGrant → Bool) (now : ℕ)
    → Opens p
    → Steps (update mfa_step_up_receipt p (revoke now))
revoke-step_ups p now o =
    Steps-update mfa_step_up_receipt p (revoke now)
      λ db. assumption (Evolution-refl db, tokens_revoke p now db.step_ups o)

pub insert-step_ups :
    (row : Challenge MfaGrant) → Steps (insert mfa_step_up_receipt step_up_allowed row)
unfolding step_up_allowed
insert-step_ups row =
    Steps-insert mfa_step_up_receipt step_up_allowed row
      λ db h. assumption (Evolution-refl db, tokens_insert db.step_ups db row (ground arith))

pub consume-handoffs :
    (p : Challenge Handoff → Bool) (now : ℕ)
    → Opens p
    → Steps (update consumer_handoff p (consume now))
consume-handoffs p now o =
    Steps-update consumer_handoff p (consume now)
      λ db. assumption (Evolution-refl db, tokens_consume p now db.handoffs o)

pub revoke-handoffs :
    (p : Challenge Handoff → Bool) (now : ℕ)
    → Opens p
    → Steps (update consumer_handoff p (revoke now))
revoke-handoffs p now o =
    Steps-update consumer_handoff p (revoke now)
      λ db. assumption (Evolution-refl db, tokens_revoke p now db.handoffs o)

pub Opens-is_open : {X : Type 0} → Opens {X = X} is_open
Opens-is_open = record { at = λ c h. h }

pub Opens-and :
    {X : Type 0} (q : Challenge X → Bool) {p : Challenge X → Bool}
    → Opens p
    → Opens (λ c. q c && p c)
Opens-and q {p} o = record { at = λ c h. o.at c (&&-parts (q c) (p c) h).1 }
