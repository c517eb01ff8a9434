-- ===== src/Store/Sound/SignupRow.antt =====
-- `signup`: the token and the address that its statements leave.
use mathlib.Core.Path.{subst}
use anar_core.Base.{
  ℕ, suc, ◌+◌, String, Bool, true, false, none, some, List, [], ◌∷◌, ◌≡◌, refl, ap, ◌==◌, ◌&&◌,
  eq_refl, arith, is_null, inl, inr, Bool-cases,
}
use anar_core.Base.Table.{find_where, exists_where, count_where}
use anar_core.Platform.{seconds}
use anar_core.Database.Rows.{Db, Challenge, Deadline, AccountEmail, Status, is_pending, is_open}
use anar_core.Database.Tx.{Result, Error, ok, err, Table, insert}
use anar_core.Database.Schema.{email_allowed, verification_allowed}
use anar_core.Database.Ensures.{Ensures, ensured}
use anar_core.Database.Evolution.Tokens.{exists-or_left}
use anar_core.Store.Account.Signup.{SignupInput, SignupDraws}
use anar_core.Store.Sound.Current.{count_where-none}

pub lastly_insert :
    {A : Type 0} (t : Table A) (allowed : Db → A → Bool) (row : A) {db : Db}
    {Q : Unit {0} → Db → Type 0}
    → (allowed db row ≡ true → Q tt (t.store (row ∷ t.rows db) db))
    → Ensures (insert t allowed row) db Q
unfolding insert
lastly_insert t allowed row {db} {Q} q = ensured λ a after h. elim (Bool-cases (allowed db row)) [
  | inl e ↦
      let done : ◌≡◌ {A = Result (Unit {0}) × Db} (ok tt, t.store (row ∷ t.rows db) db)
          (ok a, after) =
        rw e at h in
      subst (Q a) (ap (λ r. r.1) done) (q e)
  | inr e ↦
      let failed : ◌≡◌ {A = Result (Unit {0}) × Db} (err Error.integrity, db) (ok a, after) =
        rw e at h in
      let no : err Error.integrity ≡ ok a = ap (λ r. r.0) failed in cc
]

-- A count that leaves out rows of a wider test.
exists_narrow :
    {A : Type 0} (p q : A → Bool) (xs : List A)
    → exists_where p xs ≡ false
    → exists_where (λ r. p r && q r) xs ≡ false
exists_narrow p q [] h = refl
exists_narrow p q (x ∷ xs) h = ground (arith, exists_narrow p q xs)

-- An open token in time, and the one pending address of its account.
pub record IsVerifiable (digest account_id : String) (expires_at : ℕ) (db : Db) : Type 0 where
  pub challenge : Challenge Deadline
  pub found : find_where (λ r. r.token_sha256 == digest) db.verifications ≡ some challenge
  pub opened : is_open challenge ≡ true
  pub for_account : challenge.account_id ≡ account_id
  pub expires_with : challenge.details.expires_at ≡ expires_at
  pub one_email :
      count_where
        (λ r. r.account_id == challenge.account_id && is_pending r.status && is_null r.verified_at)
        db.emails
      ≡ 1
  pub one_challenge :
      count_where (λ r. r.challenge_id == challenge.challenge_id && is_open r) db.verifications ≡ 1

pub fresh_email :
    (db : Db) (row : AccountEmail)
    → email_allowed db row ≡ true
    → is_pending row.status ≡ true
    → is_null row.verified_at ≡ true
    → count_where
        (λ r. r.account_id == row.account_id && is_pending r.status && is_null r.verified_at)
        (row ∷ db.emails)
      ≡ 1
unfolding email_allowed
fresh_email db row allowed pending unverified =
    let none_there =
      exists_narrow (λ (r : AccountEmail). r.account_id == row.account_id && is_pending r.status)
        (λ r. is_null r.verified_at) db.emails
        (exists_narrow (λ (r : AccountEmail). r.account_id == row.account_id)
          (λ r. is_pending r.status) db.emails
          (exists-or_left (λ r. r.account_id == row.account_id)
            (λ r. r.normalized_email == row.normalized_email) db.emails (ground arith))) in
    rw (eq_refl row.account_id) (
      rw pending (
        rw unverified (
          ap suc (
            count_where-none
              (λ r. r.account_id == row.account_id && is_pending r.status && is_null r.verified_at)
              db.emails none_there))))

pub fresh_challenge :
    (db : Db) (row : Challenge Deadline)
    → verification_allowed db row ≡ true
    → is_open row ≡ true
    → count_where (λ r. r.challenge_id == row.challenge_id && is_open r) (row ∷ db.verifications)
      ≡ 1
unfolding verification_allowed
fresh_challenge db row allowed opened =
    let none_there =
      exists_narrow (λ (r : Challenge Deadline). r.challenge_id == row.challenge_id) is_open
        db.verifications
        (exists-or_left (λ r. r.challenge_id == row.challenge_id)
          (λ r. r.token_sha256 == row.token_sha256) db.verifications (ground arith)) in
    rw (eq_refl row.challenge_id) (
      rw opened (
        ap suc (
          count_where-none (λ r. r.challenge_id == row.challenge_id && is_open r) db.verifications
            none_there)))

pub first_token :
    (row : Challenge Deadline) (xs : List (Challenge Deadline))
    → find_where (λ r. r.token_sha256 == row.token_sha256) (row ∷ xs) ≡ some row
first_token row xs = rw (eq_refl row.token_sha256) refl

-- The token that a sign-up inserts.
abbrev pub sent : SignupInput → SignupDraws → ℕ → Challenge Deadline
sent input draws now = record {
  challenge_id = draws.email_verification_id;
  token_sha256 = input.digest;
  account_id = draws.account_id;
  consumed_at = none;
  revoked_at = none;
  status = Status.active;
  created_at = now;
  details = record { expires_at = now + seconds input.ttl };
}
