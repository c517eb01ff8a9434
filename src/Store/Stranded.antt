-- ===== src/Store/Stranded.antt =====
-- `create_personal_account` where the INSERT is refused: the statement has opened a transaction, and
-- no handler rolls it back.
use anar_core.Base.{ℕ, String, Bool, true, false, List, [], ◌∷◌, refl, ◌≡◌, ◌||◌, ◌==◌, arith}
use anar_core.Base.Table.{exists_where}
use anar_core.Platform.{Platform}
use anar_core.Database.Rows.{Db, Status, PersonalAccount}
use anar_core.Database.Tx.{ok, err, Error, at_rest, transactions}
use anar_core.Database.Schema.{account_allowed}
use anar_core.Contracts.TypedId.{validate_typed_id}
use anar_core.Store.Input.{token_digest}
use anar_core.Store.Account.Signup.{verify_email}
use anar_core.Store.Identity.{create_personal_account}

exists-or :
    {A : Type 0} (p q : A → Bool) (xs : List A)
    → exists_where q xs ≡ true
    → exists_where (λ r. p r || q r) xs ≡ true
exists-or p q [] h = cc
exists-or p q (x ∷ xs) h = ground (arith, exists-or p q xs)

second_account :
    (db : Db) (row : PersonalAccount)
    → exists_where (λ r. r.identity_id == row.identity_id) db.accounts ≡ true
    → account_allowed db row ≡ false
unfolding account_allowed
second_account db row h =
    rw
      (exists-or (λ r. r.account_id == row.account_id) (λ r. r.identity_id == row.identity_id)
        db.accounts h)
      refl

module _ ⦃platform : Platform⦄ where
  -- `create_personal_account`, called with no open transaction for an identity that has an account,
  -- raises an IntegrityError and leaves the rows as they were, but it leaves a transaction open; the
  -- next `verify_email` with a token that is not empty then raises the error of a nested BEGIN.
  pub create_personal_account_strands :
      (identity normalized account token digest : String) (now later : ℕ) (db : Db)
      → validate_typed_id identity "idn" ≡ ok normalized
      → exists_where (λ r. r.identity_id == identity) db.accounts ≡ true
      → token_digest token ≡ ok digest
      → let c = (create_personal_account identity account now (at_rest db)).1 in
        ((create_personal_account identity account now (at_rest db)).0 ≡ err Error.integrity)
        × (c ≡ record (at_rest db) { in_transaction = true })
        × ((verify_email token later c).0 ≡ err Error.operational)
  unfolding create_personal_account verify_email transactions
  create_personal_account_strands identity normalized account token digest now later db valid taken
        digested =
      let refused =
        second_account db
          (record {
            account_id = account;
            identity_id = identity;
            status = Status.active;
            created_at = now;
          })
          taken in
      rw valid (rw refused (rw digested (refl, refl, refl)))
