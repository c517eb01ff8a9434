-- ===== src/Store/Sound/LoginRow.antt =====
-- `login`: what its checks have found.
use mathlib.Core.Option
use anar_core.Base.{
  ℕ, String, Bool, true, false, none, some, ◌≡◌, refl, ap, ◌∙◌, ◌==◌, ◌&&◌, if◌then◌else◌, inl, inr,
  Bool-cases, not, is_null,
}
use anar_core.Base.Table.{find_where, update_where, find_where-update}
use anar_core.Platform.{Platform, Verdict, verified}
use anar_core.Database.Rows.{
  Db, PasswordCredential, AccountEmail, PersonalAccount, Identity, is_active,
}
use anar_core.Database.Tx.{
  Tx, Connection, Result, Error, ok, err, at_rest, leave_open, autocommit, when, update, pure, ◌>>◌,
}
use anar_core.Database.Schema.{password_credential}
use anar_core.Database.Ensures.{
  Ensures, returned, after_select_one, after_select_one_then, after_lift, after_lift_then,
  after_update_then, lastly_when,
}
use anar_core.Store.Input.{ℤ, normalize_email, require_positive_integer}
use anar_core.Store.Account.Login.{LoginRow, check_verdict, login_row, login_checks}
use anar_core.Store.Sound.Facts.{after_reading}

leave_open_ok :
    {A : Type 0} (c : Connection) (r : Result A × Db) {a : A} {c' : Connection}
    → leave_open c r ≡ (ok a, c')
    → (db : Db) × (r ≡ (ok a, db)) × (c' ≡ at_rest db)
leave_open_ok c (ok a, db) h = (db, cc, cc)
leave_open_ok c (err e, db) h = cc

pub autocommit_ok :
    {A : Type 0} (m : Tx A) (c : Connection) {a : A} {c' : Connection}
    → autocommit m c ≡ (ok a, c')
    → (db : Db) × (m c.working ≡ (ok a, db)) × (c' ≡ at_rest db)
unfolding autocommit
autocommit_ok m c h = leave_open_ok c (m c.working) h

-- The account, its identity and its credential are active.
pub record IsLoginRow (db : Db) (row : LoginRow) : Type 0 where
  pub account : PersonalAccount
  pub account_found :
      find_where (λ a. a.account_id == row.account_id && is_active a.status) db.accounts
      ≡ some account
  pub identity : Identity
  pub identity_found :
      find_where (λ i. i.identity_id == row.identity_id && is_active i.status) db.identities
      ≡ some identity
  pub credential : PasswordCredential
  pub credential_found :
      find_where (λ c. c.account_id == row.account_id && is_active c.status) db.credentials
      ≡ some credential
  pub revision_is : row.credential_revision ≡ credential.credential_revision

-- The active and verified address, its account, and the hash of that account's active credential.
pub record IsNamed (normalized_email : String) (db : Db) (row : LoginRow) : Type 0 where
  pub row_is : IsLoginRow db row
  pub address : AccountEmail
  pub address_found :
      find_where
        (λ r.
          r.normalized_email == normalized_email
          && is_active r.status
          && not (is_null r.verified_at))
        db.emails
      ≡ some address
  pub account_is : row.account_id ≡ address.account_id
  pub identity_is : row.identity_id ≡ row_is.account.identity_id
  pub hash_is : row.password_hash ≡ row_is.credential.password_hash

-- A verdict that is not refused.
accepted : (e : Error) (v : Verdict) (u : Unit {0}) → check_verdict e v ≡ ok u → v ≡ verified true
unfolding check_verdict
accepted e (verified true) u h = refl
accepted e (verified false) u h = cc
accepted e Verdict.mismatch u h = cc
accepted e Verdict.invalid_hash u h = cc
accepted e Verdict.failed u h = cc

module _ ⦃platform : Platform⦄ where
  login_row-IsNamed :
      (email : String) (db : Db)
      → Ensures (login_row email) db (λ row after. IsNamed email db row × (after ≡ db))
  unfolding login_row
  login_row-IsNamed email db = after_select_one _ _ _ λ e e_is. after_select_one _ _ _ λ a a_is.
      after_select_one_then _ _ _ λ i i_is. after_select_one _ _ _ λ c c_is. returned _ (
        record {
          row_is = record {
            account = a;
            account_found = a_is;
            identity = i;
            identity_found = i_is;
            credential = c;
            credential_found = c_is;
            revision_is = refl;
          };
          address = e;
          address_found = e_is;
          account_is = refl;
          identity_is = refl;
          hash_is = refl;
        },
        refl,
      )

  -- What the checks of `login` have found.
  pub record MayLogIn (email password : String) (ttl : ℤ) (db : Db) (n : ℕ) (row : LoginRow)
      : Type 0 where
    pub ttl_is : require_positive_integer ttl "account session TTL" none ≡ ok n
    pub normalized : String
    pub normalized_is : normalize_email email ≡ ok normalized
    pub named : IsNamed normalized db row
    pub password_fits : platform.verify_password row.password_hash password ≡ verified true

  pub login_checks-MayLogIn :
      (email password : String) (ttl : ℤ) (db : Db)
      → Ensures
          (login_checks email password ttl)
          db
          (λ checked _. MayLogIn email password ttl db checked.0 checked.1)
  unfolding login_checks
  login_checks-MayLogIn email password ttl db = after_lift _ λ normalized normal.
      after_lift _ λ n n_is.
        after_reading (login_row normalized) (login_row-IsNamed normalized db) λ row named.
          after_lift_then _ λ u fits. returned _ (record {
            ttl_is = n_is;
            normalized = normalized;
            normalized_is = normal;
            named = named;
            password_fits = accepted _ _ u fits;
          })

  -- A refreshed hash leaves all that a session is checked against.
  rehash-IsLoginRow :
      (row : LoginRow) (p : PasswordCredential → Bool) (hash : String) (t : ℕ) (db : Db)
      → IsLoginRow db row
      → IsLoginRow
          (record db {
            credentials =
                update_where p
                  (λ c. record c { password_hash = hash; updated_at = t })
                  db.credentials;
          })
          row
  rehash-IsLoginRow row p hash t db r =
      let moved =
        find_where-update (λ c. c.account_id == row.account_id && is_active c.status) p
          (λ c. record c { password_hash = hash; updated_at = t }) db.credentials (λ c. refl)
        ∙ ap
            (Option.map (λ c. if p c then record c { password_hash = hash; updated_at = t } else c))
            r.credential_found in
      elim (Bool-cases (p r.credential)) [
        | inl e ↦ record {
          account = r.account;
          account_found = r.account_found;
          identity = r.identity;
          identity_found = r.identity_found;
          credential = record r.credential { password_hash = hash; updated_at = t };
          credential_found = moved ∙ rw e refl;
          revision_is = r.revision_is;
        }
        | inr e ↦ record {
          account = r.account;
          account_found = r.account_found;
          identity = r.identity;
          identity_found = r.identity_found;
          credential = r.credential;
          credential_found = moved ∙ rw e refl;
          revision_is = r.revision_is;
        }
      ]

  pub refresh-IsLoginRow :
      (row : LoginRow) (needed : Bool) (hash : String) (t : ℕ) (db : Db)
      → IsLoginRow db row
      → Ensures
          (when needed (do
            update password_credential
                (λ c. c.account_id == row.account_id)
                (λ c. record c { password_hash = hash; updated_at = t })
            pure tt))
          db
          (λ _ after. IsLoginRow after row)
  refresh-IsLoginRow row needed hash t db r =
      lastly_when needed
        (after_update_then password_credential (λ c. c.account_id == row.account_id)
          (λ c. record c { password_hash = hash; updated_at = t })
          (returned tt (rehash-IsLoginRow row (λ c. c.account_id == row.account_id) hash t db r)))
        r
