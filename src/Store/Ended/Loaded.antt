-- ===== src/Store/Ended/Loaded.antt =====
-- `_load_account_session`: the session that a call has loaded.
use anar_core.Base.{
  ℕ, ◌<◌, String, true, some, refl, ◌≡◌, ◌==◌, ◌&&◌, nat_eq, is_null, ltb→lt, ltb, arith,
}
use anar_core.Base.Table.{find_where}
use anar_core.Platform.{Platform}
use anar_core.Database.Rows.{
  Db, AccountSession, PasswordCredential, PersonalAccount, Identity, is_active,
}
use anar_core.Database.Tx.{ok, statements}
use anar_core.Database.Ensures.{
  Ensures, returned, after_require, after_select_one, after_select_one_then, after_lift,
  after_lift_then,
}
use anar_core.Contracts.TypedId.{validate_typed_id}
use anar_core.Store.Input.{token_digest}
use anar_core.Store.Session.{load_account_session}

pub nat_eq→≡ : (a b : ℕ) → nat_eq a b ≡ true → a ≡ b
nat_eq→≡ a b h = ground arith

pub nat_eq_refl : (a : ℕ) → nat_eq a a ≡ true
nat_eq_refl a = ground arith

pub lt→ltb : (a b : ℕ) → a < b → ltb a b ≡ true
lt→ltb a b h = ground arith

module _ ⦃platform : Platform⦄ where
  -- What the rows of the database say of a bearer and an account session at the time `now`.
  pub record IsLoaded (bearer id : String) (now : ℕ) (db : Db) (row : AccountSession) : Type 0 where
    pub normalized : String
    pub valid_id : validate_typed_id id "acs" ≡ ok normalized
    pub digest : String
    pub digested : token_digest bearer ≡ ok digest
    pub found :
        find_where
          (λ r.
            r.bearer_sha256 == digest
            && r.account_session_id == id
            && is_active r.status
            && is_null r.revoked_at)
          db.account_sessions
        ≡ some row
    pub credential : PasswordCredential
    pub credential_found :
        find_where (λ c. c.account_id == row.account_id && is_active c.status) db.credentials
        ≡ some credential
    pub account : PersonalAccount
    pub account_found :
        find_where (λ a. a.account_id == row.account_id && is_active a.status) db.accounts
        ≡ some account
    pub identity : Identity
    pub identity_found :
        find_where (λ i. i.identity_id == row.identity_id && is_active i.status) db.identities
        ≡ some identity
    pub in_time : now < row.expires_at
    pub current : row.credential_revision ≡ credential.credential_revision

  -- A loaded session is that of the bearer, live and in time, its identity, account and credential
  -- are active, and the credential still has the revision that the session was opened with.
  pub load_account_session-IsLoaded :
      (bearer id : String) (now : ℕ) (db : Db)
      → Ensures
          (load_account_session bearer id now)
          db
          (λ row db'. IsLoaded bearer id now db row × (db' ≡ db))
  unfolding load_account_session
  load_account_session-IsLoaded bearer id now db = after_lift_then _ λ normalized valid.
      after_lift _ λ d digested. after_select_one _ _ _ λ row row_is.
        after_select_one _ _ _ λ credential credential_is.
          after_select_one_then _ _ _ λ account account_is.
            after_select_one_then _ _ _ λ identity identity_is. after_require _ _ λ fresh.
              after_require _ _ λ current. returned _ (
                record {
                  normalized = normalized;
                  valid_id = valid;
                  digest = d;
                  digested = digested;
                  found = row_is;
                  credential = credential;
                  credential_found = credential_is;
                  account = account;
                  account_found = account_is;
                  identity = identity;
                  identity_found = identity_is;
                  in_time = ltb→lt _ _ fresh;
                  current = nat_eq→≡ _ _ current;
                },
                refl,
              )

  pub load_account_session-returns :
      (bearer id : String) (now : ℕ) (db : Db) (row : AccountSession)
      → IsLoaded bearer id now db row
      → load_account_session bearer id now db ≡ (ok row, db)
  unfolding load_account_session statements
  load_account_session-returns bearer id now db row l = rw l.valid_id (
      rw l.digested (
        rw l.found (
          rw l.credential_found (
            rw l.account_found (
              rw l.identity_found (
                rw (lt→ltb _ _ l.in_time)
                  (rw l.current (rw (nat_eq_refl l.credential.credential_revision) refl))))))))
