-- ===== src/Store/Sound/Login.antt =====
-- `login`, and the authentication with the session that it opened.
use mathlib.Core.Path.{subst}
use anar_core.Base.{ℕ, ◌+◌, ◌<◌, String, none, ◌≡◌, refl, sym, ap, ◌∙◌, eq_refl, arith}
use anar_core.Platform.{Platform, seconds}
use anar_core.Contracts.TypedId.{validate_typed_id}
use anar_core.Database.Rows.{Db, AccountSession, Status}
use anar_core.Database.Tx.{Connection, Result, ok, at_rest, reading, statements}
use anar_core.Database.Ensures.{Ensures, returned, after_lift, after_insert_then, after_then}
use anar_core.Database.Inversion.{reading_ok}
use anar_core.Store.Input.{ℤ, require_positive_integer}
use anar_core.Store.Session.{authenticate_account_session}
use anar_core.Store.Account.Login.{LoginRow, LoginDraws, login_rows, login_checks, login}
use anar_core.Store.Ended.Loaded.{IsLoaded, load_account_session-returns}
use anar_core.Store.Replay.Spent.{with_state}
use anar_core.Store.Sound.LoginRow.{
  autocommit_ok, IsLoginRow, MayLogIn, login_checks-MayLogIn, refresh-IsLoginRow,
}

module _ ⦃platform : Platform⦄ where
  -- The session that the statements leave is loaded.
  login_rows-IsLoaded :
      (password : String) (ttl : ℕ) (row : LoginRow) (draws : LoginDraws)
      (rehashed_at now later : ℕ) (normalized : String) (db : Db)
      → IsLoginRow db row
      → validate_typed_id draws.account_session_id "acs" ≡ ok normalized
      → later < now + seconds ttl
      → Ensures (login_rows password ttl row draws rehashed_at now) db (λ out after.
        (out ≡ (draws.account_session_id, draws.bearer))
        × ((s : AccountSession) × (s.identity_id ≡ row.identity_id)
            × (s.account_id ≡ row.account_id)
            × IsLoaded draws.bearer draws.account_session_id later after s))
  unfolding login_rows
  login_rows-IsLoaded password ttl row draws rehashed_at now later normalized db r valid in_time =
      after_then _ λ u mid rehashed.
        let r' =
          (refresh-IsLoginRow row (platform.check_needs_rehash row.password_hash)
              (platform.hash_password draws.salt password) rehashed_at db r).at
            u mid rehashed in
        after_lift _ λ d digested. after_insert_then _ _ _ λ allowed. returned _ (
          refl,
          (
            opened d,
            refl,
            refl,
            record {
              normalized = normalized;
              valid_id = valid;
              digest = d;
              digested = digested;
              found = rw (eq_refl d) (rw (eq_refl draws.account_session_id) refl);
              credential = r'.credential;
              credential_found = r'.credential_found;
              account = r'.account;
              account_found = r'.account_found;
              identity = r'.identity;
              identity_found = r'.identity_found;
              in_time = in_time;
              current = r'.revision_is;
            },
          ),
        )
    where
      opened : String → AccountSession
      opened d = record {
        account_session_id = draws.account_session_id;
        bearer_sha256 = d;
        identity_id = row.identity_id;
        account_id = row.account_id;
        credential_revision = row.credential_revision;
        expires_at = now + seconds ttl;
        status = Status.active;
        revoked_at = none;
        created_at = now;
      }

  loaded_authenticates :
      (bearer id : String) (later : ℕ) (c : Connection) (s : AccountSession)
      → IsLoaded bearer id later c.working s
      → authenticate_account_session bearer id later c ≡ (ok (s.identity_id, s.account_id), c)
  unfolding authenticate_account_session reading statements
  loaded_authenticates bearer id later c s l =
      rw (load_account_session-returns bearer id later c.working s l) refl

  same_call :
      (b b' i i' : String) (later : ℕ) (c c' : Connection)
      → b ≡ b'
      → i ≡ i'
      → c ≡ c'
      → authenticate_account_session b i later c ≡ authenticate_account_session b' i' later c'
  same_call b b' i i' later c c' p q r = λ j. authenticate_account_session (p j) (q j) later (r j)

  same_answer :
      (i i' a a' : String) (c c' : Connection)
      → i ≡ i'
      → a ≡ a'
      → c ≡ c'
      → ◌≡◌ {A = Result (String × String) × Connection} (ok (i, a), c) (ok (i', a'), c')
  same_answer i i' a a' c c' p q r = λ j. (ok (p j, q j), r j)

  -- What `login` opened is accepted: the address given is active and verified, its account, identity
  -- and credential are active, and the password fits the hash of that credential; on the state that
  -- the call left, `authenticate_account_session` with the session and the bearer that it returned
  -- answers, until the session expires, with this account and its identity, if the identifier that
  -- was drawn for the session is valid.
  pub login_authenticates :
      (email password : String) (ttl : ℤ) (draws : LoginDraws) (rehashed_at now later n : ℕ)
      (normalized : String) (c c' : Connection) (id bearer : String)
      → login email password ttl draws rehashed_at now c ≡ (ok (id, bearer), c')
      → validate_typed_id draws.account_session_id "acs" ≡ ok normalized
      → require_positive_integer ttl "account session TTL" none ≡ ok n
      → later < now + seconds n
      → (row : LoginRow) × MayLogIn email password ttl c.working n row
        × (authenticate_account_session bearer id later c'
            ≡ (ok (row.identity_id, row.account_id), c'))
  unfolding login
  login_authenticates email password ttl draws rehashed_at now later n normalized c c' id bearer h
        valid ttl_is in_time =
      let first = reading_ok (login_checks email password ttl) _ c h in
      let may =
        (login_checks-MayLogIn email password ttl c.working).at first.0 _ (with_state _ first.1) in
      let same_ttl : first.0.0 ≡ n = cc in
      let ended = autocommit_ok _ c first.2 in
      let loaded =
        (login_rows-IsLoaded password first.0.0 first.0.1 draws rehashed_at now later normalized
            c.working may.named.row_is valid (omega arith)).at
          (id, bearer) ended.0 ended.1 in
      let s = loaded.1.0 in
      let answer =
        loaded_authenticates draws.bearer draws.account_session_id later (at_rest ended.0) s
          loaded.1.3 in
      let asked : authenticate_account_session bearer id later c'
          ≡ authenticate_account_session draws.bearer draws.account_session_id later
              (at_rest ended.0) =
        same_call _ _ _ _ later _ _ (ap (λ o. o.1) loaded.0) (ap (λ o. o.0) loaded.0) ended.2 in
      (
        first.0.1,
        subst (λ k. MayLogIn email password ttl c.working k first.0.1) same_ttl may,
        asked ∙ answer ∙ same_answer _ _ _ _ _ _ loaded.1.1 loaded.1.2 (sym ended.2),
      )
