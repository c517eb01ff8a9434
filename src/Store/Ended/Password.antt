-- ===== src/Store/Ended/Password.antt =====
-- `consume_password_reset` and `change_password`: the new credential, and the end of the account's
-- sessions.
use mathlib.Core.Path.{subst}
use anar_core.Base.{
  ℕ, String, true, Option, some, refl, ◌≡◌, sym, ap, ◌∙◌, ◌==◌, ◌&&◌, ◌+◌, eq_refl, &&-parts, inl,
  inr, Bool-cases, ltb, if◌then◌else◌,
}
use anar_core.Base.Table.{find_where, find_where-update, find_where-holds}
use anar_core.Platform.{Platform}
use anar_core.Database.Rows.{Db, PasswordCredential, is_active}
use anar_core.Database.Tx.{Connection, ok, Tx, Error}
use anar_core.Database.Ensures.{
  Ensures, returned, after_then, after_require, after_select_one, after_update, after_lift_then,
  after_lift, after_update_then, ensured, lastly_require, after_gets, after_or_raise, lastly_when,
  after_call,
}
use anar_core.Database.Inversion.{reading_ok, immediate_ok}
use anar_core.Contracts.Text.{codes, length}
use anar_core.Store.Input.{require_password}
use anar_core.Store.Password.{
  PasswordChange, change_checks, change_rows, change_password, require_step_up, replaced,
  replace_hash, consume_reset_rows, consume_password_reset, reset_input,
}
use anar_core.Store.Mfa.StepUp.{consume_mfa_step_up_for_action}
use anar_core.Store.Replay.Spent.{after_check, with_state, ok_injective}
use anar_core.Store.Mfa.Recovery.{supplied_token}
use anar_core.Store.Session.{load_account_session}
use anar_core.Store.Gate.Password.{supplied_token_is}
use anar_core.Store.Ended.Loaded.{load_account_session-IsLoaded}
use anar_core.Store.Ended.Authority.{IsShut, revoke_account_authority-IsShut}
use anar_core.Store.Cascade.{revoke_account_authority}

-- The active credential of an account, before and after.
pub record IsReplaced (account hash : String) (now : ℕ) (before after : Db) : Type 0 where
  pub old : PasswordCredential
  pub old_found :
      find_where (λ c. c.account_id == account && is_active c.status) before.credentials ≡ some old
  pub new : PasswordCredential
  pub new_found :
      find_where (λ c. c.account_id == account && is_active c.status) after.credentials ≡ some new
  pub same_credential : new.credential_id ≡ old.credential_id
  pub hash_is : new.password_hash ≡ hash
  pub revision_raised : new.credential_revision ≡ old.credential_revision + 1
  pub updated_is : new.updated_at ≡ now
  pub created_kept : new.created_at ≡ old.created_at

-- Only the credentials count.
IsReplaced-on :
    {account hash : String} {now : ℕ} (before before' after after' : Db)
    → before.credentials ≡ before'.credentials
    → after.credentials ≡ after'.credentials
    → IsReplaced account hash now before after
    → IsReplaced account hash now before' after'
IsReplaced-on before before' after after' p q r = record {
  old = r.old;
  old_found = ap (find_where _) (sym p) ∙ r.old_found;
  new = r.new;
  new_found = ap (find_where _) (sym q) ∙ r.new_found;
  same_credential = r.same_credential;
  hash_is = r.hash_is;
  revision_raised = r.revision_raised;
  updated_is = r.updated_is;
  created_kept = r.created_kept;
}

reached :
    (account hash : String) (now : ℕ) (c : PasswordCredential)
    → (c.account_id == account && is_active c.status) ≡ true
    → some (
        if c.account_id == account && c.credential_id == c.credential_id && is_active c.status
        then replaced hash now c
        else c)
      ≡ some (replaced hash now c)
reached account hash now c holds =
    let (mine, active) = &&-parts (c.account_id == account) (is_active c.status) holds in
    rw mine (rw active (rw (eq_refl c.credential_id) refl))

replace_hash-IsReplaced :
    (account hash : String) (now : ℕ) (db : Db) (c : PasswordCredential)
    → find_where (λ c. c.account_id == account && is_active c.status) db.credentials ≡ some c
    → Ensures
        (replace_hash account c.credential_id hash now)
        db
        (λ _ after. IsReplaced account hash now db after)
unfolding replace_hash
replace_hash-IsReplaced account hash now db c found = after_update _ _ _ λ n _.
    lastly_require _ _ λ _.
      let holds = find_where-holds _ db.credentials c found in
      record {
        old = c;
        old_found = found;
        new = replaced hash now c;
        new_found =
            find_where-update (λ r. r.account_id == account && is_active r.status)
              (λ r.
                r.account_id == account && r.credential_id == c.credential_id && is_active r.status)
              (replaced hash now) db.credentials (λ r. refl)
            ∙ rw found (reached account hash now c holds);
        same_credential = refl;
        hash_is = refl;
        revision_raised = refl;
        updated_is = refl;
        created_kept = refl;
      }

require_password-same :
    (password : String) {supplied : String}
    → require_password password ≡ ok supplied
    → supplied ≡ password
unfolding require_password
require_password-same password {supplied} h = elim (Bool-cases (ltb (length (codes password)) 12)) [
  | inl e ↦ (let k = rw e at h in cc)
  | inr e ↦ (let k = rw e at h in cc)
]

module _ ⦃platform : Platform⦄ where
  -- What a call that set the password `new` at the time `now` leaves the account.
  pub record IsReset (account salt new : String) (now : ℕ) (before after : Db) : Type 0 where
    pub shut : IsShut account after
    pub credential : IsReplaced account (platform.hash_password salt new) now before after

  reset_input-same :
      (token new repeat_new : String) (db : Db)
      → Ensures (reset_input token new repeat_new) db (λ r _. r.1 ≡ new)
  unfolding reset_input
  reset_input-same token new repeat_new db = after_lift _ λ d _.
      after_lift _
        λ supplied given. after_require _ _ λ _. returned _ (require_password-same new given)

  -- The credential is replaced, and then the authority revoked.
  replaced_and_shut :
      (account salt new : String) (now : ℕ) (before mid : Db)
      → IsReplaced account (platform.hash_password salt new) now before mid
      → Ensures
          (revoke_account_authority account now)
          mid
          (λ _ after. IsReset account salt new now before after)
  replaced_and_shut account salt new now before mid r = ensured λ u after h.
      let s = (revoke_account_authority-IsShut account now mid).at u after h in
      record { shut = s.0; credential = IsReplaced-on before before mid after refl (sym s.2) r }

  consume_reset_rows-IsReset :
      (digest salt new : String) (now : ℕ) (db : Db)
      → Ensures
          (consume_reset_rows digest new salt now)
          db
          (λ account after. IsReset account salt new now db after)
  unfolding consume_reset_rows
  consume_reset_rows-IsReset digest salt new now db = after_select_one _ _ _ λ c found.
      after_check _ _ _ _ _ _ c λ opened fresh. after_select_one _ _ _ λ credential mine.
        after_lift_then _ λ _ _. after_then (replace_hash _ _ _ now) λ u mid h.
          let r =
            (replace_hash-IsReplaced c.account_id (platform.hash_password salt new) now db
                credential mine).at
              u mid h in
          after_update _ _ _ λ n _. after_require _ _ λ _. after_update_then _ _ _ (
            after_then (revoke_account_authority c.account_id now) λ v after k.
              returned c.account_id (
                (replaced_and_shut c.account_id salt new now db _
                    (IsReplaced-on db db mid _ refl refl r)).at
                  v after k))

  -- When `consume_password_reset` returns, the active credential of the account has the hash of the
  -- new password and a revision one higher, and the account has no live session, no open broker
  -- attestation and no open step-up receipt; all this is committed.
  pub consume_password_reset-IsReset :
      (token new repeat_new salt : String) (now : ℕ) (c c' : Connection) (account : String)
      → consume_password_reset token new repeat_new salt now c ≡ (ok account, c')
      → IsReset account salt new now c.working c'.committed
  unfolding consume_password_reset
  consume_password_reset-IsReset token new repeat_new salt now c c' account h =
      let begun = reading_ok (reset_input token new repeat_new) _ c h in
      let same =
        (reset_input-same token new repeat_new c.working).at begun.0 _ (with_state _ begun.1) in
      let ended = (immediate_ok _ c begun.2).1 in
      rw ended.2 (
        subst (λ password. IsReset account salt password now c.working ended.0) same
          ((consume_reset_rows-IsReset begun.0.0 salt begun.0.1 now c.working).at account ended.0
            ended.1))

  -- What leaves the credentials as they are.
  abbrev CredentialsKept : {A : Type 0} → Tx A → Db → Type 0
  CredentialsKept m db = Ensures m db (λ _ after. after.credentials ≡ db.credentials)

  action-credentials :
      (account session token purpose : String) (now : ℕ) (db : Db)
      → CredentialsKept (consume_mfa_step_up_for_action account session token purpose now) db
  unfolding consume_mfa_step_up_for_action
  action-credentials account session token purpose now db = after_lift _ λ normalized allowed.
      after_require _ _ λ _. after_lift _ λ d digested. after_select_one _ _ _ λ c found.
        after_check _ _ _ _ _ _ c λ opened fresh. after_require _ _ λ _. after_require _ _ λ _.
          after_require _ _ λ _. after_gets _ λ o _. after_or_raise _ _ λ a _.
            after_require _ _ λ _. after_update _ _ _ λ n _. after_require _ _ λ _. returned _ refl

  step_up-credentials :
      (account session : String) (supplied : Option String) (purpose : String) (missing : Error)
      (now : ℕ) (db : Db)
      → CredentialsKept (require_step_up account session supplied purpose missing now) db
  unfolding require_step_up
  step_up-credentials account session supplied purpose missing now db = after_gets _ λ o _.
      lastly_when _
        (after_call (supplied_token supplied missing) λ t mid given.
          after_then (consume_mfa_step_up_for_action account session t purpose now) λ x end used.
            returned tt (
              (action-credentials account session t purpose now mid).at x end used
              ∙ ap (λ s. s.credentials) ((supplied_token_is supplied missing db).at t mid given).1))
        refl

  change_rows-IsReset :
      (change : PasswordChange) (session : String) (supplied : Option String) (salt new : String)
      (now : ℕ) (db : Db) (c : PasswordCredential)
      → find_where (λ c. c.account_id == change.account_id && is_active c.status) db.credentials
        ≡ some c
      → c.credential_id ≡ change.credential_id
      → change.replacement_hash ≡ platform.hash_password salt new
      → Ensures
          (change_rows change session supplied now)
          db
          (λ _ after. IsReset change.account_id salt new now db after)
  unfolding change_rows
  change_rows-IsReset change session supplied salt new now db c mine same_id hashed =
      after_then (require_step_up change.account_id session supplied _ _ now) λ u mid h.
        let kept = (step_up-credentials change.account_id session supplied _ _ now db).at u mid h in
        after_then (replace_hash _ _ _ now) λ v mid' k.
          let r =
            (replace_hash-IsReplaced change.account_id (platform.hash_password salt new) now mid c
                (ap (find_where _) kept ∙ mine)).at
              v mid' (rw same_id (rw (← hashed) k)) in
          after_update_then _ _ _ (
            replaced_and_shut change.account_id salt new now db _
              (IsReplaced-on mid db mid' _ kept refl r))

  -- What `change_password` knows after its checks.
  record IsChecked (salt new : String) (db : Db) (change : PasswordChange) : Type 0 where
    credential : PasswordCredential
    mine :
        find_where (λ c. c.account_id == change.account_id && is_active c.status) db.credentials
        ≡ some credential
    same_id : credential.credential_id ≡ change.credential_id
    hashed : change.replacement_hash ≡ platform.hash_password salt new

  change_checks-IsChecked :
      (bearer session current new repeat_new salt : String) (checked_at : ℕ) (db : Db)
      → Ensures
          (change_checks bearer session current new repeat_new salt checked_at)
          db
          (λ change _. IsChecked salt new db change)
  unfolding change_checks
  change_checks-IsChecked bearer session current new repeat_new salt checked_at db =
      after_call (load_account_session bearer session checked_at) λ row mid loaded.
        let l = (load_account_session-IsLoaded bearer session checked_at db).at row mid loaded in
        after_lift _ λ supplied given. after_require _ _ λ _. after_select_one _ _ _ λ c mine.
          after_lift_then _ λ _ _. after_lift_then _ λ _ _. returned _ (record {
            credential = c;
            mine =
                subst
                  (λ s.
                    find_where (λ r. r.account_id == row.account_id && is_active r.status)
                      s.credentials
                    ≡ some c)
                  l.1 mine;
            same_id = refl;
            hashed = ap (platform.hash_password salt) (require_password-same new given);
          })

  -- When `change_password` returns for an account, its active credential has the hash of the new
  -- password and a revision one higher, and it has no live session, no open broker attestation and
  -- no open step-up receipt; all this is committed.
  pub change_password-IsReset :
      (bearer session current new repeat_new : String) (supplied : Option String) (salt : String)
      (checked_at now : ℕ) (c c' : Connection) (change : PasswordChange)
      → (change_checks bearer session current new repeat_new salt checked_at c.working).0
        ≡ ok change
      → change_password bearer session current new repeat_new supplied salt checked_at now c
        ≡ (ok tt, c')
      → IsReset change.account_id salt new now c.working c'.committed
  unfolding change_password
  change_password-IsReset bearer session current new repeat_new supplied salt checked_at now c c'
        change checked h =
      let begun =
        reading_ok (change_checks bearer session current new repeat_new salt checked_at) _ c h in
      let k =
        (change_checks-IsChecked bearer session current new repeat_new salt checked_at c.working).at
          begun.0 _ (with_state _ begun.1) in
      let ended = (immediate_ok (change_rows begun.0 session supplied now) c begun.2).1 in
      rw ended.2 (
        subst (λ x. IsReset x.account_id salt new now c.working ended.0)
          (ok_injective (sym begun.1 ∙ checked))
          ((change_rows-IsReset begun.0 session supplied salt new now c.working k.credential k.mine
              k.same_id k.hashed).at
            tt ended.0 ended.1))
