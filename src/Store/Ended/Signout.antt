-- ===== src/Store/Ended/Signout.antt =====
-- `signout`, and the calls that come after it.
use mathlib.Core.Path.{subst}
use mathlib.Core.Bool.{false≢true}
use anar_core.Base.{ℕ, String, true, false, refl, ◌≡◌, ◌≢◌, List, sym, ◌∙◌, ◌==◌, ◌&&◌, arith}
use anar_core.Base.Table.{exists_where, exists_where-cleared, exists_where-found}
use anar_core.Platform.{Platform}
use anar_core.Database.Rows.{Db, AccountSession}
use anar_core.Database.Tx.{Connection, at_rest, ok, reading}
use anar_core.Database.Ensures.{Ensures, after_require, after_update}
use anar_core.Database.Inversion.{bind_ok, reading_ok, with_connection_ok}
use anar_core.Database.Evolve.{exists_where-update}
use anar_core.Database.Evolution.Moves.{
  Evolution, Evolution-refl, Evolution-trans, is_live_account_session, account_session_key,
}
use anar_core.Store.Session.{load_account_session, authenticate_account_session}
use anar_core.Store.Cascade.{revoke_account_session}
use anar_core.Store.Account.Signout.{signout, signout_rows}
use anar_core.Store.Calls.{Call, run}
use anar_core.Store.Evolution.Rows.{
  revoke_derived-Steps, revoke_account_session_mfa_authority-Steps,
}
use anar_core.Database.Evolution.Steps.{steps_rules}
use anar_core.Store.Evolution.Calls.{run-IsAhead}
use anar_core.Store.Replay.Spent.{steps_carry, with_state}
use anar_core.Store.Ended.Loaded.{IsLoaded, load_account_session-IsLoaded}

-- The account session with this identifier is known, and is not live.
abbrev pub IsEnded : String → Db → Type 0
IsEnded id db =
    (exists_where (λ r. r.account_session_id == id) db.account_sessions ≡ true)
    × (exists_where (λ r. r.account_session_id == id && is_live_account_session r)
          db.account_sessions
        ≡ false)

pub IsEnded-stays : (id : String) {a b : Db} → Evolution a b → IsEnded id a → IsEnded id b
IsEnded-stays id e (known, dead) =
    let later = e.account_sessions.at id known in (later.0, later.1 dead)

module _ ⦃platform : Platform⦄ where
  pub loaded_is_known :
      {bearer id : String} {now : ℕ} {db : Db} {row : AccountSession}
      → IsLoaded bearer id now db row
      → exists_where (λ r. r.account_session_id == id) db.account_sessions ≡ true
  loaded_is_known {bearer} {id} {now} {db} {row} l =
      exists_where-found (λ r. r.account_session_id == id) _ db.account_sessions row
        (λ a h. ground arith) l.found

  pub loaded_is_live :
      {bearer id : String} {now : ℕ} {db : Db} {row : AccountSession}
      → IsLoaded bearer id now db row
      → exists_where
          (λ r. r.account_session_id == id && is_live_account_session r)
          db.account_sessions
        ≡ true
  loaded_is_live {bearer} {id} {now} {db} {row} l =
      exists_where-found (λ r. r.account_session_id == id && is_live_account_session r) _
        db.account_sessions row (λ a h. ground arith) l.found

  -- A session that has ended is refused, whatever the bearer.
  pub ended_refused :
      (bearer id : String) (now : ℕ) (c : Connection) (who : String × String)
      → IsEnded id c.working
      → (authenticate_account_session bearer id now c).0 ≢ ok who
  unfolding authenticate_account_session reading
  ended_refused bearer id now c who ended h =
      let loaded = bind_ok (load_account_session bearer id now) _ c.working (with_state _ h) in
      let l =
        (load_account_session-IsLoaded bearer id now c.working).at loaded.0 loaded.1 loaded.2 in
      false≢true (sym ended.1 ∙ loaded_is_live l.0)

  signout_rows-IsEnded :
      (id : String) (now : ℕ) (db : Db)
      → exists_where (λ r. r.account_session_id == id) db.account_sessions ≡ true
      → Ensures (signout_rows id now) db (λ _ after. IsEnded id after)
  unfolding signout_rows
  signout_rows-IsEnded id now db known = after_update _ _ _ λ n _. after_require _ _ λ _.
      steps_carry
        (search (steps_rules, revoke_derived-Steps, revoke_account_session_mfa_authority-Steps)
          depth 12)
        (λ _ after e. IsEnded-stays id e (
          exists_where-update account_session_key is_live_account_session _
                (λ r. r.account_session_id == id) (revoke_account_session now) db.account_sessions
                (λ r. refl)
              ∙ known,
          exists_where-cleared _ _ (revoke_account_session now) db.account_sessions
              (λ r q. ground arith) (λ r. ground arith),
        ))

  -- A session that was signed out is never accepted again: after `signout` returned, whatever calls
  -- come between, `authenticate_account_session` refuses its identifier with every bearer.
  pub signout_for_good :
      (bearer id : String) (checked_at now : ℕ) (c c' : Connection) (calls : List Call)
      (bearer' : String) (later : ℕ) (who : String × String)
      → signout bearer id checked_at now c ≡ (ok tt, c')
      → (authenticate_account_session bearer' id later (run calls c')).0 ≢ ok who
  unfolding signout
  signout_for_good bearer id checked_at now c c' calls bearer' later who h =
      let begun = reading_ok (load_account_session bearer id checked_at) _ c h in
      let l =
        (load_account_session-IsLoaded bearer id checked_at c.working).at begun.0 _
          (with_state _ begun.1) in
      let ended = with_connection_ok (signout_rows id now) c begun.2 in
      let gone =
        (signout_rows-IsEnded id now c.working (loaded_is_known l.0)).at tt ended.0 ended.1 in
      let past = run-IsAhead calls (at_rest ended.0) (Evolution-refl ended.0) in
      ended_refused bearer' id later (run calls c') who (
        subst (λ s. IsEnded id (run calls s).working) (sym ended.2)
          (IsEnded-stays id (Evolution-trans past.0 past.1) gone))
