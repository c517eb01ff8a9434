-- ===== src/Examples/Witnesses.antt =====
-- The theorems applied to the concrete store.
use anar_core.Base.{some, refl, ◌≡◌, ◌≢◌, List, [], ◌∷◌}
use anar_core.Base.Table.{All}
use anar_core.Database.Rows.{Db}
use anar_core.Database.Tx.{ok, err, at_rest, Connection}
use anar_core.Database.Evolution.Moves.{Evolution, Evolution-refl}
use anar_core.Database.Evolution.Actions.{IsAhead}
use anar_core.Examples.World.{toy, world, unverified, account_id, session_id, identity_id}
use anar_core.Examples.Runs.{
  verifies, resets, moves, steps_up, earns, signs_out, change, change_is_checked, changes, request,
  draws, request_is_checked, requests,
}
use anar_core.Store.Input.{pos}
use anar_core.Store.Calls.{Call, run}
use anar_core.Store.Session.{authenticate_account_session}
use anar_core.Store.Cascade.{revoke_account_authority}
use anar_core.Store.Account.Signup.{verify_email, verification_unavailable}
use anar_core.Store.Account.Signout.{signout}
use anar_core.Store.Mfa.StepUp.{consume_mfa_step_up, consume_mfa_step_up_for_action}
use anar_core.Store.Password.{change_password, consume_password_reset}
use anar_core.Store.Email.{request_email_change, consume_email_change, email_change_unavailable}
use anar_core.Store.Evolution.Calls.{run-IsAhead}
use anar_core.Store.Replay.Spent.{with_state, refused_with}
use anar_core.Store.Replay.Verification.{verify_email_once}
use anar_core.Store.Replay.Reset.{consume_password_reset_once}
use anar_core.Store.Replay.EmailChange.{consume_email_change_once}
use anar_core.Store.Gate.Receipt.{IsUsed, step_up_was_earned}
use anar_core.Store.Gate.Once.{Spends, spends_alone, step_up_once}
use anar_core.Store.Gate.Password.{Stepped, change_password-Stepped, request_email_change-Stepped}
use anar_core.Store.Ended.Signout.{signout_for_good}
use anar_core.Store.Ended.Authority.{IsShut, NoneDerived, live_ids, authority_is_revoked}
use anar_core.Store.Ended.Password.{
  IsReset, change_password-IsReset, consume_password_reset-IsReset,
}

-- What happens in between.
abbrev calls : List Call
calls =
    Call.authenticate_account_session "bearer" session_id 22
    ∷ Call.signout "bearer" session_id 23 24
    ∷ []

abbrev verified : Connection
verified = (verify_email "verify" 20 (at_rest unverified)).1

verify_email_once_example :
    (verify_email "verify" 30 (run calls verified)).0
    ≡ err (refused_with verification_unavailable (run calls verified))
verify_email_once_example =
    verify_email_once "verify" 20 30 (at_rest unverified) verified account_id calls
      (with_state _ verifies)

abbrev reset : Connection
reset =
    (consume_password_reset "reset" "battery staple" "battery staple" "salt" 21 (at_rest world)).1

consume_password_reset_once_example :
    (consume_password_reset "reset" "another password" "another password" "salt" 30
      (run calls reset)).0
    ≢ ok account_id
consume_password_reset_once_example =
    consume_password_reset_once "reset" "battery staple" "battery staple" "salt" 21 (at_rest world)
      reset account_id calls "another password" "another password" "salt" 30 account_id
      (with_state _ resets)

consume_password_reset-IsReset_example :
    IsReset account_id "salt" "battery staple" 21 world reset.committed
consume_password_reset-IsReset_example =
    consume_password_reset-IsReset "reset" "battery staple" "battery staple" "salt" 21
      (at_rest world) reset account_id (with_state _ resets)

abbrev moved : Connection
moved = (consume_email_change "move" 21 (at_rest world)).1

consume_email_change_once_example :
    (consume_email_change "move" 30 (run calls moved)).0
    ≡ err (refused_with email_change_unavailable (run calls moved))
consume_email_change_once_example =
    consume_email_change_once "move" 21 30 (at_rest world) moved account_id calls
      (with_state _ moves)

abbrev stepped : Connection
stepped =
    (consume_mfa_step_up "bearer" session_id "change" "password.change" 20 21 (at_rest world)).1

step_up_once_example : ¬ Spends "change" (run calls stepped) stepped
step_up_once_example = step_up_once "change" (at_rest world) stepped calls stepped (
    spends_alone "bearer" session_id "password.change" 20 21 (at_rest world) stepped "mfa_1"
      (with_state _ steps_up))

abbrev receipt_used : Db
receipt_used =
    (consume_mfa_step_up_for_action account_id session_id "change" "password.change" 21 world).1

step_up_was_earned_example :
    IsUsed account_id session_id "change" "password.change" 21 world receipt_used
step_up_was_earned_example =
    step_up_was_earned account_id session_id "change" "password.change" 21 world receipt_used
      "mfa_1" (with_state _ earns)

abbrev changed : Connection
changed =
    (change_password "bearer" session_id "correct horse" "battery staple" "battery staple"
      (some "change") "salt" 20 21 (at_rest world)).1

change_password-Stepped_example :
    Stepped account_id session_id (some "change") "password.change" 21 world changed.working
change_password-Stepped_example =
    change_password-Stepped "bearer" session_id "correct horse" "battery staple" "battery staple"
      (some "change") "salt" 20 21 (at_rest world) changed change _ change_is_checked refl
      (with_state _ changes)

change_password-IsReset_example :
    IsReset account_id "salt" "battery staple" 21 world changed.committed
change_password-IsReset_example =
    change_password-IsReset "bearer" session_id "correct horse" "battery staple" "battery staple"
      (some "change") "salt" 20 21 (at_rest world) changed change change_is_checked
      (with_state _ changes)

abbrev requested : Connection
requested =
    (request_email_change "bearer" session_id "correct horse" "bob@example.org" (pos 60)
      (some "email") draws 20 21 (at_rest world)).1

request_email_change-Stepped_example :
    Stepped account_id session_id (some "email") "email.change" 21 world requested.working
request_email_change-Stepped_example =
    request_email_change-Stepped "bearer" session_id "correct horse" "bob@example.org" (pos 60)
      (some "email") draws 20 21 (at_rest world) requested request ("emc_2", "new token") _
      request_is_checked refl (with_state _ requests)

abbrev signed_out : Connection
signed_out = (signout "bearer" session_id 20 21 (at_rest world)).1

signout_for_good_example :
    (authenticate_account_session "bearer" session_id 30 (run calls signed_out)).0
    ≢ ok (identity_id, account_id)
signout_for_good_example =
    signout_for_good "bearer" session_id 20 21 (at_rest world) signed_out calls "bearer" 30
      (identity_id, account_id) (with_state _ signs_out)

abbrev revoked : Db
revoked = (revoke_account_authority account_id 21 world).1

authority_is_revoked_example :
    ((revoke_account_authority account_id 21 world).0 ≡ ok tt)
    × IsShut account_id revoked
    × All (λ s. NoneDerived s revoked) (live_ids account_id world)
    × (revoked.credentials ≡ world.credentials)
authority_is_revoked_example = authority_is_revoked account_id 21 world

run-IsAhead_example :
    Evolution world (run calls (at_rest world)).committed × IsAhead (run calls (at_rest world))
run-IsAhead_example = run-IsAhead calls (at_rest world) (Evolution-refl world)
