-- ===== src/Examples/Runs.antt =====
-- Calls of the concrete store, run by computation.
use anar_core.Base.{some, refl, ◌≡◌}
use anar_core.Database.Tx.{ok, err, at_rest, Error}
use anar_core.Examples.World.{
  toy, world, unverified, account_id, session_id, identity_id, computing,
}
use anar_core.Store.Input.{pos}
use anar_core.Store.Account.Signup.{verify_email}
use anar_core.Store.Account.Signout.{signout}
use anar_core.Store.Session.{authenticate_account_session}
use anar_core.Store.Mfa.StepUp.{consume_mfa_step_up, consume_mfa_step_up_for_action}
use anar_core.Store.Password.{
  PasswordChange, change_checks, change_password, consume_password_reset,
}
use anar_core.Store.Email.{
  EmailRequest, EmailDraws, request_checks, request_email_change, consume_email_change,
}

pub verifies : (verify_email "verify" 20 (at_rest unverified)).0 ≡ ok account_id
unfolding computing
verifies = refl

pub authenticates :
    (authenticate_account_session "bearer" session_id 20 (at_rest world)).0
    ≡ ok (identity_id, account_id)
unfolding computing
authenticates = refl

pub signs_out : (signout "bearer" session_id 20 21 (at_rest world)).0 ≡ ok tt
unfolding computing
signs_out = refl

pub steps_up :
    (consume_mfa_step_up "bearer" session_id "change" "password.change" 20 21 (at_rest world)).0
    ≡ ok "mfa_1"
unfolding computing
steps_up = refl

pub earns :
    (consume_mfa_step_up_for_action account_id session_id "change" "password.change" 21 world).0
    ≡ ok "mfa_1"
unfolding computing
earns = refl

pub resets :
    (consume_password_reset "reset" "battery staple" "battery staple" "salt" 21 (at_rest world)).0
    ≡ ok account_id
unfolding computing
resets = refl

abbrev pub change : PasswordChange
change = record {
  account_id = account_id;
  credential_id = "crd_1";
  replacement_hash = "battery staple";
}

pub change_is_checked :
    (change_checks "bearer" session_id "correct horse" "battery staple" "battery staple" "salt" 20
      world).0
    ≡ ok change
unfolding computing
change_is_checked = refl

pub changes :
    (change_password "bearer" session_id "correct horse" "battery staple" "battery staple"
      (some "change")
      "salt"
      20
      21
      (at_rest world)).0
    ≡ ok tt
unfolding computing
changes = refl

abbrev pub draws : EmailDraws
draws = record { email_change_id = "emc_2"; token = "new token" }

abbrev pub request : EmailRequest
request = record {
  account_id = account_id;
  email = "bob@example.org";
  ttl = 60;
  digest = "new token";
}

pub request_is_checked :
    (request_checks "bearer" session_id "correct horse" "bob@example.org" (pos 60) draws 20 world).0
    ≡ ok request
unfolding computing
request_is_checked = refl

pub requests :
    (request_email_change "bearer" session_id "correct horse" "bob@example.org"
      (pos 60)
      (some "email")
      draws
      20
      21
      (at_rest world)).0
    ≡ ok ("emc_2", "new token")
unfolding computing
requests = refl

pub moves : (consume_email_change "move" 21 (at_rest world)).0 ≡ ok account_id
unfolding computing
moves = refl

-- A receipt for another purpose is refused.
wrong_purpose :
    (change_password "bearer" session_id "correct horse" "battery staple" "battery staple"
      (some "email")
      "salt"
      20
      21
      (at_rest world)).0
    ≡ err (Error.authority "MFA step-up purpose mismatch")
unfolding computing
wrong_purpose = refl
