-- ===== src/Examples/OfficeWitnesses.antt =====
-- The theorems on an organization's authority applied to the concrete organization.
use anar_core.Base.{
  String, true, false, none, some, arith, refl, ◌==◌, ◌≡◌, ◌≢◌, ◌↔◌, ◌≤◌, List, [], ◌∷◌,
}
use anar_core.Base.Table.{find_where, count_where}
use anar_core.Database.Rows.{revoke_session}
use anar_core.Database.Tx.{ok, err, Error, at_rest, Connection}
use anar_core.Database.Evolution.Members.{one_current}
use anar_core.Contracts.TypedId.{validate_typed_id}
use anar_core.Examples.World.{toy, world, account_id, session_id, identity_id, computing}
use anar_core.Examples.Office.{
  computing_office, office, organization_id, membership_id, derived_id, derived_session, guest_id,
}
use anar_core.Examples.OfficeRuns.{
  ann, is_authenticated, redeem_draws, redeems, derive_draws, derives, ends, handoff_draws, issues,
  handed_over, hands_over, login_draws, logs_in, signup_draws, signs_up, session_id_is_valid,
}
use anar_core.Store.Input.{pos, token_digest, require_positive_integer}
use anar_core.Store.Calls.{Call, run}
use anar_core.Store.Session.{authenticate_account_session}
use anar_core.Store.Account.Signup.{signup, verify_email}
use anar_core.Store.Account.Login.{LoginRow, login}
use anar_core.Store.Identity.{create_personal_account}
use anar_core.Store.Stranded.{create_personal_account_strands}
use anar_core.Store.Replay.Spent.{with_state}
use anar_core.Store.Subject.Project.{project_authorized_subject, authenticate, project, ready}
use anar_core.Store.Organization.Invitation.{redeem_invitation}
use anar_core.Store.Organization.Derive.{derive_organization_session}
use anar_core.Store.Organization.Membership.{revoke_membership}
use anar_core.Store.Organization.Handoff.{issue_consumer_handoff, consume_consumer_handoff}
use anar_core.Store.Sound.Complete.{project_authorized_subject_iff}
use anar_core.Store.Sound.Subject.{IsAuthorized, IsAuthenticated, authenticate-IsAuthenticated}
use anar_core.Store.Sound.Membership.{Ending, end_membership_for_good}
use anar_core.Store.Sound.Consumed.{
  IsRedeemed, consume_consumer_handoff-IsRedeemed, consume_consumer_handoff_once,
}
use anar_core.Store.Sound.Invitation.{
  HasJoined, redeem_invitation-HasJoined, redeem_invitation_once,
}
use anar_core.Store.Sound.Derived.{IsDerived, derive_organization_session-IsDerived}
use anar_core.Store.Sound.Issued.{IsIssued, issue_consumer_handoff-IsIssued}
use anar_core.Store.Sound.ReadyRow.{IsReady}
use anar_core.Store.Sound.Ready.{IsProjected, IsUnprojected, Breaks, ready_answers}
use anar_core.Base.Table.{All, Any}
use anar_core.Base.{◌⊎◌}
use anar_core.Store.Sound.Current.{holds, one_current_always}
use anar_core.Store.Sound.LoginRow.{MayLogIn}
use anar_core.Store.Sound.Signup.{signup_verifies}
use anar_core.Store.Sound.Login.{login_authenticates}

-- What happens in between.
abbrev calls : List Call
calls =
    Call.authenticate "office bearer" derived_id 22 ∷ Call.leave_membership membership_id 23 ∷ []

abbrev authenticated : Connection
authenticated = (authenticate "office bearer" derived_id 20 (at_rest office)).1

authenticate-IsAuthenticated_example :
    IsAuthenticated "office bearer" derived_id 20 office ann × (authenticated ≡ at_rest office)
authenticate-IsAuthenticated_example =
    authenticate-IsAuthenticated "office bearer" derived_id 20 (at_rest office) authenticated ann
      (with_state _ is_authenticated)

project_authorized_subject_iff_example :
    (project_authorized_subject derived_id 20 office ≡ (ok ann, office))
    ↔ IsAuthorized derived_id 20 office ann
project_authorized_subject_iff_example = project_authorized_subject_iff derived_id 20 office ann

abbrev ended : Connection
ended = (revoke_membership membership_id 20 (at_rest office)).1

abbrev later : List Call
later = Call.authenticate "office bearer" derived_id 22 ∷ []

still_there :
    find_where (λ r. r.session_id == derived_id) (run later ended).working.sessions
    ≡ some (revoke_session 20 derived_session)
unfolding computing_office run
still_there = refl

end_membership_for_good_example : (project derived_id 30 (run later ended)).0 ≢ ok ann
end_membership_for_good_example =
    end_membership_for_good Ending.revokes membership_id 20 (at_rest office) ended later derived_id
      30 (revoke_session 20 derived_session) ann (with_state _ ends) still_there refl

abbrev redeemed : Connection
redeemed = (redeem_invitation "code" guest_id redeem_draws 20 (at_rest office)).1

redeem_invitation-HasJoined_example :
    HasJoined "code" guest_id "mbr_00000000000000000000000000000002" 20 office redeemed.committed
redeem_invitation-HasJoined_example =
    redeem_invitation-HasJoined "code" guest_id redeem_draws 20 (at_rest office) redeemed _
      (with_state _ redeems)

redeem_invitation_once_example :
    (redeem_invitation "code" identity_id redeem_draws 30 (run calls redeemed)).0 ≢ ok "mbr_3"
redeem_invitation_once_example =
    redeem_invitation_once "code" guest_id redeem_draws 20 (at_rest office) redeemed _ calls
      identity_id redeem_draws 30 "mbr_3" (with_state _ redeems)

abbrev derivation : Connection
derivation =
    (derive_organization_session "bearer" session_id organization_id (pos 60) derive_draws 20 21
      (at_rest office)).1

derive_organization_session-IsDerived_example :
    IsDerived "bearer" session_id organization_id
      (pos 60)
      derive_draws
      20
      21
      office
      derivation.committed
derive_organization_session-IsDerived_example =
    derive_organization_session-IsDerived "bearer" session_id organization_id (pos 60) derive_draws
      20 21 (at_rest office) derivation _ (with_state _ derives)

abbrev issued : Connection
issued =
    (issue_consumer_handoff "office bearer" derived_id "adforge" (pos 60) handoff_draws 20 21
      (at_rest office)).1

issue_consumer_handoff-IsIssued_example :
    IsIssued "office bearer" derived_id (pos 60) handoff_draws 20 21 office issued.committed
issue_consumer_handoff-IsIssued_example =
    issue_consumer_handoff-IsIssued "office bearer" derived_id "adforge" (pos 60) handoff_draws 20
      21 (at_rest office) issued _ (with_state _ issues)

abbrev handed : Connection
handed = (consume_consumer_handoff "handoff" "adforge" 20 21 (at_rest office)).1

consume_consumer_handoff-IsRedeemed_example :
    (digest : String) × (token_digest "handoff" ≡ ok digest)
    × IsRedeemed digest "adforge" 20 21 office handed.committed handed_over
consume_consumer_handoff-IsRedeemed_example =
    consume_consumer_handoff-IsRedeemed "handoff" "adforge" 20 21 (at_rest office) handed
      handed_over (with_state _ hands_over)

consume_consumer_handoff_once_example :
    (consume_consumer_handoff "handoff" "adforge" 30 31 (run calls handed)).0 ≢ ok handed_over
consume_consumer_handoff_once_example =
    consume_consumer_handoff_once "handoff" "adforge" 20 21 (at_rest office) handed handed_over
      calls "adforge" 30 31 handed_over (with_state _ hands_over)

ready_answers_example :
    ((ready 20 (λ i. 20) (at_rest office)).0 ≡ ok true
      → Any (λ s. IsReady 20 office s × IsProjected (λ i. 20) office s) office.sessions)
    × ((ready 20 (λ i. 20) (at_rest office)).0 ≡ ok false
        → All (λ s. IsReady 20 office s → IsUnprojected (λ i. 20) office s) office.sessions
          ⊎ Any (λ s. IsReady 20 office s × Breaks (λ i. 20) office s) office.sessions)
    × ((ready 20 (λ i. 20) (at_rest office)).1 ≡ at_rest office)
ready_answers_example = ready_answers 20 (λ i. 20) (at_rest office)

had_one : one_current office.memberships ≡ true
unfolding one_current
had_one = refl

one_current_always_example :
    count_where
      (holds identity_id organization_id)
      (run calls (at_rest office)).committed.memberships
    ≤ 1
one_current_always_example = one_current_always calls office identity_id organization_id had_one

abbrev logged_in : Connection
logged_in = (login "ann@example.org" "correct horse" (pos 60) login_draws 20 21 (at_rest world)).1

one_minute : require_positive_integer (pos 60) "account session TTL" none ≡ ok 60
unfolding computing
one_minute = refl

login_authenticates_example :
    (row : LoginRow) × MayLogIn "ann@example.org" "correct horse" (pos 60) world 60 row
    × (authenticate_account_session "third" "acs_00000000000000000000000000000002" 30 logged_in
        ≡ (ok (row.identity_id, row.account_id), logged_in))
login_authenticates_example =
    login_authenticates "ann@example.org" "correct horse" (pos 60) login_draws 20 21 30 60 _
      (at_rest world) logged_in _ _ (with_state _ logs_in) session_id_is_valid one_minute
      (omega arith)

abbrev signed_up : Connection
signed_up =
    (signup "cid@example.org" "a long password" "Cid" (pos 60) signup_draws 20 (at_rest world)).1

one_minute_token : require_positive_integer (pos 60) "email verification TTL" none ≡ ok 60
unfolding computing
one_minute_token = refl

signup_verifies_example :
    (verify_email "welcome" 30 signed_up).0 ≡ ok "act_00000000000000000000000000000003"
signup_verifies_example =
    signup_verifies "cid@example.org" "a long password" "Cid" (pos 60) signup_draws 20 30 60
      (at_rest world) signed_up _ _ _ "welcome" (with_state _ signs_up) one_minute_token
      (omega arith)

valid_identity : validate_typed_id identity_id "idn" ≡ ok identity_id
unfolding computing
valid_identity = refl

digest_of_token : token_digest "token" ≡ ok "token"
unfolding computing
digest_of_token = refl

create_personal_account_strands_example :
    let c = (create_personal_account identity_id "act_2" 20 (at_rest world)).1 in
    ((create_personal_account identity_id "act_2" 20 (at_rest world)).0 ≡ err Error.integrity)
    × (c ≡ record (at_rest world) { in_transaction = true })
    × ((verify_email "token" 30 c).0 ≡ err Error.operational)
create_personal_account_strands_example =
    create_personal_account_strands identity_id _ "act_2" "token" _ 20 30 world valid_identity refl
      digest_of_token
