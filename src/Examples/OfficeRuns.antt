-- ===== src/Examples/OfficeRuns.antt =====
-- Calls on the concrete organization, run by computation.
use anar_core.Base.{true, refl, ◌≡◌, []}
use anar_core.Database.Tx.{ok, err, at_rest, Error}
use anar_core.Contracts.Projection.{AuthorizedSubject, ConsumerHandoffProjection}
use anar_core.Contracts.TypedId.{validate_typed_id}
use anar_core.Examples.World.{toy, world, account_id, session_id, identity_id, computing}
use anar_core.Examples.Office.{
  computing_office, office, organization_id, tenant_id, membership_id, derived_id, guest_id,
}
use anar_core.Store.Input.{pos, is_blank}
use anar_core.Store.Account.Login.{LoginDraws, login}
use anar_core.Store.Account.Signup.{SignupDraws, signup}
use anar_core.Database.Schema.{
  identity_allowed, email_allowed, credential_allowed, verification_allowed,
}
use anar_core.Store.Subject.Project.{authenticate, ready}
use anar_core.Store.Organization.Invitation.{RedeemDraws, redeem_invitation}
use anar_core.Store.Organization.Derive.{DeriveDraws, derive_organization_session}
use anar_core.Store.Organization.Membership.{revoke_membership}
use anar_core.Store.Organization.Handoff.{
  HandoffDraws, issue_consumer_handoff, consume_consumer_handoff,
}

abbrev pub ann : AuthorizedSubject
ann = record {
  identity_id = identity_id;
  account_id = account_id;
  organization_id = organization_id;
  tenant_id = tenant_id;
  session_id = derived_id;
  role_definitions = [];
  entitlement_definitions = [];
  adapter_bindings = [];
  authorization_version = 1;
  entitlement_version = 1;
  expires_at = 800;
  active = true;
}

pub is_authenticated : (authenticate "office bearer" derived_id 20 (at_rest office)).0 ≡ ok ann
unfolding computing_office
is_authenticated = refl

pub is_ready : (ready 20 (λ i. 20) (at_rest office)).0 ≡ ok true
unfolding computing_office
is_ready = refl

abbrev pub redeem_draws : RedeemDraws
redeem_draws = record {
  membership_id = "mbr_00000000000000000000000000000002";
  role_assignment_id = λ i. "ras_1";
  entitlement_grant_id = λ i. "egr_1";
}

pub redeems :
    (redeem_invitation "code" guest_id redeem_draws 20 (at_rest office)).0
    ≡ ok "mbr_00000000000000000000000000000002"
unfolding computing_office
redeems = refl

abbrev pub derive_draws : DeriveDraws
derive_draws = record { session_id = "ses_00000000000000000000000000000002"; bearer = "second" }

pub derives :
    (derive_organization_session "bearer" session_id organization_id
      (pos 60)
      derive_draws
      20
      21
      (at_rest office)).0
    ≡ ok ("ses_00000000000000000000000000000002", "second")
unfolding computing_office
derives = refl

pub ends : (revoke_membership membership_id 20 (at_rest office)).0 ≡ ok tt
unfolding computing_office
ends = refl

abbrev pub handoff_draws : HandoffDraws
handoff_draws = record { handoff_id = "hnd_00000000000000000000000000000002"; token = "next" }

pub issues :
    (issue_consumer_handoff "office bearer" derived_id "adforge"
      (pos 60)
      handoff_draws
      20
      21
      (at_rest office)).0
    ≡ ok ("hnd_00000000000000000000000000000002", "next")
unfolding computing_office
issues = refl

abbrev pub handed_over : ConsumerHandoffProjection
handed_over = record {
  handoff_id = "hnd_00000000000000000000000000000001";
  consumer = "adforge";
  identity_id = identity_id;
  account_id = account_id;
  membership_id = membership_id;
  organization_id = organization_id;
  tenant_id = tenant_id;
  authorization_version = 1;
  entitlement_version = 1;
  hydration = record {
    organization_id = organization_id;
    tenant_id = tenant_id;
    configuration_version = 1;
    references = [];
  };
}

pub hands_over :
    (consume_consumer_handoff "handoff" "adforge" 20 21 (at_rest office)).0 ≡ ok handed_over
unfolding computing_office
hands_over = refl

abbrev pub login_draws : LoginDraws
login_draws = record {
  account_session_id = "acs_00000000000000000000000000000002";
  bearer = "third";
  salt = "salt";
}

pub logs_in :
    (login "ann@example.org" "correct horse" (pos 60) login_draws 20 21 (at_rest world)).0
    ≡ ok ("acs_00000000000000000000000000000002", "third")
unfolding computing_office
logs_in = refl

abbrev pub signup_draws : SignupDraws
signup_draws = record {
  identity_id = "idn_00000000000000000000000000000003";
  account_id = "act_00000000000000000000000000000003";
  credential_id = "crd_00000000000000000000000000000003";
  email_verification_id = "emv_00000000000000000000000000000003";
  verification_token = "welcome";
  salt = "salt";
}

pub signs_up :
    (signup "cid@example.org" "a long password" "Cid" (pos 60) signup_draws 20 (at_rest world)).0
    ≡ ok (
      "idn_00000000000000000000000000000003", "act_00000000000000000000000000000003",
      "emv_00000000000000000000000000000003", "welcome",
    )
unfolding computing_office signup identity_allowed email_allowed credential_allowed
    verification_allowed is_blank
signs_up = refl

pub session_id_is_valid :
    validate_typed_id "acs_00000000000000000000000000000002" "acs"
    ≡ ok "acs_00000000000000000000000000000002"
unfolding computing
session_id_is_valid = refl

-- A second redemption by a member is refused.
already_member :
    (redeem_invitation "code" identity_id redeem_draws 20 (at_rest office)).0
    ≡ err (Error.authority "current membership already exists")
unfolding computing_office
already_member = refl
