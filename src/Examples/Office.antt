-- ===== src/Examples/Office.antt =====
-- The concrete account as a member of an organization, with a derived session, an invitation and a
-- handoff.
use anar_core.Base.{String, Bool, true, none, some, [], ◌∷◌}
use anar_core.Contracts.Check.{
  traverse, positive_integer, canonical_json, loads, versioned_definition_ref,
}
use anar_core.Contracts.Symbol.{normalize_symbol}
use anar_core.Contracts.Binding.{check_scope, checked_binding}
use anar_core.Contracts.Projection.{
  checked_subject, checked_reference, checked_hydration, checked_handoff,
}
use anar_core.Base.Sort.{insert_by, order_by, distinct}
use anar_core.Database.Rows.{Db, Status, Session, Identity}
use anar_core.Database.Schema.{account_session_allowed}
use anar_core.Database.Authority.{
  membership_allowed, assignment_allowed, grant_allowed, session_allowed, handoff_allowed,
}
use anar_core.Store.Account.Login.{check_verdict, login_row}
use anar_core.Store.Subject.Graph.{live_session, authority_graph, check_graph, session_membership}
use anar_core.Store.Subject.Grants.{load_grants, binding_contracts, role_refs, entitlement_refs}
use anar_core.Store.Subject.Project.{
  subject_of, project_authorized_subject, project, authenticate_rows, authenticate,
  has_ready_parent, is_ready_session, is_caught, is_swallowed, ready_round, ready_loop,
  ready_answer, ready,
}
use anar_core.Store.Organization.Invitation.{
  assign_roles, grant_entitlements, usable_invitation, redeem_rows, redeem_invitation,
}
use anar_core.Store.Organization.Derive.{derive_checks, derive_organization_session}
use anar_core.Store.Organization.Membership.{
  revoke_membership_sessions, end_membership_rows, revoke_membership,
}
use anar_core.Store.Organization.Hydration.{hydration_of}
use anar_core.Store.Organization.Handoff.{
  require_scope, check_handoff, check_source, check_parties, handoff_checks, issue_handoff_rows,
  issue_consumer_handoff, handoff_input, consume_handoff_rows, consume_consumer_handoff,
}
use anar_core.Examples.World.{toy, world, account_id, session_id, identity_id, computing, challenge}

-- Named on an `unfolding` line, this opens the calls that are run here.
unfoldable pub computing_office : Bool
unfolding computing traverse positive_integer canonical_json loads versioned_definition_ref
    normalize_symbol check_scope checked_binding checked_subject checked_reference checked_hydration
    checked_handoff insert_by order_by distinct account_session_allowed membership_allowed
    assignment_allowed grant_allowed session_allowed handoff_allowed check_verdict login_row
    live_session authority_graph check_graph session_membership load_grants binding_contracts
    role_refs entitlement_refs subject_of project_authorized_subject project authenticate_rows
    authenticate has_ready_parent is_ready_session is_caught is_swallowed ready_round ready_loop
    ready_answer ready assign_roles grant_entitlements usable_invitation redeem_rows
    redeem_invitation derive_checks derive_organization_session revoke_membership_sessions
    end_membership_rows revoke_membership hydration_of require_scope check_handoff check_source
    check_parties handoff_checks issue_handoff_rows issue_consumer_handoff handoff_input
    consume_handoff_rows consume_consumer_handoff
computing_office = true

abbrev pub organization_id : String
organization_id = "org_00000000000000000000000000000001"

abbrev pub tenant_id : String
tenant_id = "tnt_00000000000000000000000000000001"

abbrev pub membership_id : String
membership_id = "mbr_00000000000000000000000000000001"

abbrev pub derived_id : String
derived_id = "ses_00000000000000000000000000000001"

abbrev pub guest_id : String
guest_id = "idn_00000000000000000000000000000002"

abbrev pub derived_session : Session
derived_session = record {
  session_id = derived_id;
  bearer_sha256 = "office bearer";
  identity_id = identity_id;
  account_id = account_id;
  membership_id = membership_id;
  organization_id = organization_id;
  tenant_id = tenant_id;
  account_session_id = some session_id;
  authorization_version = 1;
  entitlement_version = 1;
  credential_revision = 1;
  expires_at = 800;
  status = Status.active;
  revoked_at = none;
  created_at = 12;
}

abbrev pub guest : Identity
guest = record {
  identity_id = guest_id;
  identity_kind = "human";
  display_name = "Bob";
  status = Status.active;
  created_at = 2;
}

abbrev pub office : Db
office = record world {
  identities = guest ∷ world.identities;
  organizations =
      record {
        organization_id = organization_id;
        canonical_name = "Office";
        status = Status.active;
        hydration_version = 1;
        created_at = 3;
      }
      ∷ [];
  tenants =
      record {
        tenant_id = tenant_id;
        organization_id = organization_id;
        status = Status.active;
        created_at = 3;
      }
      ∷ [];
  memberships =
      record {
        membership_id = membership_id;
        identity_id = identity_id;
        organization_id = organization_id;
        status = Status.active;
        authorization_version = 1;
        entitlement_version = 1;
        created_at = 4;
      }
      ∷ [];
  sessions = derived_session ∷ [];
  invitations =
      record {
        invitation_id = "inv_00000000000000000000000000000001";
        code_sha256 = "code";
        organization_id = organization_id;
        tenant_id = tenant_id;
        role_refs_json = "[]";
        entitlement_refs_json = "[]";
        expires_at = 400;
        maximum_uses = 1;
        consumed_uses = 0;
        status = Status.active;
        created_at = 5;
      }
      ∷ [];
  handoffs =
      challenge "hnd_00000000000000000000000000000001" "handoff" (record {
        consumer = "adforge";
        identity_id = identity_id;
        membership_id = membership_id;
        organization_id = organization_id;
        tenant_id = tenant_id;
        source_session_id = derived_id;
        authorization_version = 1;
        entitlement_version = 1;
        expires_at = 300;
      })
      ∷ [];
}
