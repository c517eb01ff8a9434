-- ===== src/Examples/World.antt =====
-- A platform without cryptography and a database with one account, for runs by computation.
use anar_core.Base.{String, Bool, true, false, none, some, [], ◌∷◌, ◌==◌}
use anar_core.Base.{pos, if◌then◌else◌, Option}
use anar_core.Contracts.Json.{Json, arr, obj, str, num, nil, cons, field, end}
use anar_core.Platform.{Platform, Verdict, verified, mismatch}
use anar_core.Database.Rows.{Db, Status, Challenge, MfaGrant, AccountSession}
use anar_core.Database.Tx.{transactions}
use anar_core.Contracts.TypedId.{validate_typed_id}
use anar_core.Store.Input.{
  token_digest, normalize_email, require_password, require_positive_integer,
}
use anar_core.Database.Schema.{email_change_allowed, account_allowed}
use anar_core.Store.Session.{load_account_session, authenticate_account_session}
use anar_core.Store.Cascade.{
  revoke_derived, revoke_derived_all, revoke_mfa_authority, revoke_account_authority,
  revoke_account_session_mfa_authority,
}
use anar_core.Store.Account.Signup.{signup_input, signup_rows, verify_email, verify_email_rows}
use anar_core.Store.Account.Login.{login, login_checks, login_rows}
use anar_core.Store.Account.Signout.{signout, signout_rows}
use anar_core.Store.Mfa.Purpose.{require_mfa_purpose}
use anar_core.Store.Mfa.StepUp.{consume_mfa_step_up, consume_mfa_step_up_for_action}
use anar_core.Store.Mfa.Recovery.{supplied_token}
use anar_core.Store.Password.{
  change_password, change_checks, change_rows, consume_password_reset, reset_input,
  consume_reset_rows,
}
use anar_core.Store.Email.{
  request_email_change, request_checks, request_rows, consume_email_change, consume_email_rows,
}
use anar_core.Store.Identity.{create_personal_account}

-- Named on an `unfolding` line, this opens the calls that are run.
unfoldable pub computing : Bool
unfolding transactions validate_typed_id token_digest normalize_email require_password
    require_positive_integer load_account_session authenticate_account_session revoke_derived
    revoke_derived_all revoke_mfa_authority revoke_account_authority
    revoke_account_session_mfa_authority signup_input signup_rows verify_email verify_email_rows
    login login_checks login_rows signout signout_rows require_mfa_purpose consume_mfa_step_up
    consume_mfa_step_up_for_action supplied_token change_password change_checks change_rows
    consume_password_reset reset_input consume_reset_rows request_email_change request_checks
    request_rows consume_email_change consume_email_rows create_personal_account
    email_change_allowed account_allowed
computing = true

abbrev pub compare_hash : Bool → Verdict
compare_hash true = verified true
compare_hash false = mismatch

-- One document, and the empty list.
abbrev pub role_document : Json
role_document = obj (
    field "definitionId" (str "rol_00000000000000000000000000000001")
      (field "version" (num (pos 1)) end))

abbrev pub dump : Json → Option String
dump (arr nil) = some "[]"
dump _ = some "{}"

abbrev pub load : String → Option Json
load s = if s == "[]" then some (arr nil) else some (arr (cons role_document nil))

instance abbrev pub toy : Platform
toy = record {
  sha256 = λ s. s;
  hash_password = λ salt password. password;
  verify_password = λ hash password. compare_hash (hash == password);
  check_needs_rehash = λ hash. false;
  strip = λ s. s;
  lower = λ s. s;
  casefold = λ s. s;
  nfkc = λ s. s;
  json_dumps = dump;
  json_loads = load;
  compare_digest = λ s t. some (s == t);
}

abbrev pub empty : Db
empty = record {
  identities = [];
  accounts = [];
  emails = [];
  credentials = [];
  verifications = [];
  resets = [];
  email_changes = [];
  authenticators = [];
  recovery_codes = [];
  attestations = [];
  step_ups = [];
  account_sessions = [];
  sessions = [];
  handoffs = [];
  organizations = [];
  tenants = [];
  memberships = [];
  roles = [];
  policies = [];
  entitlements = [];
  adapters = [];
  operations = [];
  role_assignments = [];
  entitlement_grants = [];
  bindings = [];
  invitations = [];
  hydration_references = [];
}

abbrev pub account_id : String
account_id = "act_00000000000000000000000000000001"

abbrev pub session_id : String
session_id = "acs_00000000000000000000000000000001"

abbrev pub identity_id : String
identity_id = "idn_00000000000000000000000000000001"

abbrev pub ann_session : AccountSession
ann_session = record {
  account_session_id = session_id;
  bearer_sha256 = "bearer";
  identity_id = identity_id;
  account_id = account_id;
  credential_revision = 1;
  expires_at = 900;
  status = Status.active;
  revoked_at = none;
  created_at = 10;
}

abbrev pub challenge : {X : Type 0} → String → String → X → Challenge X
challenge id token details = record {
  challenge_id = id;
  token_sha256 = token;
  account_id = account_id;
  consumed_at = none;
  revoked_at = none;
  status = Status.active;
  created_at = 10;
  details = details;
}

abbrev pub grant : String → MfaGrant
grant purpose = record {
  account_session_id = session_id;
  authenticator_id = "mfa_1";
  purpose = purpose;
  expires_at = 500;
}

-- An account with a session, an authenticator, and open tokens of several kinds.
abbrev pub world : Db
world = record empty {
  identities =
      record {
        identity_id = identity_id;
        identity_kind = "human";
        display_name = "Ann";
        status = Status.active;
        created_at = 1;
      }
      ∷ [];
  accounts =
      record {
        account_id = account_id;
        identity_id = identity_id;
        status = Status.active;
        created_at = 1;
      }
      ∷ [];
  emails =
      record {
        account_id = account_id;
        normalized_email = "ann@example.org";
        verified_at = some 2;
        status = Status.active;
        created_at = 1;
      }
      ∷ [];
  credentials =
      record {
        credential_id = "crd_1";
        account_id = account_id;
        password_hash = "correct horse";
        credential_revision = 1;
        status = Status.active;
        created_at = 1;
        updated_at = 1;
      }
      ∷ [];
  resets = challenge "pwr_1" "reset" (record { expires_at = 500 }) ∷ [];
  email_changes =
      challenge "emc_1" "move" (record { proposed_email = "eve@example.org"; expires_at = 500 })
      ∷ [];
  authenticators =
      record {
        authenticator_id = "mfa_1";
        account_id = account_id;
        secret_reference = "vault://ann";
        status = Status.active;
        verified_at = some 3;
        revoked_at = none;
        created_at = 2;
      }
      ∷ [];
  step_ups =
      challenge "mst_1" "change" (grant "password.change")
      ∷ challenge "mst_2" "email" (grant "email.change")
      ∷ [];
  account_sessions = ann_session ∷ [];
}

-- The same account before its address is verified.
abbrev pub unverified : Db
unverified = record world {
  emails =
      record {
        account_id = account_id;
        normalized_email = "ann@example.org";
        verified_at = none;
        status = Status.pending;
        created_at = 1;
      }
      ∷ [];
  verifications = challenge "emv_1" "verify" (record { expires_at = 500 }) ∷ [];
}
