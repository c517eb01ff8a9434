-- ===== src/Database/Evolution/Moves.antt =====
-- The changes that one row may undergo, and the relation between two states of the database.
use anar_core.Base.{ℕ, ◌≤◌, String, Bool, true, false, List, ◌≡◌, refl, ◌∙◌, ◌&&◌, arith, is_null}
use anar_core.Database.Rows.{
  Db, Challenge, PasswordCredential, AccountSession, Session, Membership, Organization, is_open,
  is_active, consume, revoke,
}
use anar_core.Database.Definitions.{Invitation}
use anar_core.Database.Evolution.Members.{
  SessionMoves, session_stays, session_trans, MembershipMoves, membership_stays, membership_trans,
  InvitationMoves, invitation_stays, invitation_trans, OrganizationMoves, organization_stays,
  organization_trans, one_current,
}
use anar_core.Database.Evolve.{
  Evolves, Evolves-refl, Evolves-trans, Retires, Retires-refl, Retires-trans,
}

-- A token stays as it is, or it was open and is consumed or revoked.
pub data ChallengeMoves {X : Type 0} (c d : Challenge X) : Type 0 where
  stays : d ≡ c → ChallengeMoves c d
  consumes : (now : ℕ) → is_open c ≡ true → d ≡ consume now c → ChallengeMoves c d
  revokes : (now : ℕ) → is_open c ≡ true → d ≡ revoke now c → ChallengeMoves c d

abbrev pub stays_as : {X : Type 0} (c : Challenge X) → ChallengeMoves c c
stays_as c = stays refl

-- A token that is not open stays as it is.
pub closed_stays : {X : Type 0} (c d : Challenge X) → ChallengeMoves c d → is_open c ≡ false → d ≡ c
closed_stays c d (stays e) closed = e
closed_stays c d (consumes now open_ e) closed = cc
closed_stays c d (revokes now open_ e) closed = cc

pub moves_trans :
    {X : Type 0} (c d e : Challenge X)
    → ChallengeMoves c d
    → ChallengeMoves d e
    → ChallengeMoves c e
moves_trans c d e (stays p) m = rw (← p) m
moves_trans c d e (consumes now o p) m = consumes now o (closed_stays d e m (rw p refl) ∙ p)
moves_trans c d e (revokes now o p) m = revokes now o (closed_stays d e m (rw p refl) ∙ p)

-- A credential keeps its identifier, and its revision does not fall.
pub record CredentialMoves (c d : PasswordCredential) : Type 0 where
  pub same_id : d.credential_id ≡ c.credential_id
  pub revision_grows : c.credential_revision ≤ d.credential_revision

pub credential_stays : (c : PasswordCredential) → CredentialMoves c c
credential_stays c = record { same_id = refl; revision_grows = omega arith }

pub credential_trans :
    (c d e : PasswordCredential) → CredentialMoves c d → CredentialMoves d e → CredentialMoves c e
credential_trans c d e m n = record {
  same_id = n.same_id ∙ m.same_id;
  revision_grows = omega arith;
}

abbrev pub token_key : {X : Type 0} → Challenge X → String
token_key c = c.token_sha256

abbrev pub account_key : PasswordCredential → String
account_key c = c.account_id

abbrev pub account_session_key : AccountSession → String
account_session_key s = s.account_session_id

abbrev pub session_key : Session → String
session_key s = s.session_id

abbrev pub membership_key : Membership → String
membership_key m = m.membership_id

abbrev pub code_key : Invitation → String
code_key r = r.code_sha256

abbrev pub organization_key : Organization → String
organization_key o = o.organization_id

abbrev pub is_live_account_session : AccountSession → Bool
is_live_account_session s = is_active s.status && is_null s.revoked_at

abbrev pub TokensEvolve : {X : Type 0} → List (Challenge X) → List (Challenge X) → Type 0
TokensEvolve = Evolves token_key ChallengeMoves

pub record Evolution (before after : Db) : Type 0 where
  pub verifications : TokensEvolve before.verifications after.verifications
  pub resets : TokensEvolve before.resets after.resets
  pub email_changes : TokensEvolve before.email_changes after.email_changes
  pub recovery_codes : TokensEvolve before.recovery_codes after.recovery_codes
  pub attestations : TokensEvolve before.attestations after.attestations
  pub step_ups : TokensEvolve before.step_ups after.step_ups
  pub handoffs : TokensEvolve before.handoffs after.handoffs
  pub credentials : Evolves account_key CredentialMoves before.credentials after.credentials
  pub account_sessions :
      Retires account_session_key is_live_account_session before.account_sessions
        after.account_sessions
  pub sessions : Evolves session_key SessionMoves before.sessions after.sessions
  pub memberships : Evolves membership_key MembershipMoves before.memberships after.memberships
  pub one_membership : one_current before.memberships ≡ true → one_current after.memberships ≡ true
  pub invitations : Evolves code_key InvitationMoves before.invitations after.invitations
  pub organizations :
      Evolves organization_key OrganizationMoves before.organizations after.organizations

tokens_refl : {X : Type 0} (xs : List (Challenge X)) → TokensEvolve xs xs
tokens_refl = Evolves-refl token_key ChallengeMoves stays_as

tokens_trans :
    {X : Type 0} {xs ys zs : List (Challenge X)}
    → TokensEvolve xs ys
    → TokensEvolve ys zs
    → TokensEvolve xs zs
tokens_trans = Evolves-trans token_key ChallengeMoves stays_as moves_trans

pub Evolution-refl : (db : Db) → Evolution db db
Evolution-refl db = record {
  verifications = tokens_refl db.verifications;
  resets = tokens_refl db.resets;
  email_changes = tokens_refl db.email_changes;
  recovery_codes = tokens_refl db.recovery_codes;
  attestations = tokens_refl db.attestations;
  step_ups = tokens_refl db.step_ups;
  handoffs = tokens_refl db.handoffs;
  credentials = Evolves-refl account_key CredentialMoves credential_stays db.credentials;
  account_sessions = Retires-refl account_session_key is_live_account_session db.account_sessions;
  sessions = Evolves-refl session_key SessionMoves session_stays db.sessions;
  memberships = Evolves-refl membership_key MembershipMoves membership_stays db.memberships;
  one_membership = λ h. h;
  invitations = Evolves-refl code_key InvitationMoves invitation_stays db.invitations;
  organizations =
      Evolves-refl organization_key OrganizationMoves organization_stays db.organizations;
}

pub Evolution-trans : {a b c : Db} → Evolution a b → Evolution b c → Evolution a c
Evolution-trans e f = record {
  verifications = tokens_trans e.verifications f.verifications;
  resets = tokens_trans e.resets f.resets;
  email_changes = tokens_trans e.email_changes f.email_changes;
  recovery_codes = tokens_trans e.recovery_codes f.recovery_codes;
  attestations = tokens_trans e.attestations f.attestations;
  step_ups = tokens_trans e.step_ups f.step_ups;
  handoffs = tokens_trans e.handoffs f.handoffs;
  credentials =
      Evolves-trans account_key CredentialMoves credential_stays credential_trans e.credentials
        f.credentials;
  account_sessions =
      Retires-trans account_session_key is_live_account_session e.account_sessions
        f.account_sessions;
  sessions =
      Evolves-trans session_key SessionMoves session_stays session_trans e.sessions f.sessions;
  memberships =
      Evolves-trans membership_key MembershipMoves membership_stays membership_trans e.memberships
        f.memberships;
  one_membership = λ h. f.one_membership (e.one_membership h);
  invitations =
      Evolves-trans code_key InvitationMoves invitation_stays invitation_trans e.invitations
        f.invitations;
  organizations =
      Evolves-trans organization_key OrganizationMoves organization_stays organization_trans
        e.organizations f.organizations;
}
