-- ===== src/Store/Subject/Project.antt =====
-- `project_authorized_subject`, `authenticate`, `ready` and `create_session`.
use anar_core.Base.{
  ℕ, suc, if◌then◌else◌, String, Bool, true, false, none, some, List, [], ◌∷◌, ◌&&◌, ◌==◌, not,
  nat_eq, ltb, is_null,
}
use anar_core.Base.Table.{exists_where, select_where}
use anar_core.Platform.{Platform}
use anar_core.Database.Rows.{Db, Session, is_active, Membership}
use anar_core.Database.Tx.{
  Tx, Action, Error, Result, ok, err, ◌>>=◌, ◌>>◌, lift, require, select_one, or_raise, reading,
  answer,
}
use anar_core.Database.Schema.{session}
use anar_core.Contracts.TypedId.{validate_typed_id}
use anar_core.Contracts.Projection.{AuthorizedSubject, checked_subject}
use anar_core.Store.Input.{ℤ}
use anar_core.Store.Session.{unauthorized}
use anar_core.Store.Subject.Graph.{live_session, authority_graph, check_graph, session_membership}
use anar_core.Store.Subject.Grants.{
  Grants, load_grants, binding_contracts, role_refs, entitlement_refs,
}

module _ ⦃platform : Platform⦄ where
  -- The contract objects, in the order in which Python builds them.
  unfoldable pub subject_of : Session → Membership → Grants → Tx AuthorizedSubject
  subject_of s m g = do
    bindings ← lift (binding_contracts s m g.bindings)
    roles ← lift (role_refs g.roles)
    entitlements ← lift (entitlement_refs g.entitlements)
    lift (
        checked_subject (record {
          identity_id = s.identity_id;
          account_id = s.account_id;
          organization_id = s.organization_id;
          tenant_id = s.tenant_id;
          session_id = s.session_id;
          role_definitions = roles;
          entitlement_definitions = entitlements;
          adapter_bindings = bindings;
          authorization_version = m.authorization_version;
          entitlement_version = m.entitlement_version;
          expires_at = s.expires_at;
          active = true;
        }))

  unfoldable pub project_authorized_subject : String → ℕ → Tx AuthorizedSubject
  project_authorized_subject session_id now = do
    lift (validate_typed_id session_id "ses")
    s ← live_session session_id now
    parent ← or_raise s.account_session_id (Error.authority "parent account session required")
    g ← authority_graph s parent
    check_graph now s g
    m ← session_membership s
    grants ← load_grants m.membership_id
    subject_of s m grants

  unfoldable pub project : String → ℕ → Action AuthorizedSubject
  project session_id now = reading (project_authorized_subject session_id now)

  -- The bearer of `authenticate` is compared with the session that it names.
  unfoldable pub authenticate_rows : String → String → ℕ → Tx AuthorizedSubject
  authenticate_rows bearer session_id now = do
    lift (validate_typed_id session_id "ses")
    require (not (bearer == "")) unauthorized
    row ← select_one session (λ r. r.bearer_sha256 == platform.sha256 bearer) unauthorized
    same ← or_raise (platform.compare_digest row.session_id session_id) Error.type_error
    require same (Error.authority "session mismatch")
    project_authorized_subject session_id now

  unfoldable pub authenticate : String → String → ℕ → Action AuthorizedSubject
  authenticate bearer session_id now = reading (authenticate_rows bearer session_id now)

  unfoldable pub create_session : String → String → String → ℤ → Action (String × String)
  create_session identity_id account_id organization_id ttl_seconds = answer (
      err (
        Error.authority "legacy session creation disabled; authenticated account session required"))

-- The WHERE clause of `ready` behind its joins.
abbrev pub is_ready_membership : Session → Membership → Bool
is_ready_membership s m =
    m.membership_id == s.membership_id
    && is_active m.status
    && m.identity_id == s.identity_id
    && m.organization_id == s.organization_id
    && nat_eq s.authorization_version m.authorization_version
    && nat_eq s.entitlement_version m.entitlement_version

unfoldable pub has_ready_parent : ℕ → Db → Session → Bool
has_ready_parent now db s = elim s.account_session_id [
  | none ↦ false
  | some parent ↦
      exists_where
        (λ p.
          p.account_session_id == parent
          && is_active p.status
          && ltb now p.expires_at
          && is_null p.revoked_at
          && p.identity_id == s.identity_id
          && p.account_id == s.account_id
          && nat_eq p.credential_revision s.credential_revision
          && exists_where
              (λ c.
                c.account_id == s.account_id
                && is_active c.status
                && nat_eq c.credential_revision p.credential_revision)
              db.credentials)
        db.account_sessions
]

unfoldable pub is_ready_session : ℕ → Db → Session → Bool
unfolding has_ready_parent
is_ready_session now db s =
    is_active s.status
    && ltb now s.expires_at
    && is_null s.revoked_at
    && has_ready_parent now db s
    && exists_where
        (λ a. a.account_id == s.account_id && a.identity_id == s.identity_id && is_active a.status)
        db.accounts
    && exists_where (λ i. i.identity_id == s.identity_id && is_active i.status) db.identities
    && exists_where (is_ready_membership s) db.memberships
    && exists_where (λ o. o.organization_id == s.organization_id && is_active o.status)
        db.organizations
    && exists_where
        (λ t.
          t.tenant_id == s.tenant_id
          && t.organization_id == s.organization_id
          && is_active t.status)
        db.tenants

-- `except (AuthorityError, ValueError): continue`
unfoldable pub is_caught : Error → Bool
is_caught (Error.authority m) = true
is_caught (Error.invalid_identifier v) = true
is_caught (Error.prefix_mismatch v w) = true
is_caught (Error.invalid_symbol v) = true
is_caught (Error.contract m) = true
is_caught Error.bad_json = true
is_caught _ = false

-- `except (sqlite3.Error, ValueError): return False`, around the whole body.
unfoldable pub is_swallowed : Error → Bool
is_swallowed Error.integrity = true
is_swallowed Error.operational = true
is_swallowed (Error.invalid_identifier v) = true
is_swallowed (Error.prefix_mismatch v w) = true
is_swallowed (Error.invalid_symbol v) = true
is_swallowed (Error.contract m) = true
is_swallowed Error.bad_json = true
is_swallowed _ = false

unfoldable pub ready_answer : Result Bool → Result Bool
unfolding is_swallowed
ready_answer (ok b) = ok b
ready_answer (err e) = if is_swallowed e then ok false else err e

-- One round of the loop of `ready`, before the others.
unfoldable pub ready_round : {A : Type 0} → Result A → Result Bool → Result Bool
unfolding is_caught
ready_round (ok subject) others = ok true
ready_round (err e) others = if is_caught e then others else err e

module _ ⦃platform : Platform⦄ where
  -- The clock is read once for each projection: `later i` is its reading in the round `i`.
  unfoldable pub ready_loop : (ℕ → ℕ) → Db → List Session → ℕ → Result Bool
  unfolding ready_round
  ready_loop later db [] i = ok false
  ready_loop later db (s ∷ rest) i =
      let others = ready_loop later db rest (suc i) in
      ready_round (project_authorized_subject s.session_id (later i) db).0 others

  unfoldable pub ready : ℕ → (ℕ → ℕ) → Action Bool
  ready now later c = (
    ready_answer (
        ready_loop later c.working
          (select_where (is_ready_session now c.working) c.working.sessions) 0),
    c,
  )
