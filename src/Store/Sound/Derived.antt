-- ===== src/Store/Sound/Derived.antt =====
-- `derive_organization_session` and `issue_consumer_handoff`: what they have checked and committed.
use mathlib.Core.Path.{subst}
use anar_core.Base.{
  ℕ, ◌+◌, ◌≤◌, String, true, none, some, List, ◌∷◌, ◌≡◌, refl, sym, ◌==◌, ◌&&◌, eq_refl, arith,
}
use anar_core.Base.Table.{find_where}
use anar_core.Platform.{Platform, seconds}
use anar_core.Database.Rows.{Db, Session, Tenant, is_active}
use anar_core.Database.Tx.{Connection, ok}
use anar_core.Database.Ensures.{
  Ensures, returned, after_select_one, after_lift, after_lift_then, after_insert_then,
}
use anar_core.Database.Inversion.{reading_ok, with_connection_ok}
use anar_core.Store.Input.{ℤ, require_positive_integer, token_digest}
use anar_core.Store.Session.{load_account_session}
use anar_core.Store.Ended.Loaded.{IsLoaded, load_account_session-IsLoaded}
use anar_core.Store.Replay.Spent.{with_state}
use anar_core.Store.Organization.Derive.{
  DeriveDraws, DeriveInput, derived, derive_checks, derive_organization_session,
}
use anar_core.Store.Sound.Facts.{after_reading}

module _ ⦃platform : Platform⦄ where
  -- What the checks have found.
  pub record MayDerive (bearer id organization_id : String) (ttl : ℤ) (checked_at : ℕ)
      (draws : DeriveDraws) (db : Db) (input : DeriveInput) : Type 0 where
    pub ttl_is : require_positive_integer ttl "session TTL" none ≡ ok input.ttl
    pub digested : token_digest draws.bearer ≡ ok input.digest
    pub loaded : IsLoaded bearer id checked_at db input.parent
    pub member_found :
        find_where
          (λ m.
            m.identity_id == input.parent.identity_id
            && m.organization_id == organization_id
            && is_active m.status)
          db.memberships
        ≡ some input.member
    pub within : Tenant
    pub within_found :
        find_where (λ t. t.organization_id == organization_id && is_active t.status) db.tenants
        ≡ some within
    pub within_is : input.tenant_id ≡ within.tenant_id

  derive_checks-MayDerive :
      (bearer id organization_id : String) (ttl : ℤ) (draws : DeriveDraws) (checked_at : ℕ)
      (db : Db)
      → Ensures
          (derive_checks bearer id organization_id ttl draws checked_at)
          db
          (λ input _. MayDerive bearer id organization_id ttl checked_at draws db input)
  unfolding derive_checks
  derive_checks-MayDerive bearer id organization_id ttl draws checked_at db =
      after_lift_then _ λ _ _. after_lift_then _ λ _ _. after_lift _ λ n n_is.
        after_reading (load_account_session bearer id checked_at)
          (load_account_session-IsLoaded bearer id checked_at db)
          λ parent loaded. after_select_one _ _ _ λ m m_is. after_select_one _ _ _ λ t t_is.
            after_lift _ λ d digested. returned _ (record {
              ttl_is = n_is;
              digested = digested;
              loaded = loaded;
              member_found = m_is;
              within = t;
              within_found = t_is;
              within_is = refl;
            })

  -- The session that was derived, and what it rests on.
  pub record IsDerived (bearer id organization_id : String) (ttl : ℤ) (draws : DeriveDraws)
      (checked_at now : ℕ) (before after : Db) : Type 0 where
    pub input : DeriveInput
    pub allowed : MayDerive bearer id organization_id ttl checked_at draws before input
    pub session : Session
    pub found : find_where (λ s. s.session_id == draws.session_id) after.sessions ≡ some session
    pub digest_is : session.bearer_sha256 ≡ input.digest
    pub parent_is : session.account_session_id ≡ some id
    pub same_identity : session.identity_id ≡ input.parent.identity_id
    pub same_account : session.account_id ≡ input.parent.account_id
    pub same_revision : session.credential_revision ≡ input.parent.credential_revision
    pub membership_is : session.membership_id ≡ input.member.membership_id
    pub authorization_is : session.authorization_version ≡ input.member.authorization_version
    pub entitlement_is : session.entitlement_version ≡ input.member.entitlement_version
    pub within_parent : session.expires_at ≤ input.parent.expires_at
    pub within_ttl : session.expires_at ≤ now + seconds input.ttl
    pub active : is_active session.status ≡ true

  session_found :
      (s : Session) (xs : List Session)
      → find_where (λ r. r.session_id == s.session_id) (s ∷ xs) ≡ some s
  session_found s xs = rw (eq_refl s.session_id) refl

  -- `derive_organization_session` returns only for the bearer of a live account session whose
  -- identity is an active member of an organization with an active tenant; the session it commits is
  -- of that identity, account and membership, at the membership's versions and the parent's
  -- revision, and expires neither after its parent nor after its time to live.
  pub derive_organization_session-IsDerived :
      (bearer id organization_id : String) (ttl : ℤ) (draws : DeriveDraws) (checked_at now : ℕ)
      (c c' : Connection) (out : String × String)
      → derive_organization_session bearer id organization_id ttl draws checked_at now c
        ≡ (ok out, c')
      → IsDerived bearer id organization_id ttl draws checked_at now c.working c'.committed
  unfolding derive_organization_session
  derive_organization_session-IsDerived bearer id organization_id ttl draws checked_at now c c' out
        h =
      let first = reading_ok (derive_checks bearer id organization_id ttl draws checked_at) _ c h in
      let ended = with_connection_ok _ c first.2 in
      let row = derived first.0 id organization_id draws now in
      let may =
        (derive_checks-MayDerive bearer id organization_id ttl draws checked_at c.working).at
          first.0 _ (with_state _ first.1) in
      let inserted : Ensures _ c.working (λ _ after.
        IsDerived bearer id organization_id ttl draws checked_at now c.working after) =
        after_insert_then _ _ row λ _. returned _ (record {
          input = first.0;
          allowed = may;
          session = row;
          found = session_found row c.working.sessions;
          digest_is = refl;
          parent_is = refl;
          same_identity = refl;
          same_account = refl;
          same_revision = refl;
          membership_is = refl;
          authorization_is = refl;
          entitlement_is = refl;
          within_parent = omega arith;
          within_ttl = omega arith;
          active = refl;
        }) in
      subst
        (λ (x : Connection).
          IsDerived bearer id organization_id ttl draws checked_at now c.working x.committed)
        (sym ended.2) (inserted.at out ended.0 ended.1)
