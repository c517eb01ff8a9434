-- ===== src/Store/Sound/Issued.antt =====
-- `issue_consumer_handoff`: what it has checked and committed.
use mathlib.Core.Path.{subst}
use anar_core.Base.{
  ℕ, ◌+◌, String, true, none, some, List, ◌∷◌, ◌≡◌, refl, sym, ◌==◌, ◌&&◌, eq_refl, eq_iff,
}
use anar_core.Base.Table.{find_where}
use anar_core.Platform.{Platform, seconds}
use anar_core.Database.Rows.{Db, Membership, Challenge, Handoff, Organization, is_active, is_open}
use anar_core.Database.Tx.{Connection, ok}
use anar_core.Database.Ensures.{
  Ensures, returned, after_require, after_select_one, after_lift, after_lift_then,
  after_insert_then,
}
use anar_core.Database.Inversion.{reading_ok, with_connection_ok}
use anar_core.Store.Input.{ℤ, require_positive_integer, token_digest}
use anar_core.Store.Ended.Loaded.{nat_eq→≡}
use anar_core.Store.Replay.Spent.{with_state}
use anar_core.Store.Subject.Project.{authenticate_rows}
use anar_core.Store.Organization.Handoff.{
  HandoffDraws, HandoffInput, require_scope, handoff_checks, issue_handoff_rows,
  issue_consumer_handoff,
}
use anar_core.Store.Sound.Facts.{after_reading, after_reading_then}
use anar_core.Store.Sound.Subject.{IsAuthenticated, authenticate_rows-IsAuthenticated}
use anar_core.Store.Sound.Handoff.{HasScope, require_scope-HasScope}

module _ ⦃platform : Platform⦄ where
  -- What the checks have found.
  pub record MayIssue (bearer id : String) (ttl : ℤ) (draws : HandoffDraws) (checked_at : ℕ)
      (db : Db) (input : HandoffInput) : Type 0 where
    pub ttl_is : require_positive_integer ttl "handoff TTL" none ≡ ok input.ttl
    pub for_adforge : input.consumer ≡ "adforge"
    pub authenticated : IsAuthenticated bearer id checked_at db input.subject
    pub source_found :
        find_where (λ s. s.session_id == id && is_active s.status) db.sessions ≡ some input.source
    pub member : Membership
    pub member_found :
        find_where
          (λ r.
            r.membership_id == input.source.membership_id
            && r.identity_id == input.subject.identity_id
            && r.organization_id == input.subject.organization_id
            && is_active r.status)
          db.memberships
        ≡ some member
    pub authorization_current : member.authorization_version ≡ input.subject.authorization_version
    pub entitlement_current : member.entitlement_version ≡ input.subject.entitlement_version
    pub of : Organization
    pub scope : HasScope input.subject.organization_id input.subject.tenant_id db of
    pub digested : token_digest draws.token ≡ ok input.digest

  handoff_checks-MayIssue :
      (bearer id consumer : String) (ttl : ℤ) (draws : HandoffDraws) (checked_at : ℕ) (db : Db)
      → Ensures
          (handoff_checks bearer id consumer ttl draws checked_at)
          db
          (λ input _. MayIssue bearer id ttl draws checked_at db input)
  unfolding handoff_checks
  handoff_checks-MayIssue bearer id consumer ttl draws checked_at db = after_lift_then _ λ _ _.
      after_lift _ λ n n_is. after_lift _ λ normalized _. after_require _ _ λ same.
        after_reading (authenticate_rows bearer id checked_at)
          (authenticate_rows-IsAuthenticated bearer id checked_at db)
          λ subject authenticated. after_select_one _ _ _ λ s s_is. after_select_one _ _ _ λ m m_is.
            after_require _ _ λ authorization. after_require _ _ λ entitlement.
              after_reading_then (require_scope subject.organization_id subject.tenant_id)
                (require_scope-HasScope _ _ db)
                λ of scope. after_lift _ λ d digested. returned _ (record {
                  ttl_is = n_is;
                  for_adforge = (eq_iff _ _).0 same;
                  authenticated = authenticated;
                  source_found = s_is;
                  member = m;
                  member_found = m_is;
                  authorization_current = nat_eq→≡ _ _ authorization;
                  entitlement_current = nat_eq→≡ _ _ entitlement;
                  of = of;
                  scope = scope;
                  digested = digested;
                })

  -- The handoff that was issued, and what it rests on.
  pub record IsIssued (bearer id : String) (ttl : ℤ) (draws : HandoffDraws) (checked_at now : ℕ)
      (before after : Db) : Type 0 where
    pub input : HandoffInput
    pub allowed : MayIssue bearer id ttl draws checked_at before input
    pub handoff : Challenge Handoff
    pub found : find_where (λ h. h.token_sha256 == input.digest) after.handoffs ≡ some handoff
    pub opened : is_open handoff ≡ true
    pub consumer_is : handoff.details.consumer ≡ "adforge"
    pub identity_is : handoff.details.identity_id ≡ input.subject.identity_id
    pub source_is : handoff.details.source_session_id ≡ id
    pub membership_is : handoff.details.membership_id ≡ input.source.membership_id
    pub authorization_is :
        handoff.details.authorization_version ≡ input.subject.authorization_version
    pub entitlement_is : handoff.details.entitlement_version ≡ input.subject.entitlement_version
    pub expires_in : handoff.details.expires_at ≡ now + seconds input.ttl

  handoff_found :
      (h : Challenge Handoff) (xs : List (Challenge Handoff))
      → find_where (λ r. r.token_sha256 == h.token_sha256) (h ∷ xs) ≡ some h
  handoff_found h xs = rw (eq_refl h.token_sha256) refl

  issue_handoff_rows-IsIssued :
      (bearer id : String) (ttl : ℤ) (draws : HandoffDraws) (checked_at now : ℕ) (db : Db)
      (input : HandoffInput)
      → MayIssue bearer id ttl draws checked_at db input
      → Ensures
          (issue_handoff_rows input id draws now)
          db
          (λ _ after. IsIssued bearer id ttl draws checked_at now db after)
  unfolding issue_handoff_rows
  issue_handoff_rows-IsIssued bearer id ttl draws checked_at now db input may =
      after_insert_then _ _ _ λ _. returned _ (record {
        input = input;
        allowed = may;
        handoff = _;
        found = handoff_found _ db.handoffs;
        opened = refl;
        consumer_is = may.for_adforge;
        identity_is = refl;
        source_is = refl;
        membership_is = refl;
        authorization_is = refl;
        entitlement_is = refl;
        expires_in = refl;
      })

  -- `issue_consumer_handoff` returns only for the consumer adforge and for a bearer whom
  -- `authenticate` would accept, with a membership at the subject's versions in an active
  -- organization and tenant; the handoff it commits is open, and carries the identity, the session,
  -- the membership and the versions of that subject.
  pub issue_consumer_handoff-IsIssued :
      (bearer id consumer : String) (ttl : ℤ) (draws : HandoffDraws) (checked_at now : ℕ)
      (c c' : Connection) (out : String × String)
      → issue_consumer_handoff bearer id consumer ttl draws checked_at now c ≡ (ok out, c')
      → IsIssued bearer id ttl draws checked_at now c.working c'.committed
  unfolding issue_consumer_handoff
  issue_consumer_handoff-IsIssued bearer id consumer ttl draws checked_at now c c' out h =
      let first = reading_ok (handoff_checks bearer id consumer ttl draws checked_at) _ c h in
      let ended = with_connection_ok _ c first.2 in
      let may =
        (handoff_checks-MayIssue bearer id consumer ttl draws checked_at c.working).at first.0 _
          (with_state _ first.1) in
      subst (λ (x : Connection). IsIssued bearer id ttl draws checked_at now c.working x.committed)
        (sym ended.2)
        ((issue_handoff_rows-IsIssued bearer id ttl draws checked_at now c.working first.0 may).at
          out ended.0 ended.1)
