-- ===== src/Store/Sound/Consumed.antt =====
-- `consume_consumer_handoff`: the whole call, and a second one.
use mathlib.Core.Path.{subst}
use anar_core.Base.{ℕ, String, some, List, ◌≡◌, ◌≢◌, refl, sym, ap, ◌∙◌, ◌==◌, eq_iff}
use anar_core.Base.Table.{find_where}
use anar_core.Platform.{Platform}
use anar_core.Contracts.Projection.{AuthorizedSubject, ConsumerHandoffProjection, checked_handoff}
use anar_core.Database.Rows.{Db, Challenge, Handoff, Organization, consume}
use anar_core.Database.Tx.{Connection, ok}
use anar_core.Database.Ensures.{
  Ensures, returned, after_require, after_select_one, after_update, after_lift, after_gets, ensured,
}
use anar_core.Database.Inversion.{consume-found, reading_ok, immediate_ok}
use anar_core.Store.Input.{token_digest}
use anar_core.Store.Calls.{Call, run}
use anar_core.Store.Replay.Spent.{IsSpent, IsSpent-after, spent_not_open, with_state, ok_injective}
use anar_core.Store.Subject.Project.{project_authorized_subject}
use anar_core.Store.Organization.Hydration.{active_references, hydration_of}
use anar_core.Store.Organization.Handoff.{
  require_scope, check_handoff, check_source, check_parties, handoff_input, consume_handoff_rows,
  consume_consumer_handoff,
}
use anar_core.Store.Sound.Facts.{after_reading, after_reading_then, lastly_lift}
use anar_core.Store.Sound.Accepted.{Returns, Returns-ok, Returns-then}
use anar_core.Store.Sound.Subject.{IsAuthorized, project_authorized_subject-IsAuthorized}
use anar_core.Store.Sound.Handoff.{
  HasScope, require_scope-HasScope, IsOpenFor, check_handoff-IsOpenFor, HasSource,
  check_source-HasSource, HasParties, check_parties-HasParties,
}

module _ ⦃platform : Platform⦄ where
  checked_handoff-Returns : (h : ConsumerHandoffProjection) → Returns h (checked_handoff h)
  unfolding checked_handoff
  checked_handoff-Returns h = search (Returns-ok, Returns-then) depth 15

  -- What the rows say behind a handoff that was consumed, and that it is spent afterwards.
  pub record IsRedeemed (digest consumer : String) (now projected_at : ℕ) (before after : Db)
      (projection : ConsumerHandoffProjection) : Type 0 where
    pub handoff : Challenge Handoff
    pub found : find_where (λ r. r.token_sha256 == digest) before.handoffs ≡ some handoff
    pub open_for : IsOpenFor consumer now handoff
    pub source : HasSource now handoff before
    pub parties : HasParties handoff before
    pub of : Organization
    pub scope : HasScope handoff.details.organization_id handoff.details.tenant_id before of
    pub subject : AuthorizedSubject
    pub authorized : IsAuthorized handoff.details.source_session_id projected_at before subject
    pub hydrated :
        hydration_of handoff.details.organization_id handoff.details.tenant_id of.hydration_version
          (active_references handoff.details.organization_id before)
        ≡ ok projection.hydration
    pub handoff_is : projection.handoff_id ≡ handoff.challenge_id
    pub identity_is : projection.identity_id ≡ handoff.details.identity_id
    pub organization_is : projection.organization_id ≡ handoff.details.organization_id
    pub spent : IsSpent digest after.handoffs

  pub consume_handoff_rows-IsRedeemed :
      (digest consumer : String) (now projected_at : ℕ) (db : Db)
      → Ensures
          (consume_handoff_rows digest consumer now projected_at)
          db
          (λ projection after. IsRedeemed digest consumer now projected_at db after projection)
  unfolding consume_handoff_rows
  consume_handoff_rows-IsRedeemed digest consumer now projected_at db =
      after_select_one _ _ _ λ h found.
        after_reading_then (check_handoff consumer now h)
          (check_handoff-IsOpenFor consumer now h db)
          λ _ opened.
            after_reading_then (check_source now h) (check_source-HasSource now h db) λ _ source.
              after_reading_then (check_parties h) (check_parties-HasParties h db) λ _ parties.
                after_reading (require_scope h.details.organization_id h.details.tenant_id)
                  (require_scope-HasScope _ _ db)
                  λ of scope.
                    after_reading_then
                      (project_authorized_subject h.details.source_session_id projected_at)
                      (project_authorized_subject-IsAuthorized _ projected_at db)
                      λ subject authorized. after_gets _ λ rows rows_are.
                        after_lift _ λ hydration hydrated. after_update _ _ _ λ n _.
                          after_require _ _ λ _. lastly_lift _ λ projection p_is.
                            let same = (checked_handoff-Returns _).at projection p_is in
                            record {
                              handoff = h;
                              found = found;
                              open_for = opened;
                              source = source;
                              parties = parties;
                              of = of;
                              scope = scope;
                              subject = subject;
                              authorized = authorized;
                              hydrated =
                                  ap (hydration_of _ _ of.hydration_version) (sym rows_are)
                                  ∙ hydrated
                                  ∙ ap (λ (x : ConsumerHandoffProjection). ok x.hydration)
                                      (sym same);
                              handoff_is =
                                  ap (λ (x : ConsumerHandoffProjection). x.handoff_id) same;
                              identity_is =
                                  ap (λ (x : ConsumerHandoffProjection). x.identity_id) same;
                              organization_is =
                                  ap (λ (x : ConsumerHandoffProjection). x.organization_id) same;
                              spent = (
                                consume now h,
                                consume-found digest h now db.handoffs found opened.was_open,
                                refl,
                              );
                            }

  handoff_input_digest :
      (token consumer : String) (db : Db)
      → Ensures
          (handoff_input token consumer)
          db
          (λ r _. (token_digest token ≡ ok r.0) × (r.1 ≡ "adforge"))
  unfolding handoff_input
  handoff_input_digest token consumer db = after_lift _ λ d digested.
      after_lift _ λ n _. after_require _ _ λ same. returned _ (digested, (eq_iff _ _).0 same)

  -- `consume_consumer_handoff` returns only for a handoff that was open, in time and for the
  -- consumer adforge, whose source session was live and of the same authority at the same versions,
  -- whose identity, account, membership, organization and tenant were active, and whose source
  -- session was projected to a subject; the handoff is committed as spent.
  pub consume_consumer_handoff-IsRedeemed :
      (token consumer : String) (now projected_at : ℕ) (c c' : Connection)
      (projection : ConsumerHandoffProjection)
      → consume_consumer_handoff token consumer now projected_at c ≡ (ok projection, c')
      → (digest : String) × (token_digest token ≡ ok digest)
        × IsRedeemed digest "adforge" now projected_at c.working c'.committed projection
  unfolding consume_consumer_handoff
  consume_consumer_handoff-IsRedeemed token consumer now projected_at c c' projection h =
      let first = reading_ok (handoff_input token consumer) _ c h in
      let facts =
        (handoff_input_digest token consumer c.working).at first.0 _ (with_state _ first.1) in
      let ended = (immediate_ok _ c first.2).1 in
      let redeemed =
        (consume_handoff_rows-IsRedeemed first.0.0 first.0.1 now projected_at c.working).at
          projection ended.0 ended.1 in
      (
        first.0.0,
        facts.0,
        subst (λ k. IsRedeemed first.0.0 k now projected_at c.working c'.committed projection)
            facts.1
            (subst
              (λ (x : Connection).
                IsRedeemed first.0.0 first.0.1 now projected_at c.working x.committed projection)
              (sym ended.2) redeemed),
      )

  -- A handoff is consumed once: after a call that returned, whatever calls come between, no call
  -- with the same token returns.
  pub consume_consumer_handoff_once :
      (token consumer : String) (now projected_at : ℕ) (c c' : Connection)
      (projection : ConsumerHandoffProjection) (calls : List Call) (consumer' : String)
      (later projected_at' : ℕ) (projection' : ConsumerHandoffProjection)
      → consume_consumer_handoff token consumer now projected_at c ≡ (ok projection, c')
      → (consume_consumer_handoff token consumer' later projected_at' (run calls c')).0
        ≢ ok projection'
  unfolding consume_consumer_handoff
  consume_consumer_handoff_once token consumer now projected_at c c' projection calls consumer'
        later projected_at' projection' h again =
      let first = reading_ok (handoff_input token consumer) _ c h in
      let second =
        reading_ok (handoff_input token consumer') _ (run calls c') (with_state _ again) in
      let digested =
        (handoff_input_digest token consumer c.working).at first.0 _ (with_state _ first.1) in
      let digested' =
        (handoff_input_digest token consumer' (run calls c').working).at second.0 _
          (with_state _ second.1) in
      let same : second.0.0 ≡ first.0.0 = ok_injective (sym digested'.0 ∙ digested.0) in
      let spent =
        IsSpent-after (λ s. s.handoffs) (λ a b e. e.handoffs) first.0.0
          (consume_handoff_rows first.0.0 first.0.1 now projected_at) c calls
          (ensured λ a after q.
            ((consume_handoff_rows-IsRedeemed first.0.0 first.0.1 now projected_at c.working).at a
              after q).spent)
          first.2 in
      let ended = (immediate_ok _ (run calls c') second.2).1 in
      let redeemed =
        (consume_handoff_rows-IsRedeemed second.0.0 second.0.1 later projected_at'
            (run calls c').working).at
          projection' ended.0 ended.1 in
      spent_not_open second.0.0 (run calls c').working.handoffs redeemed.handoff
        (subst (λ d. IsSpent d (run calls c').working.handoffs) (sym same) spent) redeemed.found
        redeemed.open_for.was_open
