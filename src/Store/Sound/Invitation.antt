-- ===== src/Store/Sound/Invitation.antt =====
-- `redeem_invitation`: what a redemption has passed, and that it cannot be repeated.
use mathlib.Core.Path.{subst}
use mathlib.Core.Bool.{false≢true}
use mathlib.Core.Option
use anar_core.Base.{
  ℕ, ◌<◌, String, Bool, true, false, some, List, ◌∷◌, ◌≡◌, ◌≢◌, refl, sym, ap, ◌∙◌, ◌==◌, ◌&&◌, ltb,
  ltb→lt, if◌then◌else◌, arith, eq_refl,
}
use anar_core.Base.Table.{find_where, exists_where, update_where, find_where-update}
use anar_core.Platform.{Platform}
use anar_core.Database.Definitions.{Invitation, spend}
use anar_core.Database.Rows.{Db, Membership, Status, is_active, is_current}
use anar_core.Database.Tx.{Connection, at_rest, ok}
use anar_core.Database.Ensures.{
  Ensures, returned, after_then, after_require, after_select_one, after_gets, after_lift,
  after_insert_then, after_update_then,
}
use anar_core.Database.Inversion.{reading_ok, immediate_ok}
use anar_core.Database.Evolution.Members.{
  InvitationMoves, invitation_kept, spends, spent_invitation,
}
use anar_core.Database.Evolution.Moves.{Evolution, Evolution-refl, Evolution-trans}
use anar_core.Store.Calls.{Call, run}
use anar_core.Store.Evolution.Calls.{run-IsAhead}
use anar_core.Store.Evolution.Authority.{assign_roles-Steps, grant_entitlements-Steps}
use anar_core.Store.Replay.Spent.{with_state}
use anar_core.Store.Organization.Invitation.{
  RedeemDraws, assign_roles, grant_entitlements, usable_invitation, redeem_rows, redeem_invitation,
}
use anar_core.Store.Sound.Facts.{after_reading}

-- The invitation is known, active, in time and not used up.
pub record IsUsable (digest : String) (now : ℕ) (db : Db) (row : Invitation) : Type 0 where
  pub found : find_where (λ r. r.code_sha256 == digest) db.invitations ≡ some row
  pub active : is_active row.status ≡ true
  pub in_time : now < row.expires_at
  pub uses_left : ltb row.consumed_uses row.maximum_uses ≡ true

-- The invitation with this digest is known, and is not active.
abbrev pub IsRedeemedCode : String → Db → Type 0
IsRedeemedCode d db =
    (i : Invitation) × (find_where (λ r. r.code_sha256 == d) db.invitations ≡ some i)
    × (is_active i.status ≡ false)

pub IsRedeemedCode-stays :
    (d : String) {a b : Db} → Evolution a b → IsRedeemedCode d a → IsRedeemedCode d b
IsRedeemedCode-stays d e (i, found, dead) =
    let (i', found', moves) = e.invitations.at d i found in
    (
      i',
      found',
      ap (λ (x : Invitation). is_active x.status) (spent_invitation i i' moves dead) ∙ dead,
    )

-- The UPDATE of a row that was found usable, or has been used since.
spend-found :
    (d : String) (row row' : Invitation) (xs : List Invitation)
    → find_where (λ r. r.code_sha256 == d) xs ≡ some row'
    → InvitationMoves row row'
    → is_active row.status ≡ true
    → ltb row.consumed_uses row.maximum_uses ≡ true
    → (i : Invitation) × (find_where
          (λ r. r.code_sha256 == d)
          (update_where
            (λ r.
              r.invitation_id == row.invitation_id
              && is_active r.status
              && ltb r.consumed_uses r.maximum_uses)
            spend
            xs)
        ≡ some i)
      × (is_active i.status ≡ false)
spend-found d row row' xs found moves active left =
    let p : (Invitation → Bool) = λ r.
      r.invitation_id == row.invitation_id
      && is_active r.status
      && ltb r.consumed_uses r.maximum_uses in
    let moved =
      find_where-update (λ r. r.code_sha256 == d) p spend xs (λ r. refl)
      ∙ ap (Option.map (λ r. if p r then spend r else r)) found in
    elim moves [
      | invitation_kept e ↦ (
        spend row,
        rw e at moved ∙ rw (eq_refl row.invitation_id) (rw active (rw left refl)),
        refl,
      )
      | spends was e ↦ (spend row, rw e at moved ∙ rw (eq_refl row.invitation_id) refl, refl)
    ]

refuted :
    (i row : Invitation)
    → some row ≡ some i
    → is_active i.status ≡ false
    → is_active row.status ≡ true
    → ⊥
refuted i row same dead active =
    let rows : row ≡ i = cc in
    false≢true (sym dead ∙ ap (λ (x : Invitation). is_active x.status) (sym rows) ∙ active)

-- The row that a redemption inserts.
abbrev new_member : String → String → String → ℕ → Membership
new_member id identity_id organization_id now = record {
  membership_id = id;
  identity_id = identity_id;
  organization_id = organization_id;
  status = Status.active;
  authorization_version = 1;
  entitlement_version = 1;
  created_at = now;
}

new_member-found :
    (id identity_id organization_id : String) (now : ℕ) (xs : List Membership)
    → find_where (λ r. r.membership_id == id) (new_member id identity_id organization_id now ∷ xs)
      ≡ some (new_member id identity_id organization_id now)
new_member-found id identity_id organization_id now xs = rw (eq_refl id) refl

module _ ⦃platform : Platform⦄ where
  usable_invitation-IsUsable :
      (digest : String) (now : ℕ) (db : Db)
      → Ensures
          (usable_invitation digest now)
          db
          (λ row after. IsUsable digest now db row × (after ≡ db))
  unfolding usable_invitation
  usable_invitation-IsUsable digest now db = after_select_one _ _ _ λ row found.
      after_require _ _ λ active. after_require _ _ λ fresh. after_require _ _ λ left. returned _ (
        record { found = found; active = active; in_time = ltb→lt _ _ fresh; uses_left = left },
        refl,
      )

  -- Before a redemption and after.
  pub record HasJoined (digest identity_id membership_id : String) (now : ℕ) (before after : Db)
      : Type 0 where
    pub invitation : Invitation
    pub usable : IsUsable digest now before invitation
    pub had_none :
        exists_where
          (λ m.
            m.identity_id == identity_id
            && m.organization_id == invitation.organization_id
            && is_current m)
          before.memberships
        ≡ false
    pub joined :
        (m : Membership) × (find_where (λ r. r.membership_id == membership_id) after.memberships
          ≡ some m)
        × (m.identity_id ≡ identity_id)
        × (m.organization_id ≡ invitation.organization_id)
    pub spent : IsRedeemedCode digest after

  redeem_rows-HasJoined :
      (digest identity_id : String) (draws : RedeemDraws) (now : ℕ) (db : Db)
      → Ensures (redeem_rows digest identity_id draws now) db (λ m after.
        (m ≡ draws.membership_id) × HasJoined digest identity_id draws.membership_id now db after)
  unfolding redeem_rows
  redeem_rows-HasJoined digest identity_id draws now db =
      after_reading (usable_invitation digest now) (usable_invitation-IsUsable digest now db)
        λ row usable. after_gets _ λ existing existing_is. after_require _ _ λ none_there.
          after_insert_then _ _ _ λ allowed. after_lift _ λ roles _. after_lift _ λ role_items _.
            after_then (assign_roles role_items draws.membership_id draws.role_assignment_id 0 now)
              λ u mid assigned. after_lift _ λ grants _. after_lift _ λ grant_items _.
                after_then
                  (grant_entitlements grant_items draws.membership_id draws.entitlement_grant_id 0
                    now)
                  λ v last granted.
                    let first = subst (Evolution _) (ap (λ r. r.1) assigned) (
                      (assign_roles-Steps role_items draws.membership_id draws.role_assignment_id 0
                          now).at
                        _) in
                    let second = subst (Evolution mid) (ap (λ r. r.1) granted) (
                      (grant_entitlements-Steps grant_items draws.membership_id
                          draws.entitlement_grant_id 0 now).at
                        mid) in
                    let evolved = Evolution-trans first second in
                    let (row', found', moves) = evolved.invitations.at digest row usable.found in
                    let (m', joined, kept) =
                      evolved.memberships.at draws.membership_id
                        (new_member draws.membership_id identity_id row.organization_id now)
                        (new_member-found draws.membership_id identity_id row.organization_id now
                          db.memberships) in
                    after_update_then _ _ _ (
                      returned _ (
                        refl,
                        record {
                          invitation = row;
                          usable = usable;
                          had_none = sym existing_is ∙ ground arith;
                          joined = (m', joined, kept.same_identity, kept.same_organization);
                          spent =
                              spend-found digest row row' last.invitations found' moves
                                usable.active usable.uses_left;
                        },
                      ))

  -- `redeem_invitation` returns only for an invitation that was active, in time and not used up, and
  -- for an identity without a current membership of the organization; a membership of that identity
  -- and organization, with the drawn identifier, is committed, and the invitation is committed as
  -- spent.
  pub redeem_invitation-HasJoined :
      (code identity_id : String) (draws : RedeemDraws) (now : ℕ) (c c' : Connection) (m : String)
      → redeem_invitation code identity_id draws now c ≡ (ok m, c')
      → HasJoined (platform.sha256 code) identity_id draws.membership_id now c.working c'.committed
  unfolding redeem_invitation
  redeem_invitation-HasJoined code identity_id draws now c c' m h =
      let ended = (immediate_ok _ c (reading_ok _ _ c h).2).1 in
      subst
        (λ (x : Connection).
          HasJoined (platform.sha256 code) identity_id draws.membership_id now c.working
            x.committed)
        (sym ended.2)
        ((redeem_rows-HasJoined (platform.sha256 code) identity_id draws now c.working).at m ended.0
          ended.1).1

  redeem_rows-refuses :
      (digest identity_id : String) (draws : RedeemDraws) (now : ℕ) (db : Db)
      → IsRedeemedCode digest db
      → Ensures (redeem_rows digest identity_id draws now) db (λ _ _. ⊥)
  redeem_rows-refuses digest identity_id draws now db (i, found, dead) = record {
    at = λ m after h.
        let u = ((redeem_rows-HasJoined digest identity_id draws now db).at m after h).1.usable in
        let same = sym u.found ∙ found in refuted i _ same dead u.active;
  }

  -- An invitation code is redeemed once: after a call that returned, whatever calls come between, no
  -- call with the same code returns, for whatever identity.
  pub redeem_invitation_once :
      (code identity_id : String) (draws : RedeemDraws) (now : ℕ) (c c' : Connection) (m : String)
      (calls : List Call) (identity_id' : String) (draws' : RedeemDraws) (later : ℕ) (m' : String)
      → redeem_invitation code identity_id draws now c ≡ (ok m, c')
      → (redeem_invitation code identity_id' draws' later (run calls c')).0 ≢ ok m'
  unfolding redeem_invitation
  redeem_invitation_once code identity_id draws now c c' m calls identity_id' draws' later m' h
        again =
      let ended = (immediate_ok _ c (reading_ok _ _ c h).2).1 in
      let spent =
        ((redeem_rows-HasJoined (platform.sha256 code) identity_id draws now c.working).at m ended.0
          ended.1).1.spent in
      let past = run-IsAhead calls (at_rest ended.0) (Evolution-refl ended.0) in
      let second =
        (immediate_ok _ (run calls c') (reading_ok _ _ (run calls c') (with_state _ again)).2).1 in
      (redeem_rows-refuses (platform.sha256 code) identity_id' draws' later (run calls c').working (
          subst (λ (x : Connection). IsRedeemedCode (platform.sha256 code) (run calls x).working)
            (sym ended.2)
            (IsRedeemedCode-stays (platform.sha256 code) (Evolution-trans past.0 past.1) spent))).at
        m' second.0 second.1
