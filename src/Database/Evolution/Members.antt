-- ===== src/Database/Evolution/Members.antt =====
-- The changes that a row of an organization's authority may undergo: derived sessions, memberships,
-- invitations and organizations.
use anar_core.Base.{
  ℕ, ◌≤◌, ◌<◌, Bool, true, false, List, [], ◌∷◌, ◌≡◌, refl, sym, ap, ◌∙◌, ◌&&◌, not, arith, ◌⊎◌,
  inl, inr, Bool-cases,
}
use anar_core.Base.Table.{exists_where, update_where, exists_where-none}
use anar_core.Database.Definitions.{Invitation, spend}
use anar_core.Database.Rows.{
  Session, Membership, Organization, is_active, is_current, rivals, Status, become, revoke_session,
}

-- A session stays as it is, or it is revoked.
pub data SessionMoves (c d : Session) : Type 0 where
  session_kept : d ≡ c → SessionMoves c d
  session_ends : (now : ℕ) → d ≡ revoke_session now c → SessionMoves c d

pub session_stays : (c : Session) → SessionMoves c c
session_stays c = session_kept refl

pub session_trans : (c d e : Session) → SessionMoves c d → SessionMoves d e → SessionMoves c e
session_trans c d e m (session_kept q) = rw q m
session_trans c d e (session_kept p) (session_ends now q) =
    session_ends now (q ∙ ap (revoke_session now) p)
session_trans c d e (session_ends t p) (session_ends now q) =
    session_ends now (q ∙ ap (revoke_session now) p)

-- A session that is not active is not active afterwards.
pub ended_session :
    (c d : Session) → SessionMoves c d → is_active c.status ≡ false → is_active d.status ≡ false
ended_session c d (session_kept e) h = ap (λ s. is_active s.status) e ∙ h
ended_session c d (session_ends now e) h = ap (λ s. is_active s.status) e

-- A membership keeps what it is of. Its versions do not fall; its status changes only with a higher
-- authorization version, and no change leads back: to the active memberships, or to the current ones.
pub record MembershipMoves (c d : Membership) : Type 0 where
  pub same_identity : d.identity_id ≡ c.identity_id
  pub same_organization : d.organization_id ≡ c.organization_id
  pub authorization_grows : c.authorization_version ≤ d.authorization_version
  pub entitlement_grows : c.entitlement_version ≤ d.entitlement_version
  pub changes_version : (d.status ≡ c.status) ⊎ (c.authorization_version < d.authorization_version)
  pub was_active : is_active d.status ≡ true → is_active c.status ≡ true
  pub was_current : is_current d ≡ true → is_current c ≡ true

pub membership_stays : (c : Membership) → MembershipMoves c c
membership_stays c = record {
  same_identity = refl;
  same_organization = refl;
  authorization_grows = omega arith;
  entitlement_grows = omega arith;
  changes_version = inl refl;
  was_active = λ h. h;
  was_current = λ h. h;
}

changes_trans :
    (c d e : Membership)
    → MembershipMoves c d
    → MembershipMoves d e
    → (d.status ≡ c.status) ⊎ (c.authorization_version < d.authorization_version)
    → (e.status ≡ d.status) ⊎ (d.authorization_version < e.authorization_version)
    → (e.status ≡ c.status) ⊎ (c.authorization_version < e.authorization_version)
changes_trans c d e m n (inl p) (inl q) = inl (q ∙ p)
changes_trans c d e m n (inl p) (inr q) = let h = m.authorization_grows in inr (omega arith)
changes_trans c d e m n (inr p) r = let h = n.authorization_grows in inr (omega arith)

pub membership_trans :
    (c d e : Membership) → MembershipMoves c d → MembershipMoves d e → MembershipMoves c e
membership_trans c d e m n = record {
  same_identity = n.same_identity ∙ m.same_identity;
  same_organization = n.same_organization ∙ m.same_organization;
  authorization_grows =
      let a = m.authorization_grows in let b = n.authorization_grows in omega arith;
  entitlement_grows = let a = m.entitlement_grows in let b = n.entitlement_grows in omega arith;
  changes_version = changes_trans c d e m n m.changes_version n.changes_version;
  was_active = λ h. m.was_active (n.was_active h);
  was_current = λ h. m.was_current (n.was_current h);
}

-- An invitation stays as it is, or it was active and is spent.
pub data InvitationMoves (c d : Invitation) : Type 0 where
  invitation_kept : d ≡ c → InvitationMoves c d
  spends : is_active c.status ≡ true → d ≡ spend c → InvitationMoves c d

pub invitation_stays : (c : Invitation) → InvitationMoves c c
invitation_stays c = invitation_kept refl

-- An invitation that is not active stays as it is.
pub spent_invitation : (c d : Invitation) → InvitationMoves c d → is_active c.status ≡ false → d ≡ c
spent_invitation c d (invitation_kept e) h = e
spent_invitation c d (spends was e) h = cc

pub invitation_trans :
    (c d e : Invitation) → InvitationMoves c d → InvitationMoves d e → InvitationMoves c e
invitation_trans c d e (invitation_kept p) n = rw (← p) n
invitation_trans c d e (spends was p) n =
    spends was (spent_invitation d e n (ap (λ r. is_active r.status) p) ∙ p)

-- An organization keeps its name and status, and its hydration version does not fall.
pub record OrganizationMoves (c d : Organization) : Type 0 where
  pub same_name : d.canonical_name ≡ c.canonical_name
  pub same_status : d.status ≡ c.status
  pub hydration_grows : c.hydration_version ≤ d.hydration_version

pub organization_stays : (c : Organization) → OrganizationMoves c c
organization_stays c = record {
  same_name = refl;
  same_status = refl;
  hydration_grows = omega arith;
}

pub organization_trans :
    (c d e : Organization) → OrganizationMoves c d → OrganizationMoves d e → OrganizationMoves c e
organization_trans c d e m n = record {
  same_name = n.same_name ∙ m.same_name;
  same_status = n.same_status ∙ m.same_status;
  hydration_grows = let a = m.hydration_grows in let b = n.hydration_grows in omega arith;
}

-- The unique index one_current_membership_per_identity_organization: no identity has two current
-- memberships of an organization.
unfoldable pub one_current : List Membership → Bool
one_current [] = true
one_current (r ∷ rest) = not (is_current r && exists_where (rivals r) rest) && one_current rest

exists-and :
    {A : Type 0} (b : Bool) (q : A → Bool) (xs : List A)
    → exists_where (λ r. b && q r) xs ≡ (b && exists_where q xs)
exists-and true q xs = refl
exists-and false q [] = refl
exists-and false q (x ∷ xs) = exists-and false q xs

pub one_current-insert :
    (row : Membership) (xs : List Membership)
    → exists_where (λ r. is_current row && rivals row r) xs ≡ false
    → one_current xs ≡ true
    → one_current (row ∷ xs) ≡ true
unfolding one_current
one_current-insert row xs none_there h = rw (sym (exists-and (is_current row) _ xs) ∙ none_there) h

-- What takes no membership back among the current ones.
pub record Lowers (p : Membership → Bool) (f : Membership → Membership) : Type 0 where
  pub same_identity : (m : Membership) → (f m).identity_id ≡ m.identity_id
  pub same_organization : (m : Membership) → (f m).organization_id ≡ m.organization_id
  pub was_current : (m : Membership) → p m ≡ true → is_current (f m) ≡ true → is_current m ≡ true

rivals_stay :
    (x : Membership) (p : Membership → Bool) (f : Membership → Membership) (xs : List Membership)
    → Lowers p f
    → exists_where (rivals x) xs ≡ false
    → exists_where (rivals x) (update_where p f xs) ≡ false
rivals_stay x p f xs low h =
    exists_where-none (rivals x) p f xs
      (λ a found q.
        ground (arith, low.same_identity a, low.same_organization a, low.was_current a found))
      h

-- One row before the others, whose rivals among them are gone if they were.
one_current-row :
    (x y : Membership) (xs ys : List Membership)
    → (is_current y ≡ true → is_current x ≡ true)
    → (exists_where (rivals x) xs ≡ false → exists_where (rivals y) ys ≡ false)
    → (one_current xs ≡ true → one_current ys ≡ true)
    → one_current (x ∷ xs) ≡ true
    → one_current (y ∷ ys) ≡ true
unfolding one_current
one_current-row x y xs ys was gone rest h = ground (arith)

pub one_current-update :
    (p : Membership → Bool) (f : Membership → Membership) (xs : List Membership)
    → Lowers p f
    → one_current xs ≡ true
    → one_current (update_where p f xs) ≡ true
one_current-update p f [] low h = h
one_current-update p f (x ∷ xs) low h = elim (Bool-cases (p x)) [
  | inl e ↦ rw e (
      one_current-row x (f x) xs (update_where p f xs) (low.was_current x e)
        (λ none_there.
          rw (low.same_identity x)
            (rw (low.same_organization x) (rivals_stay x p f xs low none_there)))
        (one_current-update p f xs low) h)
  | inr e ↦ rw e (
      one_current-row x x xs (update_where p f xs) (λ q. q) (rivals_stay x p f xs low)
        (one_current-update p f xs low) h)
]

-- The three methods that end a membership take current rows only.
pub become-Lowers :
    (p : Membership → Bool) (status : Status)
    → ((m : Membership) → p m ≡ true → is_current m ≡ true)
    → Lowers p (become status)
become-Lowers p status current = record {
  same_identity = λ m. refl;
  same_organization = λ m. refl;
  was_current = λ m found q. current m found;
}
