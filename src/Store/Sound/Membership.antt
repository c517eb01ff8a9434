-- ===== src/Store/Sound/Membership.antt =====
-- `suspend_membership`, `leave_membership` and `revoke_membership`, and the calls that come after.
use mathlib.Core.Path.{subst}
use mathlib.Core.Bool.{false≢true}
use anar_core.Base.{
  ℕ, String, Bool, true, false, some, List, [], ◌∷◌, ◌≡◌, ◌≢◌, refl, sym, ap, ◌∙◌, ◌==◌, ◌&&◌, inl,
  inr, Bool-cases, arith, if◌then◌else◌,
}
use anar_core.Base.Table.{
  find_where, update_where, count_where, find_where-update, find_where-holds,
}
use mathlib.Core.Option
use anar_core.Platform.{Platform}
use anar_core.Contracts.Projection.{AuthorizedSubject}
use anar_core.Database.Rows.{Db, Session, Membership, Status, become, is_active}
use anar_core.Database.Tx.{Error, Action, Connection, at_rest, ok}
use anar_core.Database.Ensures.{Ensures, after_update, after_require}
use anar_core.Database.Inversion.{reading_ok, with_connection_ok}
use anar_core.Database.Evolution.Moves.{Evolution, Evolution-refl, Evolution-trans}
use anar_core.Store.Calls.{Call, run}
use anar_core.Store.Evolution.Calls.{run-IsAhead}
use anar_core.Store.Evolution.Authority.{revoke_membership_sessions-Steps}
use anar_core.Store.Replay.Spent.{steps_carry}
use anar_core.Store.Ended.Loaded.{nat_eq→≡}
use anar_core.Store.Subject.Project.{project}
use anar_core.Store.Organization.Membership.{
  end_membership_rows, suspend_membership, leave_membership, revoke_membership,
}
use anar_core.Store.Sound.Subject.{project-IsAuthorized}

-- The three ways.
pub data Ending : Type 0 where
  suspends leaves revokes : Ending

module _ ⦃platform : Platform⦄ where
  abbrev pub end_membership : Ending → String → ℕ → Action (Unit {0})
  end_membership Ending.suspends = suspend_membership
  end_membership Ending.leaves = leave_membership
  end_membership Ending.revokes = revoke_membership

-- The membership with this identifier is known, and is not active.
abbrev pub IsLapsed : String → Db → Type 0
IsLapsed id db =
    (m : Membership) × (find_where (λ r. r.membership_id == id) db.memberships ≡ some m)
    × (is_active m.status ≡ false)

stays_false : (a b : Bool) → (a ≡ true → b ≡ true) → b ≡ false → a ≡ false
stays_false a b up h = ground arith

pub IsLapsed-stays : (id : String) {a b : Db} → Evolution a b → IsLapsed id a → IsLapsed id b
IsLapsed-stays id e (m, found, dead) =
    let (m', found', moves) = e.memberships.at id m found in
    (m', found', stays_false _ _ moves.was_active dead)

-- A statement that reached a row has found one.
count_where-found :
    {A : Type 0} (p q : A → Bool) (xs : List A)
    → ((a : A) → p a ≡ true → q a ≡ true)
    → count_where p xs ≡ 1
    → (a : A) × (find_where q xs ≡ some a)
count_where-found p q [] wider h = absurd (omega arith)
count_where-found p q (x ∷ xs) wider h = elim (Bool-cases (q x)) [
  | inl e ↦ (x, rw e refl)
  | inr e ↦
      let missed : p x ≡ false = stays_false (p x) (q x) (wider x) e in
      let later = count_where-found p q xs wider (rw missed at h) in (later.0, rw e later.1)
]

-- The found row has become what the method makes of it, or was none that the method takes.
lapsed :
    (id : String) (from : Membership → Bool) (to : Status) (db : Db) (m : Membership)
    → ((r : Membership) → is_active r.status ≡ true → from r ≡ true)
    → is_active to ≡ false
    → find_where (λ r. r.membership_id == id) db.memberships ≡ some m
    → (m' : Membership) × (find_where
          (λ r. r.membership_id == id)
          (update_where (λ r. r.membership_id == id && from r) (become to) db.memberships)
        ≡ some m')
      × (is_active m'.status ≡ false)
lapsed id from to db m takes ends found =
    let moved =
      find_where-update (λ r. r.membership_id == id) (λ r. r.membership_id == id && from r)
        (become to) db.memberships (λ r. refl)
      ∙ ap (Option.map (λ r. if r.membership_id == id && from r then become to r else r)) found in
    elim (Bool-cases (m.membership_id == id && from m)) [
      | inl e ↦ (become to m, moved ∙ rw e refl, ends)
      | inr e ↦ (
        m,
        moved ∙ rw e refl,
        stays_false _ (m.membership_id == id && from m)
            (λ active. ground (
              arith,
              takes m,
              find_where-holds (λ r. r.membership_id == id) db.memberships m found,
            ))
            e,
      )
    ]

module _ ⦃platform : Platform⦄ where
  end_membership_rows-IsLapsed :
      (id : String) (from : Membership → Bool) (to : Status) (e : Error) (now : ℕ) (db : Db)
      → ((r : Membership) → is_active r.status ≡ true → from r ≡ true)
      → is_active to ≡ false
      → Ensures (end_membership_rows id from to e now) db (λ _ after. IsLapsed id after)
  unfolding end_membership_rows
  end_membership_rows-IsLapsed id from to e now db takes ends = after_update _ _ _ λ n n_is.
      after_require _ _ λ one.
        let found =
          count_where-found (λ r. r.membership_id == id && from r) (λ r. r.membership_id == id)
            db.memberships (λ r h. ground arith) (sym n_is ∙ nat_eq→≡ n 1 one) in
        steps_carry (revoke_membership_sessions-Steps id now)
          (λ _ after e. IsLapsed-stays id e (lapsed id from to db found.0 takes ends found.1))

  pub end_membership-IsLapsed :
      (how : Ending) (id : String) (now : ℕ) (c c' : Connection)
      → end_membership how id now c ≡ (ok tt, c')
      → (db : Db) × (c' ≡ at_rest db) × IsLapsed id db
  unfolding suspend_membership leave_membership revoke_membership
  end_membership-IsLapsed Ending.suspends id now c c' h =
      let ended = with_connection_ok _ c (reading_ok _ _ c h).2 in
      (
        ended.0,
        ended.2,
        (end_membership_rows-IsLapsed id _ _ _ now c.working (λ r a. a) refl).at tt ended.0 ended.1,
      )
  end_membership-IsLapsed Ending.leaves id now c c' h =
      let ended = with_connection_ok _ c (reading_ok _ _ c h).2 in
      (
        ended.0,
        ended.2,
        (end_membership_rows-IsLapsed id _ _ _ now c.working (λ r a. a) refl).at tt ended.0 ended.1,
      )
  end_membership-IsLapsed Ending.revokes id now c c' h =
      let ended = with_connection_ok _ c (reading_ok _ _ c h).2 in
      (
        ended.0,
        ended.2,
        (end_membership_rows-IsLapsed id _ _ _ now c.working (λ r a. ground arith) refl).at tt
            ended.0 ended.1,
      )

  -- A session of a membership that has lapsed is projected no more.
  pub lapsed_refused :
      (membership_id id : String) (later : ℕ) (c : Connection) (s : Session)
      (subject : AuthorizedSubject)
      → IsLapsed membership_id c.working
      → find_where (λ r. r.session_id == id) c.working.sessions ≡ some s
      → s.membership_id ≡ membership_id
      → (project id later c).0 ≢ ok subject
  lapsed_refused membership_id id later c s subject (m, found, dead) s_is of h =
      let a = project-IsAuthorized id later c subject h in
      let same_session : a.session ≡ s = cc in
      let asked = a.member_is.found in
      let renamed : a.session.membership_id ≡ membership_id =
        ap (λ (x : Session). x.membership_id) same_session ∙ of in
      let same : some a.member ≡ some m =
        sym asked
        ∙ ap (λ k. find_where (λ r. r.membership_id == k) c.working.memberships) renamed
        ∙ found in
      let still = a.member_is.active in
      let now_same : a.member ≡ m = cc in
      false≢true (sym dead ∙ ap (λ (x : Membership). is_active x.status) (sym now_same) ∙ still)

  -- A membership that was suspended, left or revoked gives no authority again: after the call
  -- returned, whatever calls come between, no session of the membership is projected to a subject.
  pub end_membership_for_good :
      (how : Ending) (membership_id : String) (now : ℕ) (c c' : Connection) (calls : List Call)
      (id : String) (later : ℕ) (s : Session) (subject : AuthorizedSubject)
      → end_membership how membership_id now c ≡ (ok tt, c')
      → find_where (λ r. r.session_id == id) (run calls c').working.sessions ≡ some s
      → s.membership_id ≡ membership_id
      → (project id later (run calls c')).0 ≢ ok subject
  end_membership_for_good how membership_id now c c' calls id later s subject h =
      let ended = end_membership-IsLapsed how membership_id now c c' h in
      let past = run-IsAhead calls (at_rest ended.0) (Evolution-refl ended.0) in
      lapsed_refused membership_id id later (run calls c') s subject (
        subst (λ x. IsLapsed membership_id (run calls x).working) (sym ended.1)
          (IsLapsed-stays membership_id (Evolution-trans past.0 past.1) ended.2))
