-- ===== src/Store/Sound/Current.antt =====
-- The unique index one_current_membership_per_identity_organization, over any history.
use anar_core.Base.{
  ◌≤◌, String, Bool, true, false, List, [], ◌∷◌, ◌≡◌, refl, ◌==◌, ◌&&◌, inl, inr, Bool-cases, arith,
  not, &&-parts, eq_iff, sym, ap, ◌∙◌,
}
use anar_core.Base.Table.{count_where, exists_where}
use anar_core.Platform.{Platform}
use anar_core.Database.Rows.{Db, Membership, is_current, rivals}
use anar_core.Database.Tx.{at_rest}
use anar_core.Database.Evolution.Members.{one_current}
use anar_core.Database.Evolution.Moves.{Evolution-refl}
use anar_core.Store.Calls.{Call, run}
use anar_core.Store.Evolution.Calls.{run-IsAhead}

abbrev pub holds : String → String → Membership → Bool
holds i o m = is_current m && m.identity_id == i && m.organization_id == o

pub count_where-none :
    {A : Type 0} (p : A → Bool) (xs : List A) → exists_where p xs ≡ false → count_where p xs ≡ 0
count_where-none p [] h = refl
count_where-none p (x ∷ xs) h = ground (arith, count_where-none p xs)

pub one_current-count :
    (i o : String) (xs : List Membership) → one_current xs ≡ true → count_where (holds i o) xs ≤ 1
unfolding one_current
one_current-count i o [] h = omega arith
one_current-count i o (x ∷ xs) h =
    let parts = &&-parts (not (is_current x && exists_where (rivals x) xs)) (one_current xs) h in
    let rest = one_current-count i o xs parts.1 in
    elim (Bool-cases (holds i o x)) [
      | inl e ↦
          (let same_identity : x.identity_id ≡ i = (eq_iff _ _).0 (ground arith) in
            let same_organization : x.organization_id ≡ o = (eq_iff _ _).0 (ground arith) in
            let unrivalled : exists_where (rivals x) xs ≡ false = ground arith in
            let others : exists_where (holds i o) xs ≡ false =
              ap (λ k. exists_where (holds k o) xs) (sym same_identity)
              ∙ ap (λ k. exists_where (holds x.identity_id k) xs) (sym same_organization)
              ∙ unrivalled in
            rw e (rw (count_where-none (holds i o) xs others) (omega arith)))
      | inr e ↦ rw e rest
    ]

module _ ⦃platform : Platform⦄ where
  -- Whatever calls are made on a database in which no identity has two current memberships of an
  -- organization, no identity has two in what is committed then.
  pub one_current_always :
      (calls : List Call) (db : Db) (identity_id organization_id : String)
      → one_current db.memberships ≡ true
      → count_where
          (holds identity_id organization_id)
          (run calls (at_rest db)).committed.memberships
        ≤ 1
  one_current_always calls db identity_id organization_id h =
      one_current-count identity_id organization_id _
        ((run-IsAhead calls (at_rest db) (Evolution-refl db)).0.one_membership h)
