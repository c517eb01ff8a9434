-- ===== src/Store/Sound/Accepted.antt =====
-- Checks that return what they are given: `AuthorizedSubject`, `AdapterGrantBinding`,
-- `VersionedDefinitionRef`, and lists of them.
use anar_core.Base.{
  ℕ, String, List, [], ◌∷◌, map, pos, ◌≡◌, refl, ap, ◌∙◌, Bool-cases, inl, inr, ltb,
}
use anar_core.Base.Table.{All}
use anar_core.Platform.{Platform}
use anar_core.Database.Tx.{Result, ok, err}
use anar_core.Contracts.Check.{
  ◌>>=◌, ◌>>◌, traverse, VersionedDefinitionRef, versioned_definition_ref, positive_integer,
}
use anar_core.Contracts.TypedId.{validate_id}
use anar_core.Contracts.Binding.{AdapterGrantBinding, checked_binding}
use anar_core.Contracts.Projection.{AuthorizedSubject, checked_subject}

-- A chain of checks that returns this value, if it returns.
pub record Returns {A : Type 0} (a : A) (r : Result A) : Type 0 where
  pub at : (b : A) → r ≡ ok b → b ≡ a

pub Returns-ok : {A : Type 0} (a : A) → Returns a (ok a)
Returns-ok a = record { at = λ b h. cc }

pub Returns-then :
    {A B : Type 0} (m : Result A) (k : Result B) (b : B) → Returns b k → Returns b (m >> k)
Returns-then (ok a) k b r = r
Returns-then (err e) k b r = record { at = λ c h. cc }

-- Where a chain has returned, both of its parts have.
when_ok :
    {A B P : Type 0} {last : B} (next : A → Result B) (first : Result A)
    → ((a : A) → first ≡ ok a → next a ≡ ok last → P)
    → (first >>= next) ≡ ok last
    → P
when_ok next (ok a) use_parts ran = use_parts a refl ran
when_ok next (err e) use_parts ran = cc

-- A traversal by checks that return what they are given.
pub traverse-values :
    {A B : Type 0} (h : B → Result B) (g : A → B) (xs : List A) (ys : List B)
    → ((b : B) → Returns b (h b))
    → traverse (λ a. h (g a)) xs ≡ ok ys
    → (ys ≡ map g xs) × All (λ b. h b ≡ ok b) ys
unfolding traverse
traverse-values h g [] ys each e = let none_left : ys ≡ [] = cc in rw none_left (refl, tt)
traverse-values h g (x ∷ xs) ys each e =
    when_ok _ (h (g x))
      (λ y y_is. when_ok _ (traverse (λ a. h (g a)) xs) λ zs zs_is last.
        let same = (each (g x)).at y y_is in
        let (values, accepted) = traverse-values h g xs zs each zs_is in
        let whole : ys ≡ y ∷ zs = cc in
        rw whole ((λ i. same i ∷ values i), (ap h same ∙ y_is, accepted)))
      e

pub traverse-returns :
    {A B : Type 0} (h : B → Result B) (g : A → B) (xs : List A)
    → All (λ b. h b ≡ ok b) (map g xs)
    → traverse (λ a. h (g a)) xs ≡ ok (map g xs)
unfolding traverse
traverse-returns h g [] each = refl
traverse-returns h g (x ∷ xs) each = rw each.0 (rw (traverse-returns h g xs each.1) refl)

positive_integer-same :
    (n : ℕ) (label : String) {k : ℕ} → positive_integer (pos n) label ≡ ok k → k ≡ n
unfolding positive_integer
positive_integer-same n label h = elim (Bool-cases (ltb n 1)) [
  | inl e ↦ (let q = rw e at h in cc)
  | inr e ↦ (let q = rw e at h in cc)
]

abbrev ref_of : String → ℕ → VersionedDefinitionRef
ref_of id version = record { definition_id = id; version = version }

module _ ⦃platform : Platform⦄ where
  pub checked_subject-Returns : (s : AuthorizedSubject) → Returns s (checked_subject s)
  unfolding checked_subject
  checked_subject-Returns s = search (Returns-ok, Returns-then) depth 12

  pub checked_binding-Returns : (b : AdapterGrantBinding) → Returns b (checked_binding b)
  unfolding checked_binding
  checked_binding-Returns b = search (Returns-ok, Returns-then) depth 20

  pub versioned_definition_ref-Returns :
      (r : VersionedDefinitionRef)
      → Returns r (versioned_definition_ref r.definition_id (pos r.version))
  unfolding versioned_definition_ref
  versioned_definition_ref-Returns r = record {
    at = λ c. when_ok _ (validate_id r.definition_id) λ id id_is.
        when_ok _ (positive_integer (pos r.version) "definition version") λ n n_is last.
          let same = positive_integer-same r.version "definition version" n_is in
          let whole : c ≡ record { definition_id = r.definition_id; version = n } = cc in
          whole ∙ ap (λ v. ref_of r.definition_id v) same;
  }
