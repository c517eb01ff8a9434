-- ===== src/Database/Evolve.antt =====
-- How a table changes: rows keep their key, and each moves only as its kind of row may.
use mathlib.Core.Bool.{false≢true}
use anar_core.Base.{
  ◌&&◌, ap, sym, ◌∙◌, String, Bool, true, false, some, List, [], ◌∷◌, ◌≡◌, refl, ◌==◌, eq_iff,
  arith, if◌then◌else◌, Bool-cases, inl, inr,
}
use mathlib.Core.Option
use anar_core.Base.Table.{
  find_where, exists_where, update_where, find_where-update, exists_where-of_find,
}

-- A row that a key finds is found again, moved.
pub record Evolves {A : Type 0} (key : A → String) (Moves : A → A → Type 0) (xs ys : List A)
    : Type 0 where
  pub at :
      (k : String) (a : A)
      → find_where (λ r. key r == k) xs ≡ some a
      → (b : A) × (find_where (λ r. key r == k) ys ≡ some b) × Moves a b

module _ {A : Type 0} (key : A → String) (Moves : A → A → Type 0)
    (stays : (a : A) → Moves a a) where
  pub Evolves-refl : (xs : List A) → Evolves key Moves xs xs
  Evolves-refl xs = record { at = λ k a e. (a, e, stays a) }

  pub Evolves-trans :
      ((a b c : A) → Moves a b → Moves b c → Moves a c)
      → {xs ys zs : List A} → Evolves key Moves xs ys
      → Evolves key Moves ys zs
      → Evolves key Moves xs zs
  Evolves-trans trans e f = record {
    at = λ k a h.
        let first = e.at k a h in
        let second = f.at k first.0 first.1 in
        (second.0, second.1, trans a first.0 second.0 first.2 second.2);
  }

  -- A new row has a fresh key.
  pub Evolves-insert :
      (row : A) (xs : List A)
      → exists_where (λ r. key r == key row) xs ≡ false
      → Evolves key Moves xs (row ∷ xs)
  Evolves-insert row xs fresh = record {
    at = λ k a h. elim (Bool-cases (key row == k)) [
      | inl e ↦
          let found = rw (← (eq_iff (key row) k).0 e) at h in
          absurd (false≢true (sym fresh ∙ exists_where-of_find (λ r. key r == key row) xs a found))
      | inr e ↦ (a, rw e h, stays a)
    ];
  }

  pub Evolves-update :
      (p : A → Bool) (f : A → A) (xs : List A)
      → ((a : A) → key (f a) ≡ key a)
      → ((a : A) → p a ≡ true → Moves a (f a))
      → Evolves key Moves xs (update_where p f xs)
  Evolves-update p f xs keep move = record {
    at = λ k a h.
        let found =
          find_where-update (λ r. key r == k) p f xs (λ r. ap (λ s. s == k) (keep r))
          ∙ ap (Option.map (λ a. if p a then f a else a)) h in
        elim (Bool-cases (p a)) [
          | inl e ↦ (f a, found ∙ rw e refl, move a e)
          | inr e ↦ (a, found ∙ rw e refl, stays a)
        ];
  }

-- A key that is known stays known, and once it has no live row it never has one again.
pub record Retires {A : Type 0} (key : A → String) (live : A → Bool) (xs ys : List A) : Type 0 where
  pub at :
      (k : String)
      → exists_where (λ r. key r == k) xs ≡ true
      → (exists_where (λ r. key r == k) ys ≡ true)
        × (exists_where (λ r. key r == k && live r) xs ≡ false
            → exists_where (λ r. key r == k && live r) ys ≡ false)

module _ {A : Type 0} (key : A → String) (live : A → Bool) where
  pub Retires-refl : (xs : List A) → Retires key live xs xs
  Retires-refl xs = record { at = λ k e. (e, λ h. h) }

  pub Retires-trans :
      {xs ys zs : List A} → Retires key live xs ys → Retires key live ys zs → Retires key live xs zs
  Retires-trans e f = record {
    at = λ k h.
        let first = e.at k h in
        let second = f.at k first.0 in (second.0, λ dead. second.1 (first.1 dead));
  }

  pub Retires-insert :
      (row : A) (xs : List A)
      → exists_where (λ r. key r == key row) xs ≡ false
      → Retires key live xs (row ∷ xs)
  Retires-insert row xs fresh = record {
    at = λ k h. elim (Bool-cases (key row == k)) [
      | inl e ↦ absurd (
          false≢true (
            sym fresh ∙ ap (λ s. exists_where (λ r. key r == s) xs) ((eq_iff (key row) k).0 e) ∙ h))
      | inr e ↦ (ground arith, ground arith)
    ];
  }

  pub exists_where-update :
      (p q : A → Bool) (f : A → A) (xs : List A)
      → ((a : A) → q (f a) ≡ q a)
      → exists_where q (update_where p f xs) ≡ exists_where q xs
  exists_where-update p q f [] keep = refl
  exists_where-update p q f (x ∷ xs) keep =
      ground (arith, keep x, exists_where-update p q f xs keep)

  none_live-update :
      (k : String) (p : A → Bool) (f : A → A) (xs : List A)
      → ((a : A) → key (f a) ≡ key a)
      → ((a : A) → live (f a) ≡ true → live a ≡ true)
      → exists_where (λ r. key r == k && live r) xs ≡ false
      → exists_where (λ r. key r == k && live r) (update_where p f xs) ≡ false
  none_live-update k p f [] keep dies h = refl
  none_live-update k p f (x ∷ xs) keep dies h =
      ground (arith, ap (λ s. s == k) (keep x), dies x, none_live-update k p f xs keep dies)

  pub Retires-update :
      (p : A → Bool) (f : A → A) (xs : List A)
      → ((a : A) → key (f a) ≡ key a)
      → ((a : A) → live (f a) ≡ true → live a ≡ true)
      → Retires key live xs (update_where p f xs)
  Retires-update p f xs keep dies = record {
    at = λ k h. (
      exists_where-update p (λ r. key r == k) f xs (λ r. ap (λ s. s == k) (keep r)) ∙ h,
      none_live-update k p f xs keep dies,
    );
  }
