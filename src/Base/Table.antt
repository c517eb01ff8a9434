-- ===== src/Base/Table.antt =====
-- The rows of an SQL table as a list, newest first, with the statements that the store runs on it.
use Prim.Native.Nat.{ℕ, suc}
use mathlib.Core.Path.{◌≡◌, refl}
use mathlib.Core.Bool.{Bool, true, false, ◌||◌, ◌&&◌}
use mathlib.Core.Option.{Option, none, some}
use mathlib.Core.Option
use mathlib.Core.Logic.{◌⊎◌, inl, inr}
use mathlib.Core.List.{List, [], ◌∷◌}
use native.Mathlib.Omega.{arith}
use anar_core.Base.Tests.{Bool-cases, if◌then◌else◌}

module _ {ℓ} {A : Type ℓ} where
  -- `SELECT … WHERE p`, then `fetchone()`
  abbrev pub find_where : (A → Bool) → List A → Option A
  find_where p [] = none
  find_where p (x ∷ xs) = if p x then some x else find_where p xs

  -- `SELECT … WHERE p`, then `fetchall()`
  abbrev pub select_where : (A → Bool) → List A → List A
  select_where p [] = []
  select_where p (x ∷ xs) = if p x then x ∷ select_where p xs else select_where p xs

  abbrev pub exists_where : (A → Bool) → List A → Bool
  exists_where p [] = false
  exists_where p (x ∷ xs) = p x || exists_where p xs

  abbrev pub all_where : (A → Bool) → List A → Bool
  all_where p [] = true
  all_where p (x ∷ xs) = p x && all_where p xs

  -- The `rowcount` of an `UPDATE … WHERE p`.
  abbrev pub count_where : (A → Bool) → List A → ℕ
  count_where p [] = 0
  count_where p (x ∷ xs) = if p x then suc (count_where p xs) else count_where p xs

  -- `UPDATE … SET f WHERE p`
  abbrev pub update_where : (A → Bool) → (A → A) → List A → List A
  update_where p f [] = []
  update_where p f (x ∷ xs) = (if p x then f x else x) ∷ update_where p f xs

  abbrev pub All {κ} : (A → Type κ) → List A → Type κ
  All P [] = Unit
  All P (x ∷ xs) = P x × All P xs

  abbrev pub Any : (A → Type 0) → List A → Type 0
  Any P [] = ⊥
  Any P (x ∷ xs) = P x ⊎ Any P xs

module _ {ℓ} {A : Type ℓ} where
  pub find_where-holds :
      (p : A → Bool) (xs : List A) (a : A) → find_where p xs ≡ some a → p a ≡ true
  find_where-holds p [] a e = cc
  find_where-holds p (x ∷ xs) a e = ground (arith, find_where-holds p xs a)

  -- An UPDATE that keeps what a query tests changes only the row that the query finds.
  pub find_where-update :
      (q p : A → Bool) (f : A → A) (xs : List A)
      → ((a : A) → q (f a) ≡ q a)
      → find_where q (update_where p f xs)
        ≡ Option.map (λ a. if p a then f a else a) (find_where q xs)
  find_where-update q p f [] keep = refl
  find_where-update q p f (x ∷ xs) keep = ground (arith, keep x, find_where-update q p f xs keep)

  pub exists_where-of_find :
      (p : A → Bool) (xs : List A) (a : A) → find_where p xs ≡ some a → exists_where p xs ≡ true
  exists_where-of_find p [] a e = cc
  exists_where-of_find p (x ∷ xs) a e = ground (arith, exists_where-of_find p xs a)

  -- What every row has, and what an UPDATE gives.
  pub All-update {κ μ} :
      {P : A → Type κ} {Q : A → Type μ} (p : A → Bool) (f : A → A) (xs : List A)
      → ((a : A) → p a ≡ true → P a → Q (f a))
      → ((a : A) → p a ≡ false → P a → Q a)
      → All P xs
      → All Q (update_where p f xs)
  All-update p f [] hit miss h = tt
  All-update p f (x ∷ xs) hit miss h = elim (Bool-cases (p x)) [
    | inl e ↦ (rw e (hit x e h.0), All-update p f xs hit miss h.1)
    | inr e ↦ (rw e (miss x e h.0), All-update p f xs hit miss h.1)
  ]

  pub All-trivial : (xs : List A) → All (λ _. Unit {0}) xs
  All-trivial [] = tt
  All-trivial (x ∷ xs) = (tt, All-trivial xs)

  pub All-map {κ μ} :
      {P : A → Type κ} {Q : A → Type μ} (xs : List A) → ((a : A) → P a → Q a) → All P xs → All Q xs
  All-map [] f h = tt
  All-map (x ∷ xs) f h = (f x h.0, All-map xs f h.1)

  -- An UPDATE that reaches every row of a kind and takes it out of the kind leaves none.
  pub exists_where-cleared :
      (q p : A → Bool) (f : A → A) (xs : List A)
      → ((a : A) → q a ≡ true → p a ≡ true)
      → ((a : A) → q (f a) ≡ false)
      → exists_where q (update_where p f xs) ≡ false
  exists_where-cleared q p f [] reach out = refl
  exists_where-cleared q p f (x ∷ xs) reach out =
      ground (arith, reach x, out x, exists_where-cleared q p f xs reach out)

  -- A row that a query finds lies in every wider kind.
  pub exists_where-found :
      (q p : A → Bool) (xs : List A) (a : A)
      → ((a : A) → p a ≡ true → q a ≡ true)
      → find_where p xs ≡ some a
      → exists_where q xs ≡ true
  exists_where-found q p [] a wider e = cc
  exists_where-found q p (x ∷ xs) a wider e =
      ground (arith, wider x, exists_where-found q p xs a wider)

  -- An UPDATE brings no row into a kind that has none, if it makes none.
  pub exists_where-none :
      (q p : A → Bool) (f : A → A) (xs : List A)
      → ((a : A) → p a ≡ true → q (f a) ≡ true → q a ≡ true)
      → exists_where q xs ≡ false
      → exists_where q (update_where p f xs) ≡ false
  exists_where-none q p f [] back h = refl
  exists_where-none q p f (x ∷ xs) back h =
      let rest = exists_where-none q p f xs back in
      elim (Bool-cases (p x)) [
        | inl e ↦ rw e (ground (arith, back x e))
        | inr e ↦ rw e (ground arith)
      ]
