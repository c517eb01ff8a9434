-- ===== src/Base/Sort.antt =====
-- `ORDER BY` and `sorted`: a stable sort, and the set that `sorted` is given.
use mathlib.Core.Bool.{Bool}
use mathlib.Core.List.{List, [], ◌∷◌}
use Prim.Native.String.{String, compare}
use text.Mathlib.Text.{is_lt, ◌==◌}
use anar_core.Base.Tests.{if◌then◌else◌}
use anar_core.Base.Table.{exists_where}

module _ {ℓ} {A : Type ℓ} (le : A → A → Bool) where
  unfoldable pub insert_by : A → List A → List A
  insert_by x [] = x ∷ []
  insert_by x (y ∷ ys) = if le x y then x ∷ y ∷ ys else y ∷ insert_by x ys

  unfoldable pub order_by : List A → List A
  unfolding insert_by
  order_by [] = []
  order_by (x ∷ xs) = insert_by x (order_by xs)

abbrev pub text_lt : String → String → Bool
text_lt s t = is_lt (compare s t)

-- `{f(x) for x in xs}`, as a list without repetition
unfoldable pub distinct : List String → List String
distinct [] = []
distinct (x ∷ xs) =
    let rest = distinct xs in if exists_where (λ y. y == x) rest then rest else x ∷ rest
