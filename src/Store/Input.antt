-- ===== src/Store/Input.antt =====
-- The checks of arguments: `_normalize_email`, `_token_digest`, `_require_positive_integer` and
-- `_require_password`.
use Prim.Native.String.{◌++◌ as text_append}
use anar_core.Base.{
  ℕ, String, Bool, true, false, Option, none, some, List, [], ◌∷◌, ◌&&◌, ◌||◌, not, ◌==◌, leb, ltb,
  nat_eq, if◌then◌else◌,
}
pub use anar_core.Base.Int.{ℤ, pos, negsuc}
use anar_core.Platform.{Platform}
use anar_core.Contracts.Text.{codes, length}
use anar_core.Database.Tx.{Result, ok, err, Error}

-- `c in s`
abbrev pub contains : ℕ → List ℕ → Bool
contains c [] = false
contains c (x ∷ s) = nat_eq x c || contains c s

-- `s.partition(c)`: the part before the first `c`, whether there is one, and the part after it.
abbrev pub partition : ℕ → List ℕ → List ℕ × Bool × List ℕ
partition c [] = ([], false, [])
partition c (x ∷ s) =
    let (before, found, after) = partition c s in
    if nat_eq x c then ([], true, s) else (x ∷ before, found, after)

abbrev pub is_empty : List ℕ → Bool
is_empty [] = true
is_empty (x ∷ s) = false

-- The two tests of `_normalize_email` on the folded text.
unfoldable pub is_email : List ℕ → Bool
is_email s =
    let (local_part, separator, domain) = partition b'@' s in
    not (is_empty s)
    && contains b'@' s
    && separator
    && not (is_empty local_part)
    && contains b'.' domain

abbrev pub maximum_ok : Option ℕ → ℕ → Bool
maximum_ok none n = true
maximum_ok (some m) n = leb n m

unfoldable pub require_positive_integer : ℤ → String → Option ℕ → Result ℕ
require_positive_integer (negsuc n) label maximum =
    err (Error.authority (text_append label " must be positive"))
require_positive_integer (pos n) label maximum =
    if ltb n 1
    then err (Error.authority (text_append label " must be positive"))
    else if maximum_ok maximum n
    then ok n
    else err (Error.authority (text_append label " invalid"))

unfoldable pub require_password : String → Result String
require_password password =
    if ltb (length (codes password)) 12
    then err (Error.authority "password must contain at least 12 characters")
    else ok password

-- `str(value or "").strip()` and the test that something is left.
unfoldable pub is_blank : String → Bool
is_blank s = s == ""

module _ ⦃platform : Platform⦄ where
  unfoldable pub normalize_email : String → Result String
  unfolding is_email
  normalize_email value =
      let email = platform.casefold (platform.strip value) in
      if is_email (codes email) then ok email else err (Error.authority "valid email is required")

  unfoldable pub token_digest : String → Result String
  token_digest value =
      if value == "" then err (Error.authority "token is required") else ok (platform.sha256 value)
