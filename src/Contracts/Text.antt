-- ===== src/Contracts/Text.antt =====
-- Character classes of the regular expressions, and texts as lists of code points.
use Prim.Native.Char.{code}
use anar_core.Base.{ℕ, suc, String, Bool, true, List, [], ◌∷◌, ◌&&◌, ◌||◌, leb, nat_eq}

abbrev pub codes : String → List ℕ
codes String.[] = []
codes (String.◌∷◌ c s) = code c ∷ codes s

abbrev pub length {ℓ} : {A : Type ℓ} → List A → ℕ
length [] = 0
length (x ∷ xs) = suc (length xs)

abbrev pub all_of : (ℕ → Bool) → List ℕ → Bool
all_of p [] = true
all_of p (c ∷ s) = p c && all_of p s

-- [a-z]
unfoldable pub is_lower : ℕ → Bool
is_lower c = leb b'a' c && leb c b'z'

-- [0-9]
unfoldable pub is_digit : ℕ → Bool
is_digit c = leb b'0' c && leb c b'9'

-- [a-z0-9]
unfoldable pub is_alnum : ℕ → Bool
unfolding is_lower is_digit
is_alnum c = is_lower c || is_digit c

-- [0-9a-f]
unfoldable pub is_hex : ℕ → Bool
unfolding is_digit
is_hex c = is_digit c || leb b'a' c && leb c b'f'

-- [a-z0-9._:-]
unfoldable pub is_symbol_char : ℕ → Bool
unfolding is_alnum
is_symbol_char c = is_alnum c || nat_eq c b'.' || nat_eq c b'_' || nat_eq c b':' || nat_eq c b'-'
