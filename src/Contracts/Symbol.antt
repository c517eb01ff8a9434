-- ===== src/Contracts/Symbol.antt =====
-- `normalize_symbol`.
use anar_core.Base.{ℕ, String, Bool, false, List, [], ◌∷◌, ◌&&◌, leb, if◌then◌else◌}
use anar_core.Platform.{Platform}
use anar_core.Database.Tx.{Result, ok, err, Error}
use anar_core.Contracts.Text.{codes, length, all_of, is_alnum, is_symbol_char}

-- The regular expression `_SYMBOL`, on the whole text.
unfoldable pub is_symbol : List ℕ → Bool
is_symbol [] = false
is_symbol (c ∷ s) = is_alnum c && leb (length s) 127 && all_of is_symbol_char s

module _ ⦃platform : Platform⦄ where
  unfoldable pub normalize_symbol : String → Result String
  unfolding is_symbol is_alnum is_symbol_char
  normalize_symbol value =
      let normalized = platform.lower (platform.strip (platform.nfkc value)) in
      if is_symbol (codes normalized) then ok normalized else err (Error.invalid_symbol value)
