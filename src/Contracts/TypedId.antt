-- ===== src/Contracts/TypedId.antt =====
-- `validate_typed_id`: an identifier is a kind, an underscore and 32 hexadecimal digits.
use anar_core.Base.{
  ℕ, ◌+◌, String, Bool, false, List, [], ◌∷◌, ◌&&◌, leb, nat_eq, if◌then◌else◌, ◌==◌,
}
use anar_core.Platform.{Platform}
use anar_core.Database.Tx.{Result, ok, err, Error}
use Prim.Native.Char.{code}
use anar_core.Contracts.Text.{codes, length, all_of, is_lower, is_alnum, is_hex}

-- `[0-9a-f]{32}`
unfoldable pub is_body : List ℕ → Bool
is_body s = nat_eq (length s) 32 && all_of is_hex s

-- `[a-z0-9]{1,15}_[0-9a-f]{32}`, after `seen` characters of the first class.
unfoldable pub is_tail : ℕ → List ℕ → Bool
is_tail seen [] = false
is_tail seen (c ∷ s) =
    let rest = is_tail (seen + 1) s in
    if nat_eq c b'_' then leb 1 seen && leb seen 15 && is_body s else is_alnum c && rest

-- The regular expression `_TYPED_ID`, on the whole text.
unfoldable pub is_typed_id : List ℕ → Bool
is_typed_id [] = false
is_typed_id (c ∷ s) = is_lower c && is_tail 0 s

-- `split("_", 1)[0]`
unfoldable pub id_kind : String → String
id_kind String.[] = String.[]
id_kind (String.◌∷◌ c s) =
    let rest = id_kind s in if nat_eq (code c) b'_' then String.[] else String.◌∷◌ c rest

module _ ⦃platform : Platform⦄ where
  -- `validate_typed_id(value)`
  unfoldable pub validate_id : String → Result String
  unfolding is_typed_id is_tail is_body is_lower is_alnum is_hex
  validate_id value =
      let normalized = platform.lower (platform.strip value) in
      if is_typed_id (codes normalized) then ok normalized else err (Error.invalid_identifier value)

  -- `validate_typed_id(value, expected_prefix)`; the store discards the result.
  unfoldable pub validate_typed_id : String → String → Result String
  unfolding is_typed_id is_tail is_body id_kind is_lower is_alnum is_hex
  validate_typed_id value expected =
      let normalized = platform.lower (platform.strip value) in
      if is_typed_id (codes normalized)
      then (if id_kind normalized == expected
          then ok normalized
          else err (Error.prefix_mismatch expected (id_kind normalized)))
      else err (Error.invalid_identifier value)
