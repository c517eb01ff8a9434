-- ===== src/Contracts/Check.antt =====
-- Chains of checks, and the checks that the contracts share: `_require_positive_integer`,
-- `canonical_json` and `VersionedDefinitionRef`.
use Prim.Native.String.{◌++◌ as text_append}
use anar_core.Base.{
  ℕ, String, Bool, true, false, none, some, List, [], ◌∷◌, ℤ, pos, negsuc, ltb, if◌then◌else◌,
}
use anar_core.Platform.{Platform}
use anar_core.Database.Tx.{Result, ok, err, Error}
use anar_core.Contracts.Json.{Json}
use anar_core.Contracts.TypedId.{validate_id}

infixl 5 ◌>>=◌ ◌>>◌
abbrev pub ◌>>=◌ : {A B : Type 0} → Result A → (A → Result B) → Result B
ok a >>= f = f a
err e >>= f = err e

abbrev pub ◌>>◌ : {A B : Type 0} → Result A → Result B → Result B
m >> k = m >>= λ _. k

-- `if not b: raise e`
abbrev pub check : Bool → Error → Result (Unit {0})
check true e = ok tt
check false e = err e

-- A tuple of checked values.
unfoldable pub traverse : {A B : Type 0} → (A → Result B) → List A → Result (List B)
traverse f [] = ok []
traverse f (x ∷ xs) = do y ← f x; ys ← traverse f xs; ok (y ∷ ys)

unfoldable pub positive_integer : ℤ → String → Result ℕ
positive_integer (negsuc n) label =
    err (Error.contract (text_append label " must be a positive integer"))
positive_integer (pos n) label =
    if ltb n 1 then err (Error.contract (text_append label " must be a positive integer")) else ok n

pub record VersionedDefinitionRef : Type 0 where
  pub definition_id : String
  pub version : ℕ

module _ ⦃platform : Platform⦄ where
  unfoldable pub canonical_json : Json → Result String
  canonical_json value = elim (platform.json_dumps value) [
    | none ↦ err (Error.contract "value is not canonical JSON")
    | some text ↦ ok text
  ]

  -- `json.loads`
  unfoldable pub loads : String → Result Json
  loads text = elim (platform.json_loads text) [ none ↦ err Error.bad_json | some value ↦ ok value ]

  -- `VersionedDefinitionRef(definition_id, version)`
  unfoldable pub versioned_definition_ref : String → ℤ → Result VersionedDefinitionRef
  unfolding validate_id positive_integer
  versioned_definition_ref definition_id version = do
    validate_id definition_id
    n ← positive_integer version "definition version"
    ok (record { definition_id = definition_id; version = n })
