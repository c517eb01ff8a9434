-- ===== src/Store/Organization/Definitions.antt =====
-- `create_organization`, `define_role`, `define_policy`, `define_entitlement`, `define_adapter`,
-- `define_operation` and `_stable_policy_definition_id`.
use Prim.Native.String.{◌++◌ as text_append, slice}
use anar_core.Base.{ℕ, String, Option, none, some, List, [], ◌∷◌, ◌==◌, not, ◌||◌, if◌then◌else◌}
use anar_core.Base.Sort.{order_by, text_lt, distinct}
use anar_core.Platform.{Platform}
use anar_core.Contracts.Json.{Items, arr, str, nil, cons}
use anar_core.Contracts.TypedId.{validate_typed_id}
use anar_core.Contracts.Symbol.{normalize_symbol}
use anar_core.Contracts.Check.{
  VersionedDefinitionRef, versioned_definition_ref, traverse, canonical_json,
}
use anar_core.Database.Status.{Status}
use anar_core.Database.Tx.{
  Tx, Action, bind_integer, Error, Result, ok, err, ◌>>=◌, ◌>>◌, pure, lift, require, insert,
  autocommit, with_connection, reading, chain, answer,
}
use anar_core.Database.Authority.{
  organization, tenant, role_definition, policy_definition, entitlement_definition,
  adapter_definition, operation_definition, organization_allowed, tenant_allowed, role_allowed,
  policy_allowed, entitlement_allowed, adapter_allowed, operation_allowed,
}
use anar_core.Store.Input.{ℤ, pos, is_blank, require_positive_integer}

-- The JSON of a list of texts.
abbrev pub texts : List String → Items
texts [] = nil
texts (s ∷ rest) = cons (str s) (texts rest)

-- `supplied or drawn`
unfoldable pub or_new : Option String → String → String
or_new none drawn = drawn
or_new (some id) drawn = if id == "" then drawn else id

-- What the checks of `define_role` leave.
pub record RoleInput : Type 0 where
  pub role_id : String
  pub version : ℕ
  pub canonical_name : String
  pub grants_json : String
  pub prohibitions_json : String

module _ ⦃platform : Platform⦄ where
  unfoldable pub create_organization : String → String → String → ℕ → Action (String × String)
  create_organization canonical_name organization_id tenant_id now =
      chain
        (reading (do
          let name = platform.strip canonical_name
          require (not (is_blank name)) (Error.authority "organization name is required")
          pure name))
        λ name. with_connection (do
          insert organization organization_allowed (record {
            organization_id = organization_id;
            canonical_name = name;
            status = Status.active;
            hydration_version = 1;
            created_at = now;
          })
          insert tenant tenant_allowed (record {
            tenant_id = tenant_id;
            organization_id = organization_id;
            status = Status.active;
            created_at = now;
          })
          pure (organization_id, tenant_id))

  -- `canonical_json(sorted({normalize_symbol(item) for item in items}))`
  unfoldable pub canonical_symbols : List String → Result (List String)
  unfolding traverse distinct order_by
  canonical_symbols items = elim (traverse normalize_symbol items) [
    | err e ↦ err e
    | ok symbols ↦ ok (order_by (λ s t. text_lt s t || s == t) (distinct symbols))
  ]

  unfoldable pub role_input :
      String → List String → List String → Option String → ℤ → String → Tx RoleInput
  unfolding or_new canonical_symbols
  role_input symbolic_name grants prohibitions role_definition_id version drawn = do
    let role_id = or_new role_definition_id drawn
    lift (validate_typed_id role_id "rol")
    n ← lift (require_positive_integer version "role version" none)
    name ← lift (normalize_symbol symbolic_name)
    granted ← lift (canonical_symbols grants)
    prohibited ← lift (canonical_symbols prohibitions)
    grants_json ← lift (canonical_json (arr (texts granted)))
    prohibitions_json ← lift (canonical_json (arr (texts prohibited)))
    pure (record {
      role_id = role_id;
      version = n;
      canonical_name = name;
      grants_json = grants_json;
      prohibitions_json = prohibitions_json;
    })

  unfoldable pub define_role :
      String
      → List String
      → List String
      → Option String
      → ℤ
      → String
      → ℕ
      → Action VersionedDefinitionRef
  define_role symbolic_name grants prohibitions role_definition_id version drawn now =
      chain
        (reading (role_input symbolic_name grants prohibitions role_definition_id version drawn))
        λ input.
          chain
            (autocommit (
              bind_integer input.version
              >> insert role_definition role_allowed (record {
                role_definition_id = input.role_id;
                version = input.version;
                symbolic_name = input.canonical_name;
                status = Status.active;
                grants_json = input.grants_json;
                prohibitions_json = input.prohibitions_json;
                created_at = now;
              })))
            λ _. answer (versioned_definition_ref input.role_id (pos input.version))

  unfoldable pub stable_policy_definition_id : String → Result String
  stable_policy_definition_id symbolic_name = elim (normalize_symbol symbolic_name) [
    | err e ↦ err e
    | ok name ↦ ok (text_append "pol_" (slice (platform.sha256 name) 0 32))
  ]

  -- The canonical name, the version and the identifier.
  unfoldable pub policy_input : String → ℤ → Tx (String × ℕ × String)
  unfolding stable_policy_definition_id
  policy_input symbolic_name version = do
    name ← lift (normalize_symbol symbolic_name)
    n ← lift (require_positive_integer version "policy definition version" none)
    id ← lift (stable_policy_definition_id name)
    pure (name, n, id)

  unfoldable pub define_policy : String → ℤ → ℕ → Action VersionedDefinitionRef
  define_policy symbolic_name version now =
      chain (reading (policy_input symbolic_name version)) λ input.
        chain
          (autocommit (
            bind_integer input.1
            >> insert policy_definition policy_allowed (record {
              policy_definition_id = input.2;
              version = input.1;
              symbolic_name = input.0;
              status = Status.active;
              created_at = now;
            })))
          λ _. answer (versioned_definition_ref input.2 (pos input.1))

  unfoldable pub entitlement_input : String → Option String → ℤ → String → Tx (String × ℕ × String)
  unfolding or_new
  entitlement_input symbolic_name entitlement_definition_id version drawn = do
    let entitlement_id = or_new entitlement_definition_id drawn
    lift (validate_typed_id entitlement_id "ent")
    n ← lift (require_positive_integer version "entitlement version" none)
    name ← lift (normalize_symbol symbolic_name)
    pure (entitlement_id, n, name)

  unfoldable pub define_entitlement :
      String → Option String → ℤ → String → ℕ → Action VersionedDefinitionRef
  define_entitlement symbolic_name entitlement_definition_id version drawn now =
      chain (reading (entitlement_input symbolic_name entitlement_definition_id version drawn))
        λ input.
          chain
            (autocommit (
              bind_integer input.1
              >> insert entitlement_definition entitlement_allowed (record {
                entitlement_definition_id = input.0;
                version = input.1;
                symbolic_name = input.2;
                status = Status.active;
                created_at = now;
              })))
            λ _. answer (versioned_definition_ref input.0 (pos input.1))

  unfoldable pub define_adapter : String → String → ℕ → Action String
  define_adapter symbolic_name adapter_id now =
      chain (reading (lift (normalize_symbol symbolic_name))) λ name. autocommit (do
        insert adapter_definition adapter_allowed (record {
          adapter_definition_id = adapter_id;
          symbolic_name = name;
          status = Status.active;
          created_at = now;
        })
        pure adapter_id)

  unfoldable pub define_operation : String → String → String → ℕ → Action String
  define_operation adapter_definition_id symbolic_name operation_id now =
      chain
        (reading (do
          lift (validate_typed_id adapter_definition_id "adp")
          lift (normalize_symbol symbolic_name)))
        λ name. autocommit (do
          insert operation_definition operation_allowed (record {
            operation_definition_id = operation_id;
            adapter_definition_id = adapter_definition_id;
            symbolic_name = name;
            status = Status.active;
            created_at = now;
          })
          pure operation_id)
