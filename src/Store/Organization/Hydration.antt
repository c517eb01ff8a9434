-- ===== src/Store/Organization/Hydration.antt =====
-- `add_hydration_reference` and `project_hydration`.
use anar_core.Base.{ℕ, ◌+◌, String, Bool, true, false, List, [], ◌∷◌, ◌&&◌, ◌||◌, ◌==◌, not, nat_eq}
use anar_core.Base.Table.{exists_where, select_where}
use anar_core.Base.Sort.{order_by, text_lt}
use anar_core.Platform.{Platform}
use anar_core.Contracts.Text.{codes}
use anar_core.Contracts.TypedId.{validate_typed_id}
use anar_core.Contracts.Symbol.{normalize_symbol}
use anar_core.Contracts.Check.{traverse, ◌>>=◌ as bind}
use anar_core.Contracts.Projection.{
  HydrationReference, HydrationProjection, checked_reference, checked_hydration,
}
use anar_core.Database.Rows.{Db, Status, is_active}
use anar_core.Database.Definitions.{HydrationEntry}
use anar_core.Database.Tx.{
  Tx, Action, Error, Result, ◌>>=◌, ◌>>◌, pure, lift, gets, require, select_one, update, insert,
  with_connection, reading, chain,
}
use anar_core.Database.Authority.{organization, tenant, hydration_reference, hydration_allowed}
use anar_core.Store.Input.{is_blank}

-- `needle in text`, on code points.
abbrev pub is_prefix : List ℕ → List ℕ → Bool
is_prefix [] text = true
is_prefix (c ∷ needle) [] = false
is_prefix (c ∷ needle) (d ∷ text) = nat_eq c d && is_prefix needle text

abbrev pub is_within : List ℕ → List ℕ → Bool
is_within needle [] = is_prefix needle []
is_within needle (d ∷ text) = is_prefix needle (d ∷ text) || is_within needle text

abbrev pub forbidden : List String
forbidden =
    "secret=" ∷ "token=" ∷ "password=" ∷ "api_key=" ∷ "apikey=" ∷ "private_key=" ∷ "credential="
    ∷ []

-- The loop over the forbidden texts.
unfoldable pub has_secret : String → Bool
has_secret lowered = exists_where (λ f. is_within (codes f) (codes lowered)) forbidden

abbrev pub organization_unavailable : Error
organization_unavailable = Error.authority "organization unavailable"

abbrev pub entry_le : HydrationEntry → HydrationEntry → Bool
entry_le a b =
    text_lt a.kind b.kind
    || a.kind == b.kind
      && (text_lt a.target_ref b.target_ref
          || a.target_ref == b.target_ref
            && (text_lt a.version b.version || a.version == b.version))

-- The SELECT of the active references, in its order.
abbrev pub active_references : String → Db → List HydrationEntry
active_references o db =
    order_by entry_le
      (select_where (λ r. r.organization_id == o && is_active r.status) db.hydration_references)

abbrev pub reference_of : HydrationEntry → HydrationReference
reference_of r = record {
  reference_id = r.hydration_reference_id;
  kind = r.kind;
  target_ref = r.target_ref;
  version = r.version;
}

module _ ⦃platform : Platform⦄ where
  -- The checked target.
  unfoldable pub hydration_target : String → String → Tx String
  unfolding has_secret
  hydration_target organization_id target_ref = do
    lift (validate_typed_id organization_id "org")
    let clean_target = platform.strip target_ref
    require (not (is_blank clean_target)) (Error.authority "hydration target reference is required")
    require (not (has_secret (platform.lower clean_target)))
        (Error.authority "hydration references must not contain secret material")
    pure clean_target

  unfoldable pub hydration_rows : String → String → String → String → String → ℕ → Tx String
  hydration_rows organization_id kind clean_target version hydration_id now = do
    canonical_kind ← lift (normalize_symbol kind)
    canonical_version ← lift (normalize_symbol version)
    insert hydration_reference hydration_allowed (record {
      hydration_reference_id = hydration_id;
      organization_id = organization_id;
      kind = canonical_kind;
      target_ref = clean_target;
      version = canonical_version;
      status = Status.active;
      created_at = now;
    })
    update organization (λ o. o.organization_id == organization_id)
        (λ o. record o { hydration_version = o.hydration_version + 1 })
    pure hydration_id

  unfoldable pub add_hydration_reference :
      String → String → String → String → String → ℕ → Action String
  unfolding hydration_target hydration_rows
  add_hydration_reference organization_id kind target_ref version hydration_id now =
      chain (reading (hydration_target organization_id target_ref)) λ clean_target.
        with_connection (hydration_rows organization_id kind clean_target version hydration_id now)

  -- The projection of an organization's references, built as contract objects.
  unfoldable pub hydration_of :
      String → String → ℕ → List HydrationEntry → Result HydrationProjection
  unfolding traverse checked_reference checked_hydration
  hydration_of organization_id tenant_id version rows =
      bind (traverse (λ (r : HydrationEntry). checked_reference (reference_of r)) rows) λ refs.
        checked_hydration (record {
          organization_id = organization_id;
          tenant_id = tenant_id;
          configuration_version = version;
          references = refs;
        })

  unfoldable pub project_hydration : String → Action HydrationProjection
  unfolding hydration_of
  project_hydration organization_id = reading (do
    lift (validate_typed_id organization_id "org")
    of ←
        select_one organization (λ o. o.organization_id == organization_id && is_active o.status)
          organization_unavailable
    within ←
        select_one tenant (λ t. t.organization_id == organization_id && is_active t.status)
          (Error.authority "tenant unavailable")
    rows ← gets (active_references organization_id)
    lift (hydration_of organization_id within.tenant_id of.hydration_version rows))
