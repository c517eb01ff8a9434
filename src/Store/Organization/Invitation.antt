-- ===== src/Store/Organization/Invitation.antt =====
-- `issue_invitation` and `redeem_invitation`.
use anar_core.Base.{
  ℕ, suc, ◌+◌, String, Option, none, some, List, [], ◌∷◌, ◌&&◌, ◌==◌, not, ltb, if◌then◌else◌,
}
use anar_core.Base.Table.{exists_where, all_where}
use anar_core.Platform.{Platform, seconds}
use anar_core.Contracts.Json.{Json, Items, Fields, arr, obj, str, num, nil, cons, field, end}
use anar_core.Contracts.TypedId.{validate_typed_id}
use anar_core.Contracts.Check.{VersionedDefinitionRef, canonical_json, loads}
use anar_core.Database.Status.{Status, is_active}
use anar_core.Database.Definitions.{Invitation, spend}
use anar_core.Database.Rows.{is_current}
use anar_core.Database.Tx.{
  Tx, Action, bind_integer, Error, Result, ok, err, ◌>>=◌, ◌>>◌, pure, lift, gets, require,
  select_one, update, insert, autocommit, immediate, reading, chain,
}
use anar_core.Database.Authority.{
  membership, invitation, role_assignment, entitlement_grant, is_role, is_entitlement,
  membership_allowed, assignment_allowed, grant_allowed, invitation_allowed,
}
use anar_core.Store.Input.{ℤ, pos, require_positive_integer}

abbrev pub invitation_unavailable : Error
invitation_unavailable = Error.authority "invitation unavailable"

-- `[{"definitionId": …, "version": …} for item in refs]`
abbrev pub ref_documents : List VersionedDefinitionRef → Items
ref_documents [] = nil
ref_documents (r ∷ rest) =
    cons
      (obj (field "definitionId" (str r.definition_id) (field "version" (num (pos r.version)) end)))
      (ref_documents rest)

abbrev pub lookup_field : String → Fields → Option Json
lookup_field name end = none
lookup_field name (field n v rest) = if n == name then some v else lookup_field name rest

abbrev pub ref_of_parts : Option Json → Option Json → Result VersionedDefinitionRef
ref_of_parts (some (str id)) (some (num (pos version))) =
    ok (record { definition_id = id; version = version })
ref_of_parts _ _ = err Error.bad_document

-- `item["definitionId"]` and `item["version"]`
abbrev pub ref_of_document : Json → Result VersionedDefinitionRef
ref_of_document (obj fields) =
    ref_of_parts (lookup_field "definitionId" fields) (lookup_field "version" fields)
ref_of_document _ = err Error.bad_document

abbrev pub keys_of : Fields → Items
keys_of end = nil
keys_of (field n v rest) = cons (str n) (keys_of rest)

abbrev pub characters_of : String → Items
characters_of String.[] = nil
characters_of (String.◌∷◌ c rest) = cons (str (String.◌∷◌ c String.[])) (characters_of rest)

-- What a `for` goes over: a list, the keys of an object, or the characters of a text.
abbrev pub items_of : Json → Result Items
items_of (arr items) = ok items
items_of (obj fields) = ok (keys_of fields)
items_of (str text) = ok (characters_of text)
items_of _ = err Error.bad_document

-- The identifiers that one redemption draws: the membership's, and one for each role and entitlement.
pub record RedeemDraws : Type 0 where
  pub membership_id : String
  pub role_assignment_id : ℕ → String
  pub entitlement_grant_id : ℕ → String

pub record InvitationDraws : Type 0 where
  pub invitation_id : String
  pub code : String

-- What the checks of `issue_invitation` leave.
pub record InvitationInput : Type 0 where
  pub ttl : ℕ
  pub role_refs_json : String
  pub entitlement_refs_json : String

unfoldable pub assign_roles : Items → String → (ℕ → String) → ℕ → ℕ → Tx (Unit {0})
assign_roles nil membership_id draws i now = pure tt
assign_roles (cons item rest) membership_id draws i now =
    (do
      ref ← lift (ref_of_document item)
      bind_integer ref.version
      insert role_assignment assignment_allowed (record {
        role_assignment_id = draws i;
        membership_id = membership_id;
        role_definition_id = ref.definition_id;
        role_version = ref.version;
        status = Status.active;
        created_at = now;
      }))
    >> assign_roles rest membership_id draws (suc i) now

unfoldable pub grant_entitlements : Items → String → (ℕ → String) → ℕ → ℕ → Tx (Unit {0})
grant_entitlements nil membership_id draws i now = pure tt
grant_entitlements (cons item rest) membership_id draws i now =
    (do
      ref ← lift (ref_of_document item)
      bind_integer ref.version
      insert entitlement_grant grant_allowed (record {
        entitlement_grant_id = draws i;
        membership_id = membership_id;
        entitlement_definition_id = ref.definition_id;
        entitlement_version = ref.version;
        status = Status.active;
        created_at = now;
      }))
    >> grant_entitlements rest membership_id draws (suc i) now

module _ ⦃platform : Platform⦄ where
  unfoldable pub invitation_input :
      String
      → String
      → List VersionedDefinitionRef
      → List VersionedDefinitionRef
      → ℤ
      → Tx InvitationInput
  invitation_input organization_id tenant_id role_refs entitlement_refs ttl_seconds = do
    lift (validate_typed_id organization_id "org")
    lift (validate_typed_id tenant_id "tnt")
    ttl ← lift (require_positive_integer ttl_seconds "invitation TTL" none)
    scoped ← gets (λ db.
        exists_where (λ o. o.organization_id == organization_id && is_active o.status)
          db.organizations
        && exists_where
            (λ t.
              t.organization_id == organization_id
              && t.tenant_id == tenant_id
              && is_active t.status)
            db.tenants)
    require scoped (Error.authority "active organization tenant scope required")
    roles_active ← gets (λ db.
        all_where
          (λ (r : VersionedDefinitionRef).
            exists_where (λ d. is_role r.definition_id r.version d && is_active d.status) db.roles)
          role_refs)
    require roles_active (Error.authority "active role definition required")
    entitlements_active ← gets (λ db.
        all_where
          (λ (r : VersionedDefinitionRef).
            exists_where (λ d. is_entitlement r.definition_id r.version d && is_active d.status)
              db.entitlements)
          entitlement_refs)
    require entitlements_active (Error.authority "active entitlement definition required")
    role_refs_json ← lift (canonical_json (arr (ref_documents role_refs)))
    entitlement_refs_json ← lift (canonical_json (arr (ref_documents entitlement_refs)))
    pure (record {
      ttl = ttl;
      role_refs_json = role_refs_json;
      entitlement_refs_json = entitlement_refs_json;
    })

  -- The clock is read once for the deadline and once for `created_at`.
  unfoldable pub issue_invitation :
      String
      → String
      → List VersionedDefinitionRef
      → List VersionedDefinitionRef
      → ℤ
      → InvitationDraws
      → ℕ
      → ℕ
      → Action (String × String)
  unfolding invitation_input
  issue_invitation organization_id tenant_id role_refs entitlement_refs ttl_seconds draws now
        created_at =
      chain
        (reading
          (invitation_input organization_id tenant_id role_refs entitlement_refs ttl_seconds))
        λ input. autocommit (do
          insert invitation invitation_allowed (record {
            invitation_id = draws.invitation_id;
            code_sha256 = platform.sha256 draws.code;
            organization_id = organization_id;
            tenant_id = tenant_id;
            role_refs_json = input.role_refs_json;
            entitlement_refs_json = input.entitlement_refs_json;
            expires_at = now + seconds input.ttl;
            maximum_uses = 1;
            consumed_uses = 0;
            status = Status.active;
            created_at = created_at;
          })
          pure (draws.invitation_id, draws.code))

  -- The invitation behind a code, if it can be redeemed.
  unfoldable pub usable_invitation : String → ℕ → Tx Invitation
  usable_invitation digest now = do
    row ← select_one invitation (λ r. r.code_sha256 == digest) invitation_unavailable
    require (is_active row.status) invitation_unavailable
    require (ltb now row.expires_at) (Error.authority "invitation expired")
    require (ltb row.consumed_uses row.maximum_uses) (Error.authority "invitation consumed")
    pure row

  unfoldable pub redeem_rows : String → String → RedeemDraws → ℕ → Tx String
  unfolding usable_invitation
  redeem_rows digest identity_id draws now = do
    row ← usable_invitation digest now
    existing ← gets (λ db.
        exists_where
          (λ m.
            m.identity_id == identity_id
            && m.organization_id == row.organization_id
            && is_current m)
          db.memberships)
    require (not existing) (Error.authority "current membership already exists")
    insert membership membership_allowed (record {
      membership_id = draws.membership_id;
      identity_id = identity_id;
      organization_id = row.organization_id;
      status = Status.active;
      authorization_version = 1;
      entitlement_version = 1;
      created_at = now;
    })
    role_json ← lift (loads row.role_refs_json)
    role_items ← lift (items_of role_json)
    assign_roles role_items draws.membership_id draws.role_assignment_id 0 now
    entitlement_json ← lift (loads row.entitlement_refs_json)
    entitlement_items ← lift (items_of entitlement_json)
    grant_entitlements entitlement_items draws.membership_id draws.entitlement_grant_id 0 now
    update invitation
        (λ r.
          r.invitation_id == row.invitation_id
          && is_active r.status
          && ltb r.consumed_uses r.maximum_uses)
        spend
    pure draws.membership_id

  unfoldable pub redeem_invitation : String → String → RedeemDraws → ℕ → Action String
  unfolding redeem_rows
  redeem_invitation code identity_id draws now =
      chain (reading (lift (validate_typed_id identity_id "idn")))
        λ _. immediate (redeem_rows (platform.sha256 code) identity_id draws now)
