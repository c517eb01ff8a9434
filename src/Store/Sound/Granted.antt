-- ===== src/Store/Sound/Granted.antt =====
-- The rows that the grants of a membership are read from, for `project_authorized_subject`.
use anar_core.Base.{
  ℕ, String, Bool, true, false, Option, none, some, List, [], ◌∷◌, ◌≡◌, refl, sym, ◌∙◌, ◌==◌, ◌&&◌,
  ◌||◌, eq_iff, nat_eq, leb, &&-parts,
}
use anar_core.Base.Table.{find_where, exists_where, select_where, all_where, All}
use anar_core.Base.Sort.{order_by, text_lt}
use anar_core.Database.Definitions.{
  RoleDefinition, PolicyDefinition, EntitlementDefinition, AdapterDefinition, OperationDefinition,
  RoleAssignment, GrantBinding,
}
use anar_core.Database.Rows.{Db, is_active}
use anar_core.Database.Tx.{ok, statements}
use anar_core.Database.Ensures.{Ensures, returned, after_require, after_gets}
use anar_core.Store.Subject.Grants.{
  Grants, load_grants, role_active, entitlement_active, policy_active, adapter_active,
  operation_active, binding_active,
}

All-all_where :
    {A : Type 0} (p : A → Bool) (P : A → Type 0) (xs : List A)
    → ((x : A) → p x ≡ true → P x)
    → all_where p xs ≡ true
    → All P xs
All-all_where p P [] each h = tt
All-all_where p P (x ∷ xs) each h =
    let (first, rest) = &&-parts (p x) (all_where p xs) h in
    (each x first, All-all_where p P xs each rest)

all_where-All :
    {A : Type 0} (p : A → Bool) (P : A → Type 0) (xs : List A)
    → ((x : A) → P x → p x ≡ true)
    → All P xs
    → all_where p xs ≡ true
all_where-All p P [] each h = refl
all_where-All p P (x ∷ xs) each h = rw (each x h.0) (all_where-All p P xs each h.1)

-- The row that a LEFT JOIN has found, and its test.
joined :
    {D : Type 0} (o : Option D) (test : D → Bool)
    → elim o [ none ↦ false | some d ↦ test d ] ≡ true
    → (d : D) × (o ≡ some d) × (test d ≡ true)
joined none test h = cc
joined (some d) test h = (d, refl, h)

-- The definition that an assignment of a role names is there and active.
pub record IsActiveRole (db : Db) (a : RoleAssignment) : Type 0 where
  pub definition : RoleDefinition
  pub found :
      find_where
        (λ d. d.role_definition_id == a.role_definition_id && nat_eq d.version a.role_version)
        db.roles
      ≡ some definition
  pub active : is_active definition.status ≡ true

-- The entitlement of this identifier and version is there and active.
pub record IsActiveEntitlement (db : Db) (id : String) (version : ℕ) : Type 0 where
  pub definition : EntitlementDefinition
  pub found :
      find_where
        (λ d. d.entitlement_definition_id == id && nat_eq d.version version)
        db.entitlements
      ≡ some definition
  pub active : is_active definition.status ≡ true

-- All that a binding names is there and active: its adapter, an operation of that adapter, its
-- entitlement, its policy, and a grant of the entitlement to the same membership.
pub record IsActiveBinding (db : Db) (b : GrantBinding) : Type 0 where
  pub adapter : AdapterDefinition
  pub adapter_found :
      find_where (λ d. d.adapter_definition_id == b.adapter_definition_id) db.adapters
      ≡ some adapter
  pub adapter_active : is_active adapter.status ≡ true
  pub operation : OperationDefinition
  pub operation_found :
      find_where (λ d. d.operation_definition_id == b.operation_definition_id) db.operations
      ≡ some operation
  pub operation_active : is_active operation.status ≡ true
  pub of_adapter : operation.adapter_definition_id ≡ b.adapter_definition_id
  pub entitlement :
      IsActiveEntitlement db b.entitlement_definition_id b.entitlement_definition_version
  pub policy : PolicyDefinition
  pub policy_found :
      find_where
        (λ d.
          d.policy_definition_id == b.policy_definition_id
          && nat_eq d.version b.policy_definition_version)
        db.policies
      ≡ some policy
  pub policy_active : is_active policy.status ≡ true
  pub is_granted :
      exists_where
        (λ g.
          g.membership_id == b.membership_id
          && g.entitlement_definition_id == b.entitlement_definition_id
          && nat_eq g.entitlement_version b.entitlement_definition_version
          && is_active g.status)
        db.entitlement_grants
      ≡ true

-- The grants are all the active rows of the membership, in the order of their identifiers and
-- versions, and all that they refer to is active.
pub record IsGranting (m : String) (db : Db) (g : Grants) : Type 0 where
  pub roles_are :
      g.roles
      ≡ order_by
          (λ a b.
            text_lt a.role_definition_id b.role_definition_id
            || a.role_definition_id == b.role_definition_id && leb a.role_version b.role_version)
          (select_where (λ a. a.membership_id == m && is_active a.status) db.role_assignments)
  pub roles_active : All (IsActiveRole db) g.roles
  pub entitlements_are :
      g.entitlements
      ≡ order_by
          (λ a b.
            text_lt a.entitlement_definition_id b.entitlement_definition_id
            || a.entitlement_definition_id == b.entitlement_definition_id
              && leb a.entitlement_version b.entitlement_version)
          (select_where (λ a. a.membership_id == m && is_active a.status) db.entitlement_grants)
  pub entitlements_active :
      All
        (λ e. IsActiveEntitlement db e.entitlement_definition_id e.entitlement_version)
        g.entitlements
  pub bindings_are :
      g.bindings
      ≡ order_by
          (λ a b. text_lt a.binding_id b.binding_id || a.binding_id == b.binding_id)
          (select_where (λ b. b.membership_id == m && is_active b.status) db.bindings)
  pub bindings_active : All (IsActiveBinding db) g.bindings

role_active-IsActiveRole :
    (db : Db) (a : RoleAssignment) → role_active db a ≡ true → IsActiveRole db a
role_active-IsActiveRole db a h =
    let (d, found, active) = joined _ (λ (d : RoleDefinition). is_active d.status) h in
    record { definition = d; found = found; active = active }

IsActiveRole-role_active :
    (db : Db) (a : RoleAssignment) → IsActiveRole db a → role_active db a ≡ true
IsActiveRole-role_active db a i = rw (i.found, role_active) i.active

entitlement_active-IsActiveEntitlement :
    (db : Db) (id : String) (version : ℕ)
    → entitlement_active db id version ≡ true
    → IsActiveEntitlement db id version
entitlement_active-IsActiveEntitlement db id version h =
    let (d, found, active) = joined _ (λ (d : EntitlementDefinition). is_active d.status) h in
    record { definition = d; found = found; active = active }

IsActiveEntitlement-entitlement_active :
    (db : Db) (id : String) (version : ℕ)
    → IsActiveEntitlement db id version
    → entitlement_active db id version ≡ true
IsActiveEntitlement-entitlement_active db id version i = rw (i.found, entitlement_active) i.active

binding_active-IsActiveBinding :
    (db : Db) (b : GrantBinding) → binding_active db b ≡ true → IsActiveBinding db b
binding_active-IsActiveBinding db b h =
    let (h4, granted) = &&-parts _ _ h in
    let (h3, policy_ok) =
      &&-parts _ (policy_active db b.policy_definition_id b.policy_definition_version) h4 in
    let (h2, entitlement_ok) =
      &&-parts _
        (entitlement_active db b.entitlement_definition_id b.entitlement_definition_version) h3 in
    let (adapter_ok, operation_ok) =
      &&-parts (adapter_active db b.adapter_definition_id)
        (operation_active db b.operation_definition_id b.adapter_definition_id) h2 in
    let a = joined _ (λ (d : AdapterDefinition). is_active d.status) adapter_ok in
    let o =
      joined _
        (λ (d : OperationDefinition).
          is_active d.status && d.adapter_definition_id == b.adapter_definition_id)
        operation_ok in
    let o_is = &&-parts (is_active o.0.status) _ o.2 in
    let p = joined _ (λ (d : PolicyDefinition). is_active d.status) policy_ok in
    record {
      adapter = a.0;
      adapter_found = a.1;
      adapter_active = a.2;
      operation = o.0;
      operation_found = o.1;
      operation_active = o_is.0;
      of_adapter = (eq_iff _ _).0 o_is.1;
      entitlement = entitlement_active-IsActiveEntitlement db _ _ entitlement_ok;
      policy = p.0;
      policy_found = p.1;
      policy_active = p.2;
      is_granted = granted;
    }

IsActiveBinding-binding_active :
    (db : Db) (b : GrantBinding) → IsActiveBinding db b → binding_active db b ≡ true
IsActiveBinding-binding_active db b i =
    rw (i.adapter_found, adapter_active)
      (rw i.adapter_active (
        rw (i.operation_found, operation_active)
          (rw i.operation_active (
            rw ((eq_iff _ _).1 i.of_adapter) (
              rw (IsActiveEntitlement-entitlement_active db _ _ i.entitlement)
                (rw (i.policy_found, policy_active) (rw i.policy_active i.is_granted)))))))

pub load_grants-IsGranting :
    (m : String) (db : Db)
    → Ensures (load_grants m) db (λ g after. IsGranting m db g × (after ≡ db))
unfolding load_grants
load_grants-IsGranting m db = after_gets _ λ roles roles_are. after_gets _ λ b b_is.
    after_require _ _ λ roles_ok. after_gets _ λ entitlements entitlements_are.
      after_gets _ λ c c_is. after_require _ _ λ entitlements_ok.
        after_gets _ λ bindings bindings_are. after_gets _ λ d d_is.
          after_require _ _ λ bindings_ok. returned _ (
            record {
              roles_are = roles_are;
              roles_active =
                  All-all_where _ _ roles (role_active-IsActiveRole db) (sym b_is ∙ roles_ok);
              entitlements_are = entitlements_are;
              entitlements_active =
                  All-all_where _ _ entitlements
                    (λ e. entitlement_active-IsActiveEntitlement db _ _)
                    (sym c_is ∙ entitlements_ok);
              bindings_are = bindings_are;
              bindings_active =
                  All-all_where _ _ bindings (binding_active-IsActiveBinding db)
                    (sym d_is ∙ bindings_ok);
            },
            refl,
          )

pub load_grants_returns :
    (m : String) (db : Db) (g : Grants) → IsGranting m db g → load_grants m db ≡ (ok g, db)
unfolding load_grants statements
load_grants_returns m db g i = rw (← i.roles_are) (
    rw (all_where-All (role_active db) _ g.roles (IsActiveRole-role_active db) i.roles_active) (
      rw (← i.entitlements_are) (
        rw
          (all_where-All
            (λ e. entitlement_active db e.entitlement_definition_id e.entitlement_version) _
            g.entitlements (λ e. IsActiveEntitlement-entitlement_active db _ _)
            i.entitlements_active)
          (rw (← i.bindings_are) (
            rw
              (all_where-All (binding_active db) _ g.bindings (IsActiveBinding-binding_active db)
                i.bindings_active)
              refl)))))
