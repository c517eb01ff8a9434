-- ===== src/Store/Sound/Told.antt =====
-- What a projected subject says of the rows, for the last part of `project_authorized_subject`.
use mathlib.Core.Path.{subst}
use anar_core.Base.{true, map, pos, ◌≡◌, refl, sym, ap, ◌∙◌}
use anar_core.Base.Table.{All}
use anar_core.Platform.{Platform}
use anar_core.Database.Definitions.{RoleAssignment, EntitlementGrant, GrantBinding}
use anar_core.Database.Rows.{Db, Session, Membership}
use anar_core.Database.Tx.{Result, ok, statements}
use anar_core.Database.Ensures.{Ensures, after_lift}
use anar_core.Contracts.Check.{VersionedDefinitionRef, versioned_definition_ref}
use anar_core.Contracts.Binding.{checked_binding}
use anar_core.Contracts.Projection.{AuthorizedSubject, checked_subject}
use anar_core.Store.Subject.Grants.{
  Grants, binding_of, binding_contracts, role_refs, entitlement_refs,
}
use anar_core.Store.Subject.Project.{subject_of}
use anar_core.Store.Sound.Accepted.{
  traverse-values, traverse-returns, checked_subject-Returns, checked_binding-Returns,
  versioned_definition_ref-Returns,
}
use anar_core.Store.Sound.Facts.{lastly_lift}

module _ ⦃platform : Platform⦄ where
  -- The subject says what the session, its membership and the grants say, and each part of it is
  -- accepted by the checks of its contract.
  pub record Describes (s : Session) (m : Membership) (g : Grants) (subject : AuthorizedSubject)
      : Type 0 where
    pub identity_is : subject.identity_id ≡ s.identity_id
    pub account_is : subject.account_id ≡ s.account_id
    pub organization_is : subject.organization_id ≡ s.organization_id
    pub tenant_is : subject.tenant_id ≡ s.tenant_id
    pub session_is : subject.session_id ≡ s.session_id
    pub expires_with : subject.expires_at ≡ s.expires_at
    pub authorization_is : subject.authorization_version ≡ m.authorization_version
    pub entitlement_is : subject.entitlement_version ≡ m.entitlement_version
    pub roles_are :
        subject.role_definitions
        ≡ map
            (λ (a : RoleAssignment). record {
              definition_id = a.role_definition_id;
              version = a.role_version;
            })
            g.roles
    pub roles_valid :
        All
          (λ r. versioned_definition_ref r.definition_id (pos r.version) ≡ ok r)
          subject.role_definitions
    pub entitlements_are :
        subject.entitlement_definitions
        ≡ map
            (λ (e : EntitlementGrant). record {
              definition_id = e.entitlement_definition_id;
              version = e.entitlement_version;
            })
            g.entitlements
    pub entitlements_valid :
        All
          (λ r. versioned_definition_ref r.definition_id (pos r.version) ≡ ok r)
          subject.entitlement_definitions
    pub bindings_are :
        subject.adapter_bindings
        ≡ map
            (λ (b : GrantBinding). record {
              binding_id = b.binding_id;
              identity_id = s.identity_id;
              account_id = s.account_id;
              organization_id = s.organization_id;
              tenant_id = s.tenant_id;
              session_id = s.session_id;
              adapter_definition_id = b.adapter_definition_id;
              operation_definition_id = b.operation_definition_id;
              entitlement_definition_id = b.entitlement_definition_id;
              entitlement_definition_version = b.entitlement_definition_version;
              resource_scope_json = b.resource_scope_json;
              authorization_version = m.authorization_version;
              entitlement_version = m.entitlement_version;
              policy_definition_id = b.policy_definition_id;
              policy_definition_version = b.policy_definition_version;
              policy_version = b.policy_version;
              status = b.status;
            })
            g.bindings
    pub bindings_valid : All (λ b. checked_binding b ≡ ok b) subject.adapter_bindings
    pub is_active : subject.active ≡ true
    pub well_formed : checked_subject subject ≡ ok subject

  -- The references of roles and entitlements, read from rows.
  abbrev checked_ref : VersionedDefinitionRef → Result VersionedDefinitionRef
  checked_ref r = versioned_definition_ref r.definition_id (pos r.version)

  pub subject_of-Describes :
      (s : Session) (m : Membership) (g : Grants) (db : Db)
      → Ensures (subject_of s m g) db (λ subject after. Describes s m g subject × (after ≡ db))
  unfolding subject_of binding_contracts role_refs entitlement_refs
  subject_of-Describes s m g db = after_lift _ λ bindings bindings_are.
      after_lift _ λ roles roles_are. after_lift _ λ entitlements entitlements_are.
        lastly_lift _ λ subject h.
          let same = (checked_subject-Returns _).at subject h in
          let b =
            traverse-values checked_binding (binding_of s m) g.bindings bindings
              checked_binding-Returns bindings_are in
          let r =
            traverse-values checked_ref _ g.roles roles versioned_definition_ref-Returns
              roles_are in
          let e =
            traverse-values checked_ref _ g.entitlements entitlements
              versioned_definition_ref-Returns entitlements_are in
          let bindings_same = ap (λ (x : AuthorizedSubject). x.adapter_bindings) same in
          let roles_same = ap (λ (x : AuthorizedSubject). x.role_definitions) same in
          let entitlements_same = ap (λ (x : AuthorizedSubject). x.entitlement_definitions) same in
          (
            record {
              is_active = ap (λ (x : AuthorizedSubject). x.active) same;
              well_formed = ap checked_subject same ∙ h;
              identity_is = ap (λ (x : AuthorizedSubject). x.identity_id) same;
              account_is = ap (λ (x : AuthorizedSubject). x.account_id) same;
              organization_is = ap (λ (x : AuthorizedSubject). x.organization_id) same;
              tenant_is = ap (λ (x : AuthorizedSubject). x.tenant_id) same;
              session_is = ap (λ (x : AuthorizedSubject). x.session_id) same;
              expires_with = ap (λ (x : AuthorizedSubject). x.expires_at) same;
              authorization_is = ap (λ (x : AuthorizedSubject). x.authorization_version) same;
              entitlement_is = ap (λ (x : AuthorizedSubject). x.entitlement_version) same;
              roles_are = roles_same ∙ r.0;
              roles_valid = subst (All _) (sym roles_same) r.1;
              entitlements_are = entitlements_same ∙ e.0;
              entitlements_valid = subst (All _) (sym entitlements_same) e.1;
              bindings_are = bindings_same ∙ b.0;
              bindings_valid = subst (All _) (sym bindings_same) b.1;
            },
            refl,
          )

  pub subject_of_returns :
      (s : Session) (m : Membership) (g : Grants) (db : Db) (subject : AuthorizedSubject)
      → Describes s m g subject
      → subject_of s m g db ≡ (ok subject, db)
  unfolding subject_of statements binding_contracts role_refs entitlement_refs
  subject_of_returns s m g db subject d =
      rw
        (traverse-returns checked_binding (binding_of s m) g.bindings
          (subst (All _) d.bindings_are d.bindings_valid))
        (rw (traverse-returns checked_ref _ g.roles (subst (All _) d.roles_are d.roles_valid)) (
          rw
            (traverse-returns checked_ref _ g.entitlements
              (subst (All _) d.entitlements_are d.entitlements_valid))
            (rw (← d.bindings_are) (
              rw (← d.roles_are) (
                rw (← d.entitlements_are) (
                  rw (← d.identity_is) (
                    rw (← d.account_is) (
                      rw (← d.organization_is) (
                        rw (← d.tenant_is) (
                          rw (← d.session_is) (
                            rw (← d.expires_with) (
                              rw (← d.authorization_is) (
                                rw (← d.entitlement_is)
                                  (rw (← d.is_active) (rw d.well_formed refl)))))))))))))))
