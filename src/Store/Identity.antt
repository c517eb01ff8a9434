-- ===== src/Store/Identity.antt =====
-- `change_display_name`, `create_identity` and `create_personal_account`.
use anar_core.Base.{ℕ, String, ◌&&◌, ◌==◌, not, nat_eq}
use anar_core.Platform.{Platform}
use anar_core.Contracts.TypedId.{validate_typed_id}
use anar_core.Contracts.Symbol.{normalize_symbol}
use anar_core.Database.Rows.{Status, is_active}
use anar_core.Database.Tx.{
  Action, Error, ◌>>=◌, ◌>>◌, pure, lift, require, update, insert, autocommit, with_connection,
  reading, chain,
}
use anar_core.Database.Schema.{identity, personal_account, identity_allowed, account_allowed}
use anar_core.Store.Input.{is_blank}
use anar_core.Store.Session.{load_account_session}

abbrev pub name_required : Error
name_required = Error.authority "display name is required"

module _ ⦃platform : Platform⦄ where
  unfoldable pub change_display_name : String → String → String → ℕ → Action (Unit {0})
  change_display_name bearer account_session_id display_name checked_at =
      chain {A = String × String}
        (reading (do
          account_session ← load_account_session bearer account_session_id checked_at
          let name = platform.strip display_name
          require (not (is_blank name)) name_required
          pure (account_session.identity_id, name)))
        λ checked. with_connection (do
          updated ←
              update identity (λ i. i.identity_id == checked.0 && is_active i.status)
                (λ i. record i { display_name = checked.1 })
          require (nat_eq updated 1) (Error.authority "active identity unavailable"))

  unfoldable pub create_identity : String → String → String → ℕ → Action String
  create_identity display_name identity_kind identity_id now =
      chain {A = String × String}
        (reading (do
          kind ← lift (normalize_symbol identity_kind)
          let name = platform.strip display_name
          require (not (is_blank name)) name_required
          pure (kind, name)))
        λ checked. autocommit (do
          insert identity identity_allowed (record {
            identity_id = identity_id;
            identity_kind = checked.0;
            display_name = checked.1;
            status = Status.active;
            created_at = now;
          })
          pure identity_id)

  unfoldable pub create_personal_account : String → String → ℕ → Action String
  create_personal_account identity_id account_id now =
      chain (reading (lift (validate_typed_id identity_id "idn"))) λ _. autocommit (do
        insert personal_account account_allowed (record {
          account_id = account_id;
          identity_id = identity_id;
          status = Status.active;
          created_at = now;
        })
        pure account_id)
