-- ===== src/Examples/RotationRuns.antt =====
-- The rotation of recovery codes, and versions beyond 64 bits, run by computation.
use anar_core.Base.{Bool, true, none, some, refl, ◌≡◌, [], ◌∷◌}
use anar_core.Database.Rows.{Db}
use anar_core.Database.Schema.{recovery_code_allowed}
use anar_core.Database.Tx.{ok, err, at_rest, Error}
use anar_core.Examples.World.{toy, world, session_id, computing, challenge, grant}
use anar_core.Store.Input.{pos}
use anar_core.Examples.Office.{computing_office}
use anar_core.Database.Authority.{policy_allowed}
use anar_core.Store.Organization.Definitions.{
  define_policy, policy_input, stable_policy_definition_id,
}
use anar_core.Store.Mfa.Recovery.{
  consume_rotation_receipt, insert_codes, issue_checks, issue_rows, issue_mfa_recovery_codes,
}

-- An account with a recovery code and a receipt for the rotation.
abbrev coded : Db
coded = record world {
  recovery_codes = challenge "mrc_1" "old code" (record {}) ∷ [];
  step_ups = challenge "mst_3" "rotate" (grant "mfa.recovery.rotate") ∷ [];
}

unfoldable computing_rotation : Bool
unfolding computing recovery_code_allowed consume_rotation_receipt insert_codes issue_checks
    issue_rows issue_mfa_recovery_codes
computing_rotation = true

rotates :
    (issue_mfa_recovery_codes "bearer" session_id
      (pos 1)
      (some "rotate")
      (λ n. record { recovery_code_id = "mrc_2"; code = "new code" } ∷ [])
      20
      21
      (at_rest coded)).0
    ≡ ok ("new code" ∷ [])
unfolding computing_rotation
rotates = refl

rotation_needs_receipt :
    (issue_mfa_recovery_codes "bearer" session_id
      (pos 1)
      none
      (λ n. record { recovery_code_id = "mrc_2"; code = "new code" } ∷ [])
      20
      21
      (at_rest coded)).0
    ≡ err (Error.authority "MFA step-up required for recovery code rotation")
unfolding computing_rotation
rotation_needs_receipt = refl

-- A version beyond 64 bits leaves the transaction that Python has opened.
version_overflows :
    define_policy "a.policy" (pos 9223372036854775808) 5 (at_rest world)
    ≡ (err Error.overflow, record (at_rest world) { in_transaction = true })
unfolding computing_office define_policy policy_input stable_policy_definition_id policy_allowed
version_overflows = refl
