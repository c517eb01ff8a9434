-- ===== src/Database/Status.antt =====
-- The `status` columns.
use anar_core.Base.{String, Bool, true, false}

-- The values that the store writes into the `status` columns.
pub data Status : Type 0 where
  active pending consumed revoked suspended left : Status

abbrev pub is_active : Status → Bool
is_active Status.active = true
is_active Status.pending = false
is_active Status.consumed = false
is_active Status.revoked = false
is_active Status.suspended = false
is_active Status.left = false

abbrev pub is_pending : Status → Bool
is_pending Status.pending = true
is_pending Status.active = false
is_pending Status.consumed = false
is_pending Status.revoked = false
is_pending Status.suspended = false
is_pending Status.left = false

abbrev pub is_suspended : Status → Bool
is_suspended Status.suspended = true
is_suspended Status.active = false
is_suspended Status.consumed = false
is_suspended Status.revoked = false
is_suspended Status.pending = false
is_suspended Status.left = false

abbrev pub is_revoked : Status → Bool
is_revoked Status.revoked = true
is_revoked Status.active = false
is_revoked Status.pending = false
is_revoked Status.consumed = false
is_revoked Status.suspended = false
is_revoked Status.left = false

-- The text in the column.
unfoldable pub status_text : Status → String
status_text Status.active = "active"
status_text Status.pending = "pending"
status_text Status.consumed = "consumed"
status_text Status.revoked = "revoked"
status_text Status.suspended = "suspended"
status_text Status.left = "left"
