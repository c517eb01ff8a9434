-- ===== src/Store/Mfa/Purpose.antt =====
-- `_require_mfa_purpose` and `_active_mfa_authenticator`.
use anar_core.Base.{String, Bool, ◌&&◌, ◌||◌, ◌==◌, not, is_null, if◌then◌else◌, Option}
use anar_core.Base.Table.{find_where}
use anar_core.Platform.{Platform}
use anar_core.Database.Rows.{Db, MfaAuthenticator, is_active}
use anar_core.Database.Tx.{Error, Result, ok, err}

unfoldable pub is_mfa_purpose : String → Bool
is_mfa_purpose p =
    p == "mfa.enroll" || p == "mfa.recovery.rotate" || p == "password.change" || p == "email.change"

module _ ⦃platform : Platform⦄ where
  unfoldable pub require_mfa_purpose : String → Result String
  unfolding is_mfa_purpose
  require_mfa_purpose purpose =
      let normalized = platform.strip purpose in
      if is_mfa_purpose normalized
      then ok normalized
      else err (Error.authority "unsupported MFA purpose")

-- The kind of every row is 'totp', by its CHECK.
abbrev pub is_active_authenticator : String → MfaAuthenticator → Bool
is_active_authenticator account_id r =
    r.account_id == account_id
    && is_active r.status
    && not (is_null r.verified_at)
    && is_null r.revoked_at

abbrev pub active_mfa_authenticator : String → Db → Option MfaAuthenticator
active_mfa_authenticator account_id db =
    find_where (is_active_authenticator account_id) db.authenticators
