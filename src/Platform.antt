-- ===== src/Platform.antt =====
-- What the store takes from outside the repository: argon2's password hasher, SHA-256, the json
-- module, and Unicode's tables behind the methods of `str`. Fresh random values and readings of the clock are arguments of
-- the calls that use them.
use anar_core.Base.{ℕ, String, Bool, ◌*◌, Option}
use anar_core.Contracts.Json.{Json}

-- How `PasswordHasher.verify` ends: it returns a Boolean, or raises VerifyMismatchError,
-- InvalidHashError or another VerificationError.
pub data Verdict : Type 0 where
  verified : Bool → Verdict
  mismatch invalid_hash failed : Verdict

pub record Platform : Type 0 where
  -- `hashlib.sha256(s.encode()).hexdigest()`
  pub sha256 : String → String
  -- `PasswordHasher.hash`, with the random salt that it draws
  pub hash_password : String → String → String
  pub verify_password : String → String → Verdict
  pub check_needs_rehash : String → Bool
  -- `str.strip`, `str.lower`, `str.casefold`, and `unicodedata.normalize("NFKC", …)`
  pub strip : String → String
  pub lower : String → String
  pub casefold : String → String
  pub nfkc : String → String
  -- `json.dumps` with sorted keys and the separators of `canonical_json`; `none` where it raises
  -- TypeError or ValueError
  pub json_dumps : Json → Option String
  -- `json.loads`; `none` where it raises JSONDecodeError
  pub json_loads : String → Option Json
  -- `secrets.compare_digest`; `none` where a text is not ASCII and it raises TypeError
  pub compare_digest : String → String → Option Bool

-- Times are multiples of 2⁻²² seconds: the doubles of `time.time()` from 2004 to 2038.
abbrev pub second : ℕ
second = 4194304

abbrev pub seconds : ℕ → ℕ
seconds n = n * second
