-- ===== src/Lib.antt =====
-- A model of AnarCoreStore (legacy/predecessor/anar-core-master/anar_core/store.py), the identity and
-- authority kernel of Anar-Core, and of the contract records that it builds
-- (legacy/predecessor/anar-core-master/anar_core_contracts/__init__.py).
--
-- The store keeps an SQLite database. Database/Rows and Database/Definitions have a record for the
-- rows of each table, and Rows `Db` for the tables together; Database/Schema and Database/Authority
-- have the constraints of `_migrate` that an INSERT has to meet; Database/Tx has the statements and
-- transactions: a `Tx` is the part of a method between BEGIN and COMMIT, an `Action` a method on the
-- connection, with what is committed, what the connection sees and whether a transaction is open. An
-- exception is a value of `Error`.
--
-- Each public method of the store is an action of the same name, and each private method a `Tx` or
-- a function without the leading underscore. The parts of a method between its statements BEGIN and
-- COMMIT have names that end in `_rows`, its checks before that names that end in `_checks` or
-- `_input`. `project_authorized_subject` is the `Tx` that other methods call; as a call of its own it
-- is `project`.
-- - Contracts: typed identifiers and symbols, JSON values, and the records with the checks of their
--   `__post_init__`.
-- - Store/Input: _normalize_email, _token_digest, _require_positive_integer, _require_password.
-- - Store/Session: _load_account_session, authenticate_account_session.
-- - Store/Account: signup, verify_email, login, signout.
-- - Store/Cascade: the revocation of what a session or an account has granted.
-- - Store/Mfa: enrollment, broker attestations, step-up receipts and recovery codes.
-- - Store/Password, Store/Email, Store/Identity: changes of password, address and display name.
-- - Store/Subject: project_authorized_subject, authenticate, ready and create_session.
-- - Store/Organization: organizations and definitions, invitations and memberships, adapter grants,
--   derived sessions, hydration references and consumer handoffs.
-- - Store/Calls: a call as data, and histories of calls. The lock of `_synchronized` serialises the
--   calls of one store, so a history is a list.
-- The other directories of Store, and Database/Evolution, have the proofs: Evolution how the rows may
-- change, Sound what the calls on an organization's authority have checked, Gate what a step-up
-- receipt guards, Replay what is used once, Ended what is revoked.
--
-- Random values (identifiers, tokens, salts) and the readings of the clock are arguments of the call
-- that uses them. Platform has, as a record that every module takes as an instance, what the store
-- calls of Python and argon2: SHA-256, the password hasher, json.dumps and json.loads,
-- secrets.compare_digest, str.strip, str.lower, str.casefold and NFKC. Times are natural numbers,
-- multiples of 2⁻²² seconds. There is no loop that needs fuel: the loops of the store run over lists.
-- Numbers have no bound, as Python's; where a definition or a redeemed invitation binds a version as
-- a parameter of an INSERT, the OverflowError of an integer beyond 64 bits is modelled, elsewhere not.
--
-- Not modelled: the schema migration of existing databases and the SQLite engine below the
-- statements; other connections to the same file; closing a store; MembershipProjection and
-- broker_mapping, which the store does not use; the Rust crates and the tools.
pub mod Base
pub mod Database
pub mod Platform
pub mod Contracts
pub mod Store
pub mod Examples
