-- ===== src/Store/Account.antt =====
-- Sign-up, the verification of an e-mail address, login and sign-out.
pub mod Signup
pub mod Login
pub mod Signout
