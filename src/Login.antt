-- ===== src/Login.antt =====
-- The game's own login: the gate in front of it, the repository of accounts and the handlers of
-- MajorLogin and MajorRegister. Ids and tokens are numbers, with 0 for the empty text, as in Auth.
pub mod Gate
pub mod Accounts
pub mod Handlers
mod Tests
