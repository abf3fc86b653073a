-- ===== src/PlayerStore.antt =====
-- The PostgreSQL account repository (src/db/repo/postgres.js), as far as it keeps relations: the
-- ledger of settled match results, friendships and friend requests. A table is the list of its rows;
-- a statement that fails ends its transaction with nothing written.
pub mod Settlement
pub mod Friends
mod Tests
