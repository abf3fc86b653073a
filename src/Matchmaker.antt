-- ===== src/Matchmaker.antt =====
-- The shared matchmaker (src/tcp/matchmaker.js): its queue, the tick that forms matches, and the
-- lease by which one replica is the leader (src/bus/index.js).
pub mod Queue
pub mod Groups
pub mod Tick
pub mod Fair
pub mod Matches
pub mod Leader
mod Tests
