-- ===== src/Rooms.antt =====
-- Custom rooms (src/tcp/rooms.js).
pub mod Record
pub mod Seats
pub mod Exec
pub mod Lifecycle
pub mod Membership
pub mod Settings
pub mod Invariant
pub mod Outcomes
pub mod Joining
pub mod Failing
pub mod Closing
pub mod Ghosts
pub mod Notify
mod Tests
