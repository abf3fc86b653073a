-- ===== src/Lobby.antt =====
-- The lobby's handlers: profiles and selected items, and friendships with their notifications.
pub mod Profiles
pub mod Friends
mod Tests
