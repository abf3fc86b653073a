-- ===== src/RoomSettings.antt =====
-- The settings of a custom room that the match server gets: the bit fields of the simple mode
-- (src/tcp/roomsettings.js), the blob of the advanced mode (src/tcp/csadvanced.js) and their merge
-- at the start of a match (src/tcp/handlers/RoomStart.js).
pub mod Simple
pub mod Advanced
mod Tests
