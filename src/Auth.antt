-- ===== src/Auth.antt =====
-- The accounts of the login and connect servers (auth/): guests with their tokens, the pairing of a
-- game's WebView with a browser, the sign-in with Discord and the token routes. Tokens, open ids and
-- Discord ids are random or foreign texts that the code only compares: they are numbers here, and 0
-- is the empty text. Times are seconds.
pub mod Pairings
pub mod Guests
pub mod Tokens
pub mod Login
pub mod Requests
mod Tests
