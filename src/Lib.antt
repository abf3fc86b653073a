-- ===== src/Lib.antt =====
-- A model of the game's online services: the gateway with its wire framing, the custom rooms and the
-- start of their matches, the matchmaker, the player store, the game's login with the lobby's
-- handlers, and the accounts, tokens and rate limiter of the login servers.
--
-- A client holds one TCP connection to a gateway. The gateway cuts the byte stream into frames
-- (src/tcp/framing.js), decodes each into a request and gives it to the handler of its message
-- (src/tcp/handlers). The handlers of rooms run the operations of src/tcp/rooms.js on hashes in Redis
-- that all gateways share, each under a lease of its room, and push messages to the members; those of
-- matchmaking write the queue, from which the replica that is the leader forms matches
-- (src/tcp/matchmaker.js). A room's owner starts its match in src/tcp/handlers/RoomStart.js. After a
-- match the worker src/servers/settlement.js settles its results in src/db/repo/postgres.js and pushes
-- the statistics. Before all this a client signs in with
-- Discord at the login server (auth/login-server), which gives it tokens of the guests table
-- (auth/shared); the game's HTTP tier checks them (src/handlers/_authGate.js), loads or creates the
-- account document (src/db) and gives out its own token (src/handlers/MajorLogin.js).
--
-- - Prelude: numbers, tests, lists; nothing of the program.
-- - Redis: the commands on hashes (HGET, HSET, HDEL, HGETALL) as an interface with their documented
--   behaviour. Redis/Lists meets it by an association list, for concrete runs.
-- - Account: the fields of an account document that the modelled code reads.
-- - Framing: `parseClientFrames` as a loop over the buffer on fuel. Each round takes two bytes or
--   more, so the buffer's length is enough, and any larger fuel gives the same (Framing/Parse).
--   Framing/RoundTrip states what the client sends.
-- - Rooms: the record (Rooms/Record), teams, seats and `toRoomInfo` (Rooms/Seats), the store and the
--   lease (Rooms/Exec), and the operations: create, list, leave, startMatch, reenter in
--   Rooms/Lifecycle, join and kick in Rooms/Membership, change, setReady and switchSeat in
--   Rooms/Settings. An operation is a function of the store that returns a result or an error with
--   the store it leaves. The part that runs under the lease is a definition of its own, so that
--   Rooms/Invariant/Reach can interleave the operations of any number of gateways. Rooms/Notify has
--   the messages and the handlers.
-- - Gateway: a connection as the bytes it has not parsed yet and its session, all sessions by account,
--   and the effects on sockets, presence, queue and rooms as a list. Callbacks are functions of the
--   sessions; Gateway/Sessions also runs a close before a frame that is still being handled.
-- - RoomSettings: the bit fields (RoomSettings/Simple) and the advanced blob (RoomSettings/Advanced),
--   with what is sold (RoomSettings/Advanced/Offers) and what events are worth
--   (RoomSettings/Advanced/EventValues) described apart from the decoder.
-- - RoomStart: the settings that the match server gets, and the handoff of each member.
-- - Matchmaker: the queue, grouping by mode, ordering, `tick` with `formMatch`, and the election of a
--   leader over a key that expires (Matchmaker/Leader).
-- - TcpRouter: the table of routes and `dispatch` (src/tcp/router.js), and the matchmaking handlers
--   behind it (TcpRouter/Matchmaking). Requests are already decoded.
-- - PlayerStore: the ledger of match results and its credit of coins, where any statement of the
--   transaction may fail (PlayerStore/Settlement), and friendships (PlayerStore/Friends).
-- - RateLimit: the entry of a key and the middleware, with `prune` (auth/shared/src/rate-limit.js).
-- - Auth: the guests with their keys (Auth/Guests), their tokens (Auth/Tokens), the sign-in with its
--   five attempts to draw free keys (Auth/Login), the token routes (Auth/Requests), and the pairing of
--   a game's WebView with a browser (Auth/Pairings), whose statements Auth/Pairings/Single interleaves
--   and Auth/Pairings/Sessions abstracts. A table is the list of its rows; the PRIMARY KEY and UNIQUE
--   columns of the guests (auth/shared/src/pg.js) are `insert_row`.
-- - ReplayGuard: the signatures seen, in order of insertion, with sweep and cap.
-- - Login: the gate with the outcomes of its queries (Login/Gate), documents and rows with lookups,
--   `save` and `createFromLogin` of both repositories (Login/Accounts), and the handlers MajorLogin,
--   MajorRegister and Login (Login/Handlers).
-- - Lobby: profiles and selected items (Lobby/Profiles) and the friend handlers with their pushes
--   (Lobby/Friends), over the tables of PlayerStore.
-- - MatchStats: the statistics after a match (MatchStats) and the settlement worker, a loop over the
--   players whose transactions may fail (MatchStats/Worker), over the ledger of PlayerStore.
--
-- Numbers are natural numbers: the modelled fields are identifiers, sizes, unsigned protocol fields
-- and times in milliseconds, and the modelled code does not overflow them, but for the coins of the
-- ledger and of the advanced blob, which are read as 32 bits. A JSON record in Redis is kept decoded.
-- A field that the code reads through `|| 0`, `|| ''` or `!!` has that default when it is missing. A
-- lease is modelled by the outcome of each attempt to get it, and a holder is taken to finish before
-- its lease of 3 seconds ends. The calls of the bus by rooms and matchmaker, beside the leases, are
-- taken to succeed while the bus is up, but for the two writes of a join (Rooms/Failing).
--
-- Tokens, open ids and Discord ids, which the code only compares, are numbers, with 0 for the empty
-- text; what is drawn at random, read from a clock, or read stale is an argument. Of an account
-- document the login keeps the identity fields and takes the rest as a parameter.
--
-- Not modelled: AES, protobuf, HMAC, hashes and SQL, which are libraries; logging, timers and sockets;
-- presence and the bus's messages; the HTTP router with its encoding; the contents of the default
-- player and other static data; clans, mail and the handlers that send fixed replies; the pages of the
-- login servers; the match server, which is written in Go.
pub mod Prelude
pub mod Redis
pub mod Account
pub mod Framing
pub mod Gateway
pub mod Rooms
pub mod RoomSettings
pub mod RoomStart
pub mod Matchmaker
pub mod TcpRouter
pub mod PlayerStore
pub mod RateLimit
pub mod Auth
pub mod ReplayGuard
pub mod Login
pub mod Lobby
pub mod MatchStats
