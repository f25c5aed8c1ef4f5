-- ===== src/Lib.antt =====
-- LocalMessenger: a peer-to-peer messenger for a local network. A peer finds others by UDP broadcast,
-- talks to them in packets over TCP, and keeps contacts, messages and settings in SQLite and in
-- settings.json. Encryption with libsodium is there, and is not yet used for messages.
--
-- The parts and the files that model them:
--   Protocol    src/core/Network/Protocol.h, Protocol.cpp: packets, serialize, deserialize_header,
--               make_packet.
--   Session     src/core/Network/TcpSession.h, TcpSession.cpp: one connection, as a state that the
--               calls and the completion handlers of the asynchronous reads and writes change.
--   Server      src/core/Network/TcpServer.h, TcpServer.cpp: the acceptor and its loop of accepts.
--   Client      src/core/Network/TcpClient.h, TcpClient.cpp: the two steps of a connect.
--   Discovery   src/core/Network/UdpDiscovery.h, UdpDiscovery.cpp: broadcasts, the table of peers,
--               timeouts, and the three chains of handlers.
--   Network     src/core/Network/NetworkManager.h, NetworkManager.cpp: the map of sessions by address,
--               and what the callbacks of sessions and of the discovery do to it. Network.Lifecycle:
--               start and stop, with the server, the discovery and the threads. Network.Steps: the
--               operations and the steps of the sessions in any order. Network.Crossing: two managers
--               that connect to one another.
--   Crypto      src/core/Crypto/CryptoManager.h, CryptoManager.cpp: key agreement, the layout of
--               encrypted messages, keys in hexadecimal, fingerprints.
--   Storage     src/storage: Database (the tables), Storage.Contacts (ContactRepository),
--               Storage.Messages (MessageRepository), Storage.Settings (SettingsManager). Storage.Sql
--               has what the statements share; Storage.Integrity, Storage.Book (the contacts by their
--               keys) and Storage.Mailbox (the messages as a list) are about all statements together.
--   Main        src/main.cpp: Main.Startup (folders and settings), Main.Launch (keys and start),
--               Main.Callbacks (what main gives to the network manager), Main.Commands and
--               Main.Console (the lines of the console, and the signals), Main.Begin (main up to its
--               loop) and Main.Program (the console and the handlers, over one database and one map).
--   Json        what the program uses of nlohmann::json.
--   Common      numbers, lists, byte strings, association lists and do blocks that the parts share.
--
-- Session reads and writes the packets of Protocol, and Network holds the sessions and starts Server
-- and Discovery. Main joins Network, Crypto and Storage: its App has the database and the sessions.
-- Discovery, Storage.Settings and Main use Json, and the repositories share the record Database.
--
-- A definition has the name of the function, method or type that it models; a handler that the code
-- writes as a lambda is named for its event (on_header_read, on_written, on_received, on_accepted,
-- on_timeout_timer, on_peer_found). A state is a record of the members, and of what the sockets and
-- the timers do (Session.reading, TcpServer.accepting, UdpDiscovery.receiving). A callback is an event
-- that the operation returns, and logging is left out.
--
-- Numbers are natural numbers. Where the code has a machine width it is written out (% 2 ^ 32 in
-- to_u32, % 2 ^ 16 for a port), and a theorem that needs a bound has it as a hypothesis. A std::string
-- and a byte vector are lists of byte values. Times are numbers: seconds in the database, ticks of
-- the steady clock in Discovery. The only fuel is that of Session.Read.receive, which runs the read
-- handlers on a stream: each takes at least a byte, so that receive_all, with one unit more than the
-- stream has bytes, never runs out (receive_fuel).
--
-- Libraries are parameters with their documented laws: Json.JsonLibrary for nlohmann::json,
-- Crypto.Sodium for libsodium, and Storage.Sql.OrderBy for the order that SQLite gives to rows with
-- equal keys. Row ids, times, nonces, error codes, whether a file opens, and in Main.Program the
-- list of the peers that the discovery has, are inputs. A SELECT without ORDER BY gives the rows in
-- the order of the table, as SQLite does where it scans it. Tables, foreign keys and AUTOINCREMENT
-- follow the documentation of SQLite. LIMIT and OFFSET are taken as not negative.
--
-- Not modelled: logging and the wording of what is printed; the opening of sockets, of the database
-- and of folders, which may throw; threads below the level of handlers, except for the write mutex
-- of a session, for the count of threads in Network.Lifecycle, and for the mutex of the sessions in
-- Main.Program, where a handler that waits for it waits for good; handlers that run while stop
-- does; the table media_files and the enumeration DeliveryStatus, which nothing uses.

pub mod Client
pub mod Common
pub mod Crypto
pub mod Discovery
pub mod Json
pub mod Main
pub mod Network
pub mod Protocol
pub mod Server
pub mod Session
pub mod Storage
