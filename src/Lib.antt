-- ===== src/Lib.antt =====
-- A model of the authentication server of the game Isolation, and the theorems that make it correct.
--
-- The program accepts TCP connections, cuts what it reads into packets (a header of "prot", a type
-- and a length, and a protobuf message), and serves four requests: to register an account, to log
-- in, to read the player's data, and to log out. All that it knows stands in redis: `id:<id>` is an
-- account, `client:<token>` a connection, `logined:<id>` the login of an id.
--
-- The files, by the code that they model:
--   Server, Server/*: src/Server.cpp. Each handler is a `Program` (Program), the sequence of its
--     calls of IRedis and IClient. Server/Spec is what they promise, without keys and fields;
--     Server/Refines proves that they keep it; Server/System has the connections and the events.
--     HandleRequestLogin is `handle_request_login`, and so on: a name of the source is written in
--     snake case, and the checks inside a handler are functions of their own.
--   Interleaving, Interleaving/*: handlers on several threads (src/main.cpp), call by call. Server and
--     Server/* are about handlers that run one after another.
--   ClientSocket, ClientSocket/*: src/ClientSocket.cpp. ReadAsync is `on_read`, at the bytes of one
--     read; the write queue is in ClientSocket/Writing, where several threads take turns at its mutex
--     and PostWrite is two moves, `pushed` and `started`. The other parts see PostWrite as one call
--     that appends to the packets posted.
--   RedisService, RedisService/*: src/redisService.cpp, on Redis, which is a parameter: the
--     commands of redis-plus-plus with their documented laws, those of SCAN in Redis/Scanning
--     and of strings in Redis/Strings, the time that is left to a key in Redis/Expiry.
--     Redis/Memory, Redis/Scanning/Keys, Redis/Strings/Fields and Redis/Expiry/Timed are
--     instances, for the tests.
--   Network, Network/*: the sockets with the server. The bytes of a read go through ReadAsync to the
--     handlers that AddClient registers, and so to the database; Network/Wire is about one request,
--     Network/Conversation about any sequence of connections, requests and losses, which it
--     compares with Network/Hub, Network/Safety about any sequence of reads.
--   Acceptor, Acceptor/*: src/Acceptor.cpp, the accept loop.
--   Startup, Startup/*: the start in src/main.cpp, which removes what earlier connections have left
--     in redis; Startup/Main is main, and Startup/Crash has a process that ends within a handler, and is started again.
--   TokenPool: src/tokenPool.h. Util, Util/*: src/util.cpp.
--   Session, Session/*: deprecated/session.cpp, a session of the earlier game server. Lobby, Lobby/*:
--     deprecated/lobbyManager.cpp: the registry of the sessions, the clients (Lobby/Entry), the
--     session list (Lobby/List) and the packets (Lobby/Requests).
--   Room, Room/*: deprecated/room.cpp, a room of the earlier game server. TestServer, TestServer/*:
--     the connections of deprecated/TestAsyncServer.cpp, and the server that keeps them.
--   Common: lists, texts, the ordered map, Boolean tests.
--
-- An `int` is its bit pattern below 2 ^ 32, a `size_t` a number below 2 ^ 64. The loop of
-- utf8_length runs on fuel, one round for each byte of the text, which is enough since each round
-- takes at least one byte; the loop of Scan on the number of calls that a full iteration has, which
-- redis documents to end. Undefined behaviour, such as `*` on an empty optional or a read past the
-- memory of a pointer, is the result `none` of a run, or an outcome of its own (Session).
--
-- Not modelled: log output; exceptions of redis-plus-plus but as the end of the process in
-- Startup/Crash (redis answers every call, and no key expires between two calls); the generated
-- protobuf code, sha256, Boost.Asio and the random numbers, which are parameters; the signals of
-- src/main.cpp and what its catch clauses rethrow; in deprecated/ the timers, and the console
-- loop of the test server.

pub mod Common
pub mod Util
pub mod ClientSocket
pub mod Redis
pub mod RedisService
pub mod Program
pub mod Interleaving
pub mod Server
pub mod Startup
pub mod Network
pub mod Acceptor
pub mod TokenPool
pub mod Session
pub mod Lobby
pub mod TestServer
pub mod Room
mod Tests
