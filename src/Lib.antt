-- ===== src/Lib.antt =====
-- o2chat, a chat server and its console client: what the C++ code does, as a model, and theorems
-- about it. Paths are from the root of the repository.
--
-- The program. A connection of the server (`ApiClient`) reads HTTP requests, turns each into a task,
-- and pushes it on a queue that all connections and all workers share. A worker thread
-- (`DatabaseWorker`) takes tasks from the queue, checks the password, works on a storage that all
-- workers share, and calls the connection of the client with the reply. The client turns commands of
-- its user into such requests.
--
-- Files.
--   Prelude      names of the library, Boolean tests, lists, and texts as lists of byte codes
--   Queue        common/lock_queue.hpp: every method of `Queue` is one step under the mutex
--   Common       common/common.hpp: commands and status codes
--   Request      server/src/request.hpp: what a request says
--   Json         JSON values; the writer and the parser of rapidjson and the checksum of boost are
--                the fields of a parameter `External`
--   Text         common/utils.cpp: tests, cuts and trims of strings, paths, decimals, `crc32`, the digest of a
--                password; what the program uses of `std::to_string`, `std::stoul` and `std::stoi`
--   Responses    server/src/apiclient_utils.cpp: bodies of answers
--   Db           server/src/inmemory_dbconn.cpp and the data of server/src/database.hpp: a record
--                `Storage` with a list for each map and vector (oldest entry first), and a function
--                `Storage → answer × Storage` for each method of `InMemoryConnection`
--   Http         net/client.cpp (`AsyncHttpClient`) and common/http.hpp: from the bytes that come on a
--                connection to a message and the bytes behind it; Socket is the same read by read, with
--                the buffer of the client and a connection that brings the bytes in pieces
--   Net          net/async_connect.hpp, net/sync_connect.hpp and net/client.cpp (`AsyncHttpClient::asyncConnect`,
--                `BasicTcpClient`, and `TcpClient` of net/client.hpp): how a connection is set up, and its buffer; what the system
--                answers is a parameter
--   Client       client/src: the lines of the user, requests and answers (apiclient_utils.cpp), and the
--                handlers of client.cpp as steps on a record `Session` with a list of actions; the
--                console (ui.cpp) and the worker (event_worker.cpp) over the queue
--   Worker       server/src/database_worker.cpp: `process` is one round of the loop of
--                `processQueue`, with the calls on the connection of the client as a list of replies;
--                Program is the same branch call by call, Pool the threads over the queue and the
--                storage, each turn up to the next call under a mutex
--   Server       server/src/server.cpp, common/io_thread.hpp and server/src/main.cpp: starting, accepting,
--                stopping, and giving up the rights of root (`change_process_privileges`)
--   Api          server/src/apiclient.cpp: `parse_meta`, the texts of responses, and the handlers of a
--                connection as steps on a record `ApiClient` with a list of actions;
--                Exchange runs them over the ends of reads, tasks, writes and the timer
--   Tests        witnesses on concrete data
--
-- Integers. Identifiers are `uint64_t` counters with their wrap-around; theorems that need the
-- counters not to wrap say so (`HasRoom`, `HasRoomFor`). An `int` or a `size_t` is its bit pattern below 2 ^ 32 or
-- 2 ^ 64. The doubled count of a history is taken modulo 2 ^ 64 and 2 ^ 32 as the code does.
--
-- Loops. They recurse on their list, but for five with fuel: the digits of a number `n` have `n + 1`
-- rounds, since each divides it by ten; `split` has a round more than the line has bytes, and each cut
-- takes one at least (an empty delimiter, which no caller has, makes the code run forever); the chunks
-- of a body have a round more than the bytes that come, and each takes two at least; a connect has a
-- round for each endpoint, and `write` one for each byte, of which each call writes one at least.
--
-- Hypotheses. `External` has no laws of its own. The theorems on the bodies of the client suppose that
-- rapidjson reads back what it wrote, those on dispatch that it reads the body as an object. A failed
-- assertion of rapidjson is `none`. The theorem on `read_until` supposes that the system appends to the
-- buffer and counts to the first delimiter, that on connecting to a host that the random order of addresses
-- loses not all of them. `inflate` stands for `gzipInflate`, that is for zlib. `Transport` says what
-- the code relies on of boost's `async_read_until`: it keeps the order of the bytes, calls the handler without
-- an error only when the condition is met, and gives up only when it is not met at the end.
--
-- Not modelled: the insides of sockets, TLS, timers and `io_service` (each step is what runs under one mutex or
-- in one handler), logging, the parsing of options, third_party (rapidjson, libproperty, o2logger), the stub
-- `MysqlConnection` and the schema in mysql, the reading of /proc in common/sysutils.cpp, the file system, the
-- user database, clocks and base64 of common/utils.cpp, the threads and the timer of the client.
pub mod Prelude
pub mod Queue
pub mod Common
pub mod Db
pub mod Json
pub mod Text
pub mod Request
pub mod Responses
pub mod Http
pub mod Client
pub mod Net
pub mod Worker
pub mod Api
pub mod Server
mod Tests
