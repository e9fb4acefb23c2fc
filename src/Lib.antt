-- ===== src/Lib.antt =====
-- A TACACS+ server: the protocol library (pkg/public/tacplus), the handler of the program that uses it
-- (pkg/client/tac_plus), the queue of its log records (pkg/client/logHub), the service that keeps the
-- users' roles and its HTTP interface (pkg/server), and the web console (pkg/swm/http).
--
-- A connection (conn.go) reads packets, hands each to the session of its id, and serves every session
-- by a goroutine. A session on the server (server.go) reads a request, decodes it (packet.go), calls
-- the RequestHandler, which may prompt the client, and answers with the handler's reply. The handler
-- (handler.go) decides by the users and roles that it keeps in memory and by two caches of earlier
-- results (user.go).
--
-- Base has what the others share. Error has a constructor for each error value of pkg/public/tacplus,
-- and Result has a value, an error or a run-time panic. A byte is a number, IsByte says that it is
-- below 256, and a text or a slice is the list of its bytes.
-- Tacplus/Wire and Tacplus/Packet are packet.go: a file for each packet type has the struct, marshal,
-- unmarshal and, as a description of the wire format, Fits and body. Tacplus/Codec is the interface
-- `packet` over the seven types.
-- Tacplus/Crypt is crypt of conn.go. A packet is cut into its header fields and its body (Raw). The
-- loop runs on fuel: the body's length is enough, since a digest is not empty. MD5 is a parameter, of
-- which only the length of a digest is used.
-- Tacplus/Session is a session's readPacket and writePacket of conn.go; what arrives from the other
-- goroutines is a script of received packets and of write outcomes.
-- Tacplus/Framing is how conn.go cuts the network's stream into packets; the network is the list of
-- what it still delivers, so that the reading loop ends with the list.
-- Tacplus/Conn is the serving goroutine of conn.go: processPacket, newSession, closeSession, cleanup and
-- serve, as steps on the connection's state, in any order of events.
-- Tacplus/Server and Tacplus/Dispatch are server.go: the prompts, the three kinds of request and
-- serveSession. A handler is a record of three functions that run on a session and a state of their
-- own.
-- Tacplus/Client is ClientSession of client.go.
-- Aaa/Users is user.go: the check of passwords and of commands against roles, with their caches.
-- Regular expressions, address parsing and bcrypt are parameters (Platform).
-- Aaa/Snapshot is user.go too: the rebuilding of the users and the emptying of the caches. What the
-- database answers during a run is an argument (Database).
-- Aaa/Command and Aaa/Handler are handler.go: how the command line is put together, and the three
-- handlers. A prompt loop gives up at the sixth prompt, so that its fuel of seven rounds is enough.
-- Swm/RateLimit is ratelimit.go: the buckets of requests and failures, and the lockouts. Times are
-- nanoseconds.
-- Client/LogHub is logHub.go: the queue, the worker that sends batches, and the counters. What runs
-- under the mutex is one step, and so is each call of LogHub.Bulk and each addition to a counter; a
-- run is any sequence of steps.
-- Server/Permissions is permissionSystem.go: the approvals, merged into ranges, give the roles in force
-- and the warnings of their end. sort.Slice and sort.Strings are parameters; of the first, IsSort says
-- that it rearranges and that starts ascend.
-- Server/Auth is the signature of requests between the console and the server: swm_signing.go,
-- middleware_swm_auth.go and acl.go. The server keeps the nonces of accepted requests (NonceStore). An
-- int64 is written out modulo 2 ^ 64. Platform has the code, hash and conversion functions of Go's
-- library, and IsGo what the signing relies on.
-- Server/Quota is resource_limits.go: how many approval requests a user may create. A run is the
-- sequence of the requests, with the times of those granted to one user.
--
-- Tests, in each part, has the runs on concrete inputs.
--
-- Not modelled: deadlines, times and the text of log lines; readLoop and writeLoop, which move packets
-- between the network and the channels; the passwords' expiry; the other HTTP handlers, the database's
-- queries, the log store, notifications and configuration, which are calls of other services.
pub mod Base
pub mod Tacplus
pub mod Aaa
pub mod Swm
pub mod Client
pub mod Server
