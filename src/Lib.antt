-- ===== src/Lib.antt =====
-- A model of godotnet, a Go library for game servers: length-prefixed protobuf frames over TCP and
-- datagrams over UDP, a login and a pairing handshake, handlers and RPCs, and a tick goroutine that
-- owns the sessions.
--
-- The parts, and how they interact. Goroutines read the sockets (tcp.go, udp.go) and push events on
-- one bounded queue (events.go). The tick goroutine (tick.go) drains the queue, routes each frame to
-- the handshake (handshake.go), to the game's handlers and RPCs (dispatch.go) or to the cleanup
-- (server.go), then pings the sessions (ping.go) and calls OnTick. What it sends goes through
-- server.go and udp.go to the sessions' TCP queues and to the UDP socket. Package sub (sub/sub.go)
-- keeps the topics of publish and subscribe, beside the server. Package rpc (rpc/rpc.go) registers
-- RPC handlers by their types, and internal/transport opens the sockets and has a listener for
-- tests.
--
-- The files:
--   Base: numbers, lists, integers, base64, and Go's maps as association lists
--   Errors: errors.go. Log: log.go. Frame: frame.go (WriteFrame, ReadFrame), with Frame/RoundTrip,
--     Frame/Truncated and Frame/Sound
--   Events: events.go (newQueue, push, drain), with Events/Fifo
--   Control: the messages of controlpb/control.pb.go. Env: the parameters of the model
--   Session: session.go. Callbacks: the functions that a game hands to the server
--   Server: Config, Server and NewServer of server.go, with one child for each part:
--     Registry and Dispatch (dispatch.go), Outbound (pushTCP, scheduleDisconnect, udpSendRaw),
--     TickCtx (tickctx.go), Cleanup (cleanupSession), Handshake (handshake.go), Ping (ping.go),
--     Tick (tick.go), Intake (the rounds of tcp.go and udp.go), Loops (the accept loop, the UDP
--     loop and the result of Run), Writer (runTCPWriter), Connection (the goroutines of
--     serveTCPConn), Lifecycle (the start and the end of Run), Group (its goroutines), Whole (those
--     with the connections)
--   Server/Quiet: the changes that leave the players alone. Server/Route: the ways of an event
--     through a tick. Server/Admission: a table of what dispatchMessage acts on. Server/Invariant:
--     the invariant of a server. Server/Later, Onward and Farewell: what time keeps of a session, and
--     its end. Server/Owing and Accounts: what becomes of its disconnect. Server/Stages and Joining:
--     how a player gets in. Server/Mail and AnyOrder: the loops over the map of sessions.
--     Server/Present and Parting: that a player who has not been told to leave is listed.
--     Server/Access, Granted, Pairing, Takeover, Departed, Responses, Delivery, Reader, Broadcast,
--     Vital, Keepalive and Setup: what single operations do
--   System: the server among its goroutines, as a step relation, with System/Safety,
--     Rounds, Interleaved, Listed, Attendance, Forever, Tenure, Settled, Expired and Bounded
--   Rpc: rpc/rpc.go (Register). Transport: internal/transport/net.go, with Transport/Memory for
--     internal/transport/memory.go
--   Sub: sub/sub.go, with Sub/Nested (maps of sets), Sets, Relation (two maps as one), Tidy
--     (no empty sets), Publish, and Delivered (with the server)
--   Examples: witnesses and tests at concrete inputs
--
-- How code corresponds to definitions. A method of *Server is a function on the record `Server` that
-- returns the new one; names are the source's in lower case with underscores. Sessions stand on a
-- heap by pointer, so that events and both maps alias them. What others can see of the server
-- (datagrams, closed connections, calls of callbacks) is a trace. A recover becomes a case on whether
-- the callback returned or panicked. A nil pointer is `none`. Log lines are left out.
--
-- Parameters. The protobuf runtime, crypto/rand, time.Now and the game's state are fields of `Env`,
-- without hypotheses. A callback of the game is a function from what it sees and the game's state to
-- the TickCtx calls that it makes, in order, and its outcome. A callback may not change the exported
-- fields of a session, nor use a TickCtx after it has returned.
--
-- Bounds and fuel. Lengths are cut to 32 bits in a header, tick counts and nonces to 64 bits; times
-- are unbounded integers of nanoseconds. The TCP reader's loop runs on fuel: one round for each byte
-- of the stream, and one more, is enough, since each frame takes at least its header. The decimal
-- digits of a number run on fuel too, which the number itself bounds.
--
-- Concurrency. In System a step is a whole tick or one round of another goroutine, in any order;
-- in System/Interleaved the rounds of the others also fall between the statements of a tick, except
-- between the keepalive and the read and call of OnTick, which are one move.
-- Pushes that fall inside a drain are modelled in Events; other interleavings inside the handling of
-- one event are not. The goroutines of one connection, and those of Run, are step relations of their
-- own (Server/Connection, Group and Whole), beside the server's state: that `stop`, what Run's
-- deferred statements do to the server, comes after the end of its goroutines is not stated.
-- A read on a closed connection fails; that a TLS connection may still return what it has
-- buffered is left out. A select that may take several
-- of its cases takes the one that an argument names. Go visits a map in random order; the model
-- visits the entries in the list's order, and Server/AnyOrder is about lists in other orders.
--
-- Not modelled: the goroutines that close the two listening sockets when the context ends; the pipes
-- of net.Pipe, which are numbers; the log lines of the other parts; and the packages snapshot,
-- interest and chat, which hold no code.
pub mod Base
pub mod Errors
pub mod Log
pub mod Frame
pub mod Events
pub mod Control
pub mod Env
pub mod Session
pub mod Callbacks
pub mod Server
pub mod System
pub mod Rpc
pub mod Transport
pub mod Sub
pub mod Examples
