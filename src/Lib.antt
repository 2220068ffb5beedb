-- ===== src/Lib.antt =====
-- The nf-engine server: a game server that takes requests over TCP, TLS and UDP, runs them on
-- shards, and answers, with a control socket for a management daemon.
--
-- The way of a request. A reactor (serverd/protocol/tcp/TcpReactor.cpp) reads a socket into a ring of
-- bytes (shared/algorithm/ByteRingBuffer.cpp), cuts frames out of it (TcpFraming.cpp), and hands each
-- frame as a packet to a worker, which calls RxRouter (serverd/ingress). The router parses the
-- header (serverd/packet/PacketParser.cpp), makes or finds the session (serverd/session), makes an
-- event (EventFactory.cpp and the parsers of serverd/execution), and gives it to the shard that the
-- session id selects (serverd/shard). The shard's thread handles the event, which commits an action, and
-- the action's payload goes through TxRouter (serverd/egress) to the reactor of its protocol, which
-- writes it to the connection's ring and sends it.
--
-- Which file models what:
--   Prelude        shared names; lists on native numbers, Boolean tests, maps as association lists
--   Ring           ByteRingBuffer; Ring.Inv has the invariant and the bytes held (`contents`)
--   Bytes          numbers in network order
--   Framing        TcpFraming, TlsFraming, both IpcFraming; Framing.Spec says what a frame is, and what
--                  it is to cut a stream (`Deframed`); `Framer` is the interface the reactors use
--   Queue          SpscQueue (Spsc), MpscQueue (Mpsc) and LockQueue (Lock) of shared/algorithm; Slots is
--                  the arithmetic of a circular buffer
--   Reactor        Receive and Transmit are the loops on one connection that TcpReactor and IpcReactor
--                  share; Tcp, Tls, Udp and Ipc are the handlers of the four reactors, Tcp.Run,
--                  Tls.Run and Ipc.Run the event loops; Tls.Receive and Tls.Transmit are the loops of
--                  TlsReactor, Tls.Interest what it asks of epoll
--   Packet, Codec  packets, PacketParser, the request parsers, the response builders
--   Session        Session and SessionManager; Session.Linked and Session.Run its two tables
--   Execution      the contexts, events and actions of serverd/execution, and ActionFactory
--   Router         RxRouter (Rx), TxRouter with PacketBuilder (Tx)
--   Shard          ShardManager's dispatch and commit, ShardWorker's queues and turn
--   Server         the workers of serverd/protocol and the shards, in any order of their turns
--   Server.Wakeup  enqueueRx, stop and the loop of a worker, with the eventfd of shared/io/Epoll.cpp
--   Ipc            IpcMessage
--   Control        the commands of the control socket: MarketContext (Market), CoreControl and
--                  IpcCommandHandler (Commands), IpcWorker (Worker); Json is the library as a record;
--                  Conversation is a command of mgmtd, over the socket and back
--   Database       DbManager: the pool of connections (Pool has its threads), the look-up of a password
--   Auth           the sessions of mgmtd/service/AuthService.cpp
--   Daemon         mgmtd: IpcClient (Client), StatsService with IpcCommandHandler (Stats), HttpCache
--                  (Cache), HttpRouter with the response of HttpSession to an exception (Http)
--   Simulator      serverd/simulator/Client.cpp, the test client
--   Tests          the theorems at concrete inputs
--
-- The management daemon (mgmtd) is a web server of its own. HttpRouter keeps the sessions of its users
-- and asks the server for statistics: IpcClient sends a JSON command over the control socket, where
-- IpcReactor cuts it out of the stream, and IpcWorker answers with what CoreControl collects.
--
-- State is passed explicitly: a handler takes the state and returns the next one with the calls that
-- it makes on epoll, sockets and queues. What the kernel, OpenSSL, the clock, RAND_bytes and the
-- database answer is an argument. Operations under a lock are one step; the threads of SpscQueue and
-- of MpscQueue take a step for each access to what they share, and their steps come in any order.
-- A `size_t` is a number below 2 ^ 64, and index arithmetic is written modulo 2 ^ 64. A descriptor
-- is the bit pattern of an `int`.
--
-- Fuel. The loop that cuts frames gets one round more than the ring holds bytes, and the loops of
-- `write` and `read` one more than the bytes asked for; each round uses a byte at least. A list of
-- answers of the kernel or of OpenSSL that ends too early ends a loop as `unanswered`.
--
-- Not modelled: the set-up of sockets and threads, OpenSSL, ODBC, the log, the figures that
-- /proc gives, HTTP itself (Boost.Beast), and the sockets of the simulator.
pub mod Prelude
pub mod Ring
pub mod Bytes
pub mod Framing
pub mod Packet
pub mod Reactor
pub mod Codec
pub mod Session
pub mod Execution
pub mod Shard
pub mod Router
pub mod Ipc
pub mod Queue
pub mod Server
pub mod Auth
pub mod Daemon
pub mod Control
pub mod Simulator
pub mod Database
pub mod Tests
