-- ===== src/Reactor.antt =====
-- The reactors' event handlers: serverd/protocol/tcp/TcpReactor.cpp, serverd/protocol/tls/TlsReactor.cpp
-- serverd/protocol/udp/UdpReactor.cpp and serverd/ipc/IpcReactor.cpp.
pub mod Receive
pub mod Transmit
pub mod Tcp
pub mod Ipc
pub mod Tls
pub mod Udp
