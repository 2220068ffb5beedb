-- ===== src/Reactor/Transmit/Laws.antt =====
-- About the transmit ring of a connection in TcpReactor.cpp and IpcReactor.cpp: bytes in line and sent.
use nf_engine.Ring.{Ring}
