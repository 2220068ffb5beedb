-- ===== src/Packet.antt =====
-- serverd/packet/Packet.h, Packet.cpp, ParsedPacketTypes.h: a packet between the network threads and
-- the router. Integers of C++ are numbers below their width; a descriptor is the bit pattern of an
-- `int`, so that -1 is `no_fd`. A `sockaddr_in` is its address and port in host order.
use nf_engine.Prelude.{ℕ, ◌-◌, ◌^◌, List}

pub data Protocol : Type 0 where
  tcp udp tls unknown : Protocol

abbrev pub no_fd : ℕ
no_fd = 2 ^ 32 - 1

pub record Addr : Type 0 where
  pub ip : ℕ
  pub port : ℕ

pub record ConnInfo : Type 0 where
  pub protocol : Protocol
  pub src : Addr
  pub dst : Addr

pub record Packet : Type 0 where
  pub fd : ℕ
  pub conn_info : ConnInfo
  pub payload : List ℕ
  pub tx_offset : ℕ

-- The constructor.
unfoldable pub packet : ℕ → Protocol → List ℕ → Addr → Addr → Packet
packet fd proto payload src dst = record {
  fd = fd;
  conn_info = record { protocol = proto; src = src; dst = dst };
  payload = payload;
  tx_offset = 0;
}

-- Values of `enum class Opcode : uint8_t`: a cast from a byte may give any other value too.
abbrev pub login_req : ℕ
login_req = 0x10

abbrev pub login_success_res : ℕ
login_success_res = 0x11

abbrev pub login_fail_res : ℕ
login_fail_res = 0x12

abbrev pub lobby_entry_req : ℕ
lobby_entry_req = 0x20

abbrev pub lobby_entry_res : ℕ
lobby_entry_res = 0x21

abbrev pub ping_req : ℕ
ping_req = 0x90

abbrev pub ping_res : ℕ
ping_res = 0x91
