-- ===== src/Reactor/Udp.antt =====
-- serverd/protocol/udp/UdpReactor.cpp: the handlers that the event loop calls. What the kernel
-- answers (`recvfrom`, `sendto`) is an argument, one answer for each call; the calls that a handler
-- makes on the workers, the socket and epoll are listed in order.
pub mod Laws
use Prim.Native.Nat.{bit_xor}
use nf_engine.Prelude.{
  ℕ, suc, zero, ◌%◌, ◌<◌, List, [], ◌∷◌, ◌++◌, Bool, true, false, length, ltb, take, ◌==◌,
  if◌then◌else◌,
}
use nf_engine.Packet.{Addr, Packet, packet, udp}

-- UDP_MPSC_QUEUE_SIZE
abbrev pub queue_size : ℕ
queue_size = 65536

-- UDP_RECV_CHUNK_SIZE, the size of the buffer that `recvfrom` fills.
abbrev pub chunk_size : ℕ
chunk_size = 4096

-- `queue` holds the packets that are to be sent.
pub record UdpReactor : Type 0 where
  pub fd : ℕ
  pub server_addr : Addr
  pub workers : ℕ
  pub queue : List Packet

pub data Call : Type 0 where
  enqueue_rx : ℕ → Packet → Call
  send_to : Addr → List ℕ → Call
  wakeup : Call

-- One answer of `recvfrom`: the datagram in the socket, which may be empty, and of which the kernel
-- copies what the buffer holds and drops the rest; or an error: EINTR, EAGAIN, another.
pub data RecvFrom : Type 0 where
  datagram : Addr → List ℕ → RecvFrom
  intr again fail : RecvFrom

pub data SendTo : Type 0 where
  sent intr again fail : SendTo

-- The worker that the address and the port of the client select.
unfoldable pub worker : UdpReactor → Addr → ℕ
worker s client = bit_xor client.ip client.port % s.workers

unfoldable pub to_worker : UdpReactor → Addr → List ℕ → Call
unfolding worker
to_worker s client payload =
    enqueue_rx (worker s client) (packet s.fd udp payload client s.server_addr)

-- The loop ends where the events do; the code would wait for no more.
unfoldable pub receive_packets : UdpReactor → List RecvFrom → List Call
unfolding to_worker
receive_packets s [] = []
receive_packets s (datagram client payload ∷ events) =
    let bytes = take chunk_size payload in
    let rest = to_worker s client bytes ∷ receive_packets s events in
    if length bytes == 0 then [] else rest
receive_packets s (intr ∷ events) = receive_packets s events
receive_packets s (again ∷ events) = []
receive_packets s (fail ∷ events) = []

-- `m_txQueue->enqueue`: a packet that finds the queue full is destroyed.
unfoldable pub push : UdpReactor → Packet → UdpReactor × Bool
push s pkt =
    if ltb (length s.queue) queue_size
    then (record s { queue = s.queue ++ pkt ∷ [] }, true)
    else (s, false)

-- `enqueueTx`, called by the router.
unfoldable pub enqueue_tx : UdpReactor → Packet → UdpReactor × List Call
unfolding push
enqueue_tx s pkt = let (s', taken) = push s pkt in if taken then (s', wakeup ∷ []) else (s', [])

-- What `flushPacket` does after the call of `sendto`.
unfoldable pub after_send : UdpReactor → Packet → SendTo → UdpReactor × List Call
unfolding push
after_send s pkt sent = (s, [])
after_send s pkt again = ((push s pkt).0, wakeup ∷ [])
after_send s pkt intr = ((push s pkt).0, [])
after_send s pkt fail = (s, [])

unfoldable pub flush_packet : UdpReactor → Packet → SendTo → UdpReactor × List Call
unfolding after_send
flush_packet s pkt answer =
    let (s', calls) = after_send s pkt answer in (s', send_to pkt.conn_info.dst pkt.payload ∷ calls)

-- The answers are numbered by the packets.
unfoldable pub flush_packets : UdpReactor → List Packet → (ℕ → SendTo) → UdpReactor × List Call
unfolding flush_packet
flush_packets s [] answers = (s, [])
flush_packets s (pkt ∷ more) answers =
    let (s', calls) = flush_packet s pkt (answers 0) in
    let (s'', calls') = flush_packets s' more (λ i. answers (suc i)) in (s'', calls ++ calls')

-- `dequeueAll` empties the queue first.
unfoldable pub process_tx_queue : UdpReactor → (ℕ → SendTo) → UdpReactor × List Call
unfolding flush_packets
process_tx_queue s answers = flush_packets (record s { queue = [] }) s.queue answers
