-- ===== src/UdpServer.antt =====
-- udp_server.cpp: the loop of main that receives datagrams, and request_handler, which hands them to
-- udp_GetRequest of command.c. The answers of poll(2) and recvfrom(2), and what malloc's memory holds
-- at first, are arguments. The queue between the two is a list here, its capacity left out: the loop
-- tries again until a place is free.
pub mod Keys
pub mod Seen
pub mod Handling
mod Tests
use nohost_server.Base.{
  ℕ, zero, suc, ◌+◌, ◌-◌, ◌*◌, ◌%◌, ◌^◌, List, [], ◌∷◌, ◌++◌, Option, none, some, Memory, blit,
  length, add64, int_of_char, ◌==◌, if◌then◌else◌, store,
}
use nohost_server.Command.Udp.{Datagram, UdpCall, extended, udp_get_request, udp_returned}

-- The first six bytes of `sa_data` of a sender: its port and its address.
pub record Sender : Type 0 where
  pub port_high : ℕ
  pub port_low : ℕ
  pub a : ℕ
  pub b : ℕ
  pub c : ℕ
  pub d : ℕ

pub record ReadData : Type 0 where
  pub fd : ℕ
  pub buf : Memory
  pub nread : ℕ
  pub addr : Sender
  pub addr_key : ℕ

-- The `char` is signed; `key += c; key <<= 8;` on 64 bits.
key_step : ℕ → ℕ → ℕ
key_step key c = add64 key (extended (int_of_char c)) * 2 ^ 8 % 2 ^ 64

-- `garbage` is what the field holds before: the memory is malloc's.
pub key_of_sender : ℕ → Sender → ℕ
unfolding key_step
key_of_sender garbage s =
    let k1 = key_step garbage s.port_high in
    let k2 = key_step k1 s.port_low in
    let k3 = key_step k2 s.a in
    let k4 = key_step k3 s.b in let k5 = key_step k4 s.c in add64 k5 (extended (int_of_char s.d))

-- What a round of the loop meets: poll fails, runs out, tells no event or another than POLLIN; or
-- recvfrom fails, for want of data or else, or gives bytes of a sender. The other arguments of
-- `arrived` are the memory of the buffer and of the key before.
pub data Arrival : Type 0 where
  poll_failed : Arrival
  timed_out : Arrival
  no_event : Arrival
  other_event : Arrival
  would_block : Arrival
  recv_failed : Arrival
  arrived : Memory → ℕ → Sender → List ℕ → Arrival

-- The blocks of memory that malloc gave and that are not freed: buffers, addresses, and structures.
pub record Allocated : Type 0 where
  pub buffers : ℕ
  pub addresses : ℕ
  pub structures : ℕ

pub record Receiver : Type 0 where
  pub queue : List ReadData
  pub heap : Allocated

pub received : ℕ → Memory → ℕ → Sender → List ℕ → Receiver → Receiver
unfolding key_of_sender
received fd garbage garbage_key sender bytes s = record {
  queue =
      s.queue
      ++ record {
        fd = fd;
        buf = blit garbage 0 bytes;
        nread = length bytes;
        addr = sender;
        addr_key = key_of_sender garbage_key sender;
      }
        ∷ [];
  heap = record {
    buffers = s.heap.buffers + 1;
    addresses = s.heap.addresses + 1;
    structures = s.heap.structures + 1;
  };
}

-- The loop; but for `no_event` and `arrived` it is left. Where recvfrom has no data, what was
-- allocated for it is not freed.
pub receive_loop : ℕ → List Arrival → Receiver → Receiver
unfolding received
receive_loop fd [] s = s
receive_loop fd (poll_failed ∷ rest) s = s
receive_loop fd (timed_out ∷ rest) s = s
receive_loop fd (no_event ∷ rest) s = receive_loop fd rest s
receive_loop fd (other_event ∷ rest) s = s
receive_loop fd (would_block ∷ rest) s = record s {
  heap = record (s.heap) { buffers = s.heap.buffers + 1; addresses = s.heap.addresses + 1 };
}
receive_loop fd (recv_failed ∷ rest) s = s
receive_loop fd (arrived garbage garbage_key sender bytes ∷ rest) s =
    receive_loop fd rest (received fd garbage garbage_key sender bytes s)

-- `req_map`, what the handler has asked for, and the memory.
pub record Handler : Type 0 where
  pub req_map : ℕ → Option Datagram
  pub calls : List UdpCall
  pub heap : Allocated

erased : (ℕ → Option Datagram) → ℕ → ℕ → Option Datagram
erased m key = store m key none

-- `req_map.insert`, if the result is not NULL.
put_back : (ℕ → Option Datagram) → ℕ → Option Datagram → ℕ → Option Datagram
put_back m key none = m
put_back m key (some req) = store m key (some req)

-- A round of request_handler; `none`: udp_GetRequest reads from before the buffer. The address is not
-- freed.
pub handle_one : (ℕ → Datagram) → ReadData → Handler → Option Handler
unfolding erased put_back
handle_one alloc_req r h = elim (udp_get_request alloc_req r.fd r.buf (h.req_map r.addr_key)) [
  | none ↦ none
  | some calls ↦ some (record {
    req_map = put_back (erased h.req_map r.addr_key) r.addr_key udp_returned;
    calls = h.calls ++ calls;
    heap = record (h.heap) { buffers = h.heap.buffers - 1; structures = h.heap.structures - 1 };
  })
]

pub handle_queue : (ℕ → Datagram) → List ReadData → Handler → Option Handler
unfolding handle_one
handle_queue alloc_req [] h = some h
handle_queue alloc_req (r ∷ rest) h = elim (handle_one alloc_req r h) [
  | none ↦ none
  | some h' ↦ handle_queue alloc_req rest h'
]
