-- ===== src/UdpServer/Tests.antt =====
-- A datagram for target 12, a write of the key 123; then recvfrom has no data.
use nohost_server.Base.{
  ℕ, ◌+◌, ◌%◌, ◌^◌, ◌≡◌, ◌↔◌, refl, List, [], ◌∷◌, Option, none, some, store, blit, codes, length,
  arith,
}
use nohost_server.Command.Udp.{Datagram, udp_allocated, udp_made, udp_get_request}
use nohost_server.UdpServer.{
  Sender, ReadData, Handler, Arrival, arrived, no_event, would_block, key_of_sender, handle_queue,
  receive_loop,
}
use nohost_server.UdpServer.Keys.{key_of_sender-equal_iff}
use nohost_server.UdpServer.Seen.{begun, handled, handler_of, kept, calls_seen, handle_queue-seen}
use nohost_server.UdpServer.Handling.{calls_for, started, left_behind, receive_loop-leaks}

abbrev new_request : ℕ → Datagram
new_request fd = record { fd = fd; target_fd = 0; kind = 0; key = 0 }

abbrev sender : Sender
sender = record { port_high = 31; port_low = 144; a = 10; b = 0; c = 0; d = 7 }

key_of_sender-equal_iff_example :
    (key_of_sender 5 sender ≡ key_of_sender (5 + 2 ^ 24) sender)
    ↔ (5 % 2 ^ 24 ≡ (5 + 2 ^ 24) % 2 ^ 24)
key_of_sender-equal_iff_example =
    key_of_sender-equal_iff 5 (5 + 2 ^ 24) sender (omega arith) (omega arith)

abbrev one_datagram : List Arrival
one_datagram =
    no_event ∷ (arrived (λ _. 48) 5 sender (codes "001201030000000123") ∷ (would_block ∷ []))

abbrev write_123 : Datagram
write_123 = record { fd = 3; target_fd = 12; kind = 1; key = 124 }

asked_for :
    calls_for new_request (receive_loop 3 one_datagram started).queue
    ≡ some (udp_allocated write_123 ∷ (udp_made write_123 ∷ []))
unfolding receive_loop udp_get_request blit
asked_for = refl

receive_loop-leaks_example :
    (h : Handler) × (handle_queue new_request
        (receive_loop 3 one_datagram started).queue
        (begun [] (receive_loop 3 one_datagram started).heap)
      ≡ some h)
    × (h.calls ≡ udp_allocated write_123 ∷ (udp_made write_123 ∷ []))
    × (h.heap.structures ≡ 0)
    × (h.heap.buffers ≡ left_behind one_datagram)
    × (h.heap.addresses
        ≡ length (receive_loop 3 one_datagram started).queue + left_behind one_datagram)
receive_loop-leaks_example = receive_loop-leaks one_datagram 3 new_request _ asked_for

abbrev read_data : ReadData
read_data = record {
  fd = 3;
  buf = blit (λ _. 48) 0 (codes "001201030000000123");
  nread = 18;
  addr = sender;
  addr_key = 9;
}

-- A request of an earlier datagram of the key 9, whose key was 5.
abbrev half_read : ℕ → Option Datagram
half_read = store (λ _. none) 9 (some (record { fd = 3; target_fd = 0; kind = 0; key = 5 }))

handle_queue-seen_example :
    handle_queue new_request
      (read_data ∷ (read_data ∷ []))
      (handler_of half_read [] (record { buffers = 2; addresses = 2; structures = 2 }))
    ≡ handled
        (kept half_read (9 ∷ (9 ∷ [])))
        []
        (record { buffers = 2; addresses = 2; structures = 2 })
        2
        (calls_seen new_request half_read [] (read_data ∷ (read_data ∷ [])))
handle_queue-seen_example =
    handle_queue-seen new_request half_read (read_data ∷ (read_data ∷ [])) []
      (record { buffers = 2; addresses = 2; structures = 2 })
