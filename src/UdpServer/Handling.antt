-- ===== src/UdpServer/Handling.antt =====
-- udp_server.cpp: what becomes of the datagrams that arrive.
use nohost_server.Base.{
  ℕ, ◌+◌, ◌≡◌, refl, ap, ◌∙◌, List, [], ◌∷◌, ◌++◌, Option, none, some, length, length-append, arith,
}
use nohost_server.Command.Udp.{Datagram, UdpCall, udp_get_request}
use nohost_server.UdpServer.{
  ReadData, Handler, Receiver, Arrival, poll_failed, timed_out, no_event, other_event, would_block,
  recv_failed, arrived, handle_queue, received, receive_loop,
}
use nohost_server.UdpServer.Seen.{
  kept, calls_seen, keys_of, handler_of, no_requests, begun, without, handled, kept-empty,
  handle_queue-seen,
}

-- The calls for each datagram as if it were the first.
abbrev pub calls_for : (ℕ → Datagram) → List ReadData → Option (List UdpCall)
calls_for alloc_req [] = some []
calls_for alloc_req (r ∷ rest) = elim (udp_get_request alloc_req r.fd r.buf none) [
  | none ↦ none
  | some calls ↦ elim (calls_for alloc_req rest) [ none ↦ none | some more ↦ some (calls ++ more) ]
]

-- From an empty map each datagram is treated alone.
calls_seen-alone :
    (alloc_req : ℕ → Datagram) (seen : List ℕ) (rs : List ReadData)
    → calls_seen alloc_req no_requests seen rs ≡ calls_for alloc_req rs
calls_seen-alone alloc_req seen [] = refl
calls_seen-alone alloc_req seen (r ∷ rest) =
    ap {A = Option Datagram}
      (λ o. elim (udp_get_request alloc_req r.fd r.buf o) as (λ _. Option (List UdpCall)) [
        | none ↦ none
        | some calls ↦ elim (calls_seen alloc_req no_requests (r.addr_key ∷ seen) rest) [
          | none ↦ none
          | some more ↦ some (calls ++ more)
        ]
      ])
      (kept-empty seen r.addr_key)
    ∙ ap {A = Option (List UdpCall)}
        (λ p. elim (udp_get_request alloc_req r.fd r.buf none) as (λ _. Option (List UdpCall)) [
          | none ↦ none
          | some calls ↦ elim p as (λ _. Option (List UdpCall)) [
            | none ↦ none
            | some more ↦ some (calls ++ more)
          ]
        ])
        (calls_seen-alone alloc_req (r.addr_key ∷ seen) rest)

-- What receive_loop is left with when recvfrom has no data: a buffer and an address.
abbrev pub left_behind : List Arrival → ℕ
left_behind [] = 0
left_behind (poll_failed ∷ rest) = 0
left_behind (timed_out ∷ rest) = 0
left_behind (no_event ∷ rest) = left_behind rest
left_behind (other_event ∷ rest) = 0
left_behind (would_block ∷ rest) = 1
left_behind (recv_failed ∷ rest) = 0
left_behind (arrived garbage garbage_key sender bytes ∷ rest) = left_behind rest

-- Each datagram in the queue has a buffer, an address and a structure.
record Held (s : Receiver) (extra : ℕ) : Type 0 where
  buffers : s.heap.buffers ≡ length s.queue + extra
  addresses : s.heap.addresses ≡ length s.queue + extra
  structures : s.heap.structures ≡ length s.queue

receive_loop-Held :
    (arrivals : List Arrival) (fd : ℕ) (s : Receiver)
    → Held s 0
    → Held (receive_loop fd arrivals s) (left_behind arrivals)
unfolding receive_loop received
receive_loop-Held [] fd s held = held
receive_loop-Held (poll_failed ∷ rest) fd s held = held
receive_loop-Held (timed_out ∷ rest) fd s held = held
receive_loop-Held (no_event ∷ rest) fd s held = receive_loop-Held rest fd s held
receive_loop-Held (other_event ∷ rest) fd s held = held
receive_loop-Held (would_block ∷ rest) fd s held =
    let buffers = held.buffers in
    let addresses = held.addresses in
    record {
      buffers = omega (arith, buffers);
      addresses = omega (arith, addresses);
      structures = held.structures;
    }
receive_loop-Held (recv_failed ∷ rest) fd s held = held
receive_loop-Held (arrived garbage garbage_key sender bytes ∷ rest) fd s held =
    let buffers = held.buffers in
    let addresses = held.addresses in
    let structures = held.structures in
    let grown = λ (r : ReadData). length-append s.queue (r ∷ []) in
    receive_loop-Held rest fd (received fd garbage garbage_key sender bytes s) (record {
      buffers = omega (arith, buffers, grown _);
      addresses = omega (arith, addresses, grown _);
      structures = omega (arith, structures, grown _);
    })

abbrev pub started : Receiver
started = record { queue = []; heap = record { buffers = 0; addresses = 0; structures = 0 } }

-- The receiving loop, and then the handler on all that it queued, if no datagram has a key that is too
-- long: every structure is freed, and every buffer but the one that a recvfrom without data leaves;
-- of the addresses of the datagrams none is freed.
pub receive_loop-leaks :
    (arrivals : List Arrival) (fd : ℕ) (alloc_req : ℕ → Datagram) (calls : List UdpCall)
    → calls_for alloc_req (receive_loop fd arrivals started).queue ≡ some calls
    → (h : Handler) × (handle_queue alloc_req
          (receive_loop fd arrivals started).queue
          (begun [] (receive_loop fd arrivals started).heap)
        ≡ some h)
      × (h.calls ≡ calls)
      × (h.heap.structures ≡ 0)
      × (h.heap.buffers ≡ left_behind arrivals)
      × (h.heap.addresses ≡ length (receive_loop fd arrivals started).queue + left_behind arrivals)
receive_loop-leaks arrivals fd alloc_req calls run =
    let s = receive_loop fd arrivals started in
    let held =
      receive_loop-Held arrivals fd started
        (record { buffers = refl; addresses = refl; structures = refl }) in
    let buffers = held.buffers in
    let structures = held.structures in
    (
      handler_of (kept no_requests (keys_of [] s.queue)) calls (without s.heap (length s.queue)),
      handle_queue-seen alloc_req no_requests s.queue [] s.heap
          ∙ ap (handled (kept no_requests (keys_of [] s.queue)) [] s.heap (length s.queue))
              (calls_seen-alone alloc_req [] s.queue ∙ run),
      refl,
      omega (arith, structures),
      omega (arith, buffers),
      held.addresses,
    )
