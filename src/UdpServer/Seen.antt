-- ===== src/UdpServer/Seen.antt =====
-- udp_server.cpp, request_handler: the map of half read requests.
use nohost_server.Base.{
  Bool, false, ◌||◌, Bool-cases, inl, inr, ℕ, suc, ◌-◌, ◌≡◌, refl, ap, ◌∙◌, fun_ext, List, [], ◌∷◌,
  ◌++◌, Option, none, some, append-nil, append_assoc, length, arith, ◌==◌, if◌then◌else◌,
}
use nohost_server.Command.Udp.{Datagram, UdpCall, udp_get_request}
use nohost_server.UdpServer.{
  ReadData, Allocated, Handler, erased, put_back, handle_one, handle_queue,
}

-- The map without the keys `seen`.
is_seen : ℕ → List ℕ → Bool
is_seen key [] = false
is_seen key (k ∷ seen) = k == key || is_seen key seen

pub kept : (ℕ → Option Datagram) → List ℕ → ℕ → Option Datagram
unfolding is_seen
kept m seen key = if is_seen key seen then none else m key

-- The calls for each datagram: with the request that the map held for its key at the start, if no
-- datagram before it had the key, and with a new one else.
abbrev pub calls_seen :
    (ℕ → Datagram) → (ℕ → Option Datagram) → List ℕ → List ReadData → Option (List UdpCall)
calls_seen alloc_req m seen [] = some []
calls_seen alloc_req m seen (r ∷ rest) =
    elim (udp_get_request alloc_req r.fd r.buf (kept m seen r.addr_key)) [
      | none ↦ none
      | some calls ↦ elim (calls_seen alloc_req m (r.addr_key ∷ seen) rest) [
        | none ↦ none
        | some more ↦ some (calls ++ more)
      ]
    ]

-- The keys of the datagrams, the last one first, before `seen`.
abbrev pub keys_of : List ℕ → List ReadData → List ℕ
keys_of seen [] = seen
keys_of seen (r ∷ rest) = keys_of (r.addr_key ∷ seen) rest

abbrev pub handler_of : (ℕ → Option Datagram) → List UdpCall → Allocated → Handler
handler_of m calls heap = record { req_map = m; calls = calls; heap = heap }

-- The handler with an empty map, and the memory without the buffers and structures of `n` datagrams.
abbrev pub no_requests : ℕ → Option Datagram
no_requests _ = none

abbrev pub begun : List UdpCall → Allocated → Handler
begun calls heap = handler_of no_requests calls heap

abbrev pub without : Allocated → ℕ → Allocated
without heap n = record heap { buffers = heap.buffers - n; structures = heap.structures - n }

-- The handler behind `n` datagrams, with the map `m`, if their calls are `o`.
abbrev pub handled :
    (ℕ → Option Datagram) → List UdpCall → Allocated → ℕ → Option (List UdpCall) → Option Handler
handled m asked heap n o = elim o [
  | none ↦ none
  | some calls ↦ some (handler_of m (asked ++ calls) (without heap n))
]

kept-erased :
    (m : ℕ → Option Datagram) (seen : List ℕ) (key : ℕ)
    → erased (kept m seen) key ≡ kept m (key ∷ seen)
unfolding erased kept is_seen
kept-erased m seen key =
    fun_ext
      (λ x. elim (Bool-cases (key == x)) [ inl same ↦ rw same refl | inr other ↦ rw other refl ])

pub kept-empty : (seen : List ℕ) (key : ℕ) → kept no_requests seen key ≡ none
unfolding kept
kept-empty seen key = elim (Bool-cases (is_seen key seen)) [
  | inl before ↦ rw before refl
  | inr fresh ↦ rw fresh refl
]

module _ (alloc_req : ℕ → Datagram) (m : ℕ → Option Datagram) where
  handle_one-kept :
      (r : ReadData) (seen : List ℕ) (asked : List UdpCall) (heap : Allocated)
      → handle_one alloc_req r (handler_of (kept m seen) asked heap)
        ≡ handled
            (kept m (r.addr_key ∷ seen))
            asked
            heap
            1
            (udp_get_request alloc_req r.fd r.buf (kept m seen r.addr_key))
  unfolding handle_one put_back
  handle_one-kept r seen asked heap =
      ap
        (λ after.
          handled after asked heap 1
            (udp_get_request alloc_req r.fd r.buf (kept m seen r.addr_key)))
        (kept-erased m seen r.addr_key)

  handled-next :
      (after : ℕ → Option Datagram) (asked calls : List UdpCall) (heap : Allocated) (n : ℕ)
      (o : Option (List UdpCall))
      → handled after (asked ++ calls) (without heap 1) n o
        ≡ handled after asked heap (suc n) (elim o as (λ _. Option (List UdpCall)) [
          | none ↦ none
          | some more ↦ some (calls ++ more)
        ])
  handled-next after asked calls heap n none = refl
  handled-next after asked calls heap n (some more) =
      let one : heap.buffers - 1 - n ≡ heap.buffers - suc n = omega arith in
      let two : heap.structures - 1 - n ≡ heap.structures - suc n = omega arith in
      rw (one, two, append_assoc) refl

  rest_handled :
      (rest : List ReadData) (seen : List ℕ) (asked : List UdpCall) (heap : Allocated)
      → ((a : List UdpCall) (b : Allocated)
          → handle_queue alloc_req rest (handler_of (kept m seen) a b)
            ≡ handled
                (kept m (keys_of seen rest))
                a
                b
                (length rest)
                (calls_seen alloc_req m seen rest))
      → (o : Option (List UdpCall))
      → elim (handled (kept m seen) asked heap 1 o) as (λ _. Option Handler) [
        | none ↦ none
        | some h ↦ handle_queue alloc_req rest h
      ]
        ≡ handled
            (kept m (keys_of seen rest))
            asked
            heap
            (suc (length rest))
            (elim o as (λ _. Option (List UdpCall)) [
              | none ↦ none
              | some calls ↦ elim (calls_seen alloc_req m seen rest) [
                | none ↦ none
                | some more ↦ some (calls ++ more)
              ]
            ])
  rest_handled rest seen asked heap others none = refl
  rest_handled rest seen asked heap others (some calls) =
      others (asked ++ calls) (without heap 1)
      ∙ handled-next (kept m (keys_of seen rest)) asked calls heap (length rest)
          (calls_seen alloc_req m seen rest)

  handle_queue-kept :
      (rs : List ReadData) (seen : List ℕ) (asked : List UdpCall) (heap : Allocated)
      → handle_queue alloc_req rs (handler_of (kept m seen) asked heap)
        ≡ handled (kept m (keys_of seen rs)) asked heap (length rs) (calls_seen alloc_req m seen rs)
  unfolding handle_queue
  handle_queue-kept [] seen asked heap =
      let one : heap.buffers - 0 ≡ heap.buffers = omega arith in
      let two : heap.structures - 0 ≡ heap.structures = omega arith in
      rw (one, two, append-nil) refl
  handle_queue-kept (r ∷ rest) seen asked heap =
      ap (λ o. elim o [ none ↦ none | some h ↦ handle_queue alloc_req rest h ])
        (handle_one-kept r seen asked heap)
      ∙ rest_handled rest (r.addr_key ∷ seen) asked heap
          (handle_queue-kept rest (r.addr_key ∷ seen))
          (udp_get_request alloc_req r.fd r.buf (kept m seen r.addr_key))

  -- request_handler on the datagrams of its queue, from any map of half read requests: each datagram
  -- is read into the request that the map held for its key at the start if no datagram before it
  -- had the key, and into a new request else; what udp_GetRequest asks for them is asked in their
  -- order. Behind it the map holds what it held, but for the keys of the datagrams, for which it
  -- holds nothing; and the buffer and the structure of each are freed, and the address of none. It
  -- stops where udp_GetRequest reads from before the buffer.
  pub handle_queue-seen :
      (rs : List ReadData) (asked : List UdpCall) (heap : Allocated)
      → handle_queue alloc_req rs (handler_of m asked heap)
        ≡ handled (kept m (keys_of [] rs)) asked heap (length rs) (calls_seen alloc_req m [] rs)
  unfolding kept is_seen
  handle_queue-seen rs asked heap = handle_queue-kept rs [] asked heap
