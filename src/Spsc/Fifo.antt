-- ===== src/Spsc/Fifo.antt =====
-- lockfreeq.h: the ring under every interleaving, as a channel of `size - 1` places.
use nohost_server.Base.{
  ℕ, ◌+◌, ◌^◌, ◌≤◌, ◌<◌, ◌≡◌, refl, true, arith, ltb, ltb→lt, not, Bool-cases, inl, inr, ap, some,
  none, if◌then◌else◌, ◌∙◌,
}
use nohost_server.Spsc.{Ring, has_room, has_item, create, isempty, enqueue, dequeue}
use nohost_server.Spsc.Steps.{Producer, System, Step, Reach}
use nohost_server.Spsc.Counts.{has_room_iff, has_item_iff}
use nohost_server.Spsc.Invariant.{Reach-Inv, index_received}

-- In every state that calls of one producer and one consumer reach from a new ring of 2^k cells,
-- however their steps interleave, the elements received are the first ones sent, in order, and
-- fewer than 2^k elements are in the ring.
pub Reach-fifo :
    (k : ℕ) {r : Ring} {s : System}
    → k ≤ 63
    → create (2 ^ k) ≡ some r
    → Reach r s
    → (s.received_count ≤ s.sent_count)
      × (s.sent_count < s.received_count + 2 ^ k)
      × ((j : ℕ) → j < s.received_count → s.received j ≡ s.sent j)
Reach-fifo k small e reach = let v = Reach-Inv k small e reach in (v.ordered, v.near, v.in_order)

-- In every such state dequeue, between two calls, returns the next element that was sent and not
-- received, and false exactly when there is none; isempty tells the same.
pub Reach-dequeue :
    (k : ℕ) {r : Ring} {s : System}
    → k ≤ 63
    → create (2 ^ k) ≡ some r
    → Reach r s
    → ((dequeue s.ring).1
        ≡ (if ltb s.received_count s.sent_count then some (s.sent s.received_count) else none))
      × (isempty s.ring ≡ not (ltb s.received_count s.sent_count))
unfolding dequeue isempty
Reach-dequeue k {r} {s} small e reach =
    let v = Reach-Inv k small e reach in
    let test : has_item s.ring.mask s.ring.head s.ring.tail ≡ ltb s.received_count s.sent_count =
      rw (v.masked, v.headed, v.tailed)
        (has_item_iff k s.sent_count s.received_count small v.ordered v.near) in
    elim (Bool-cases (ltb s.received_count s.sent_count)) [
      | inl some_left ↦
          let got = v.stored s.received_count (omega arith) (ltb→lt _ _ some_left) in
          (
            rw (test, some_left) (ap some (ap s.ring.buffer (index_received k small v) ∙ got)),
            rw (test, some_left),
          )
      | inr empty ↦ (rw (test, empty), rw (test, empty))
    ]

-- In every such state enqueue, between two calls, is accepted exactly when fewer than 2^k - 1
-- elements are in the ring.
pub Reach-enqueue_room :
    (k : ℕ) {r : Ring} {s : System} (input : ℕ)
    → k ≤ 63
    → create (2 ^ k) ≡ some r
    → Reach r s
    → (enqueue s.ring input).1 ≡ ltb (s.sent_count + 1) (s.received_count + 2 ^ k)
unfolding enqueue
Reach-enqueue_room k {r} {s} input small e reach =
    let v = Reach-Inv k small e reach in
    let test : has_room s.ring.mask s.ring.head s.ring.tail
        ≡ ltb (s.sent_count + 1) (s.received_count + 2 ^ k) =
      rw (v.masked, v.headed, v.tailed)
        (has_room_iff k s.sent_count s.received_count small v.ordered v.near) in
    ground (arith, test)

-- The three steps of the producer, taken one after the other in a reachable state where enqueue is
-- accepted, lead to the ring that enqueue returns, with one element more sent: the argument.
pub Reach-enqueue :
    {r : Ring} {s : System} (input : ℕ)
    → Reach r s
    → s.producer ≡ Producer.ready
    → (enqueue s.ring input).1 ≡ true
    → (t : System) × Reach r t
      × (t.ring ≡ (enqueue s.ring input).0)
      × (t.sent_count ≡ s.sent_count + 1)
      × (t.sent s.sent_count ≡ input)
unfolding enqueue
Reach-enqueue {r} {s} input reach ready accepted =
    let open_cell : has_room s.ring.mask s.ring.head s.ring.tail ≡ true = ground arith in
    let first = Reach.next reach (Step.enqueue_test input ready open_cell) in
    let second = Reach.next first (Step.enqueue_write s.ring.head input refl) in
    let third = Reach.next second (Step.enqueue_publish s.ring.head input refl) in
    (_, third, ground arith, refl, ground arith)
