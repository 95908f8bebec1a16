-- ===== src/Spsc/Steps.antt =====
-- The producer and the consumer as threads whose steps interleave, and the history of a run.
use nohost_server.Base.{ℕ, ◌+◌, ◌≡◌, true, store, bit_and, add64}
use nohost_server.Spsc.{Ring, has_room, has_item}

-- Where enqueue stands: before it, past its test (with `head` and `input`), past its write.
pub data Producer : Type 0 where
  ready : Producer
  admitted : ℕ → ℕ → Producer
  written : ℕ → ℕ → Producer

-- Where dequeue stands: before it, past its test (with `tail`), past its read of the element.
pub data Consumer : Type 0 where
  ready : Consumer
  admitted : ℕ → Consumer
  fetched : ℕ → ℕ → Consumer

-- `sent` and `received` are the history: the elements of the calls that returned true, counted.
pub record System : Type 0 where
  pub ring : Ring
  pub producer : Producer
  pub consumer : Consumer
  pub sent : ℕ → ℕ
  pub sent_count : ℕ
  pub received : ℕ → ℕ
  pub received_count : ℕ

abbrev pub start : Ring → System
start r = record {
  ring = r;
  producer = Producer.ready;
  consumer = Consumer.ready;
  sent = λ _. 0;
  sent_count = 0;
  received = λ _. 0;
  received_count = 0;
}

-- A call whose test fails returns false and changes nothing, so it is no step.
pub data Step (s : System) : System → Type 0 where
  enqueue_test :
      (input : ℕ)
      → s.producer ≡ Producer.ready
      → has_room s.ring.mask s.ring.head s.ring.tail ≡ true
      → Step s (record s { producer = Producer.admitted s.ring.head input })
  enqueue_write :
      (head input : ℕ)
      → s.producer ≡ Producer.admitted head input
      → Step s (record s {
        ring = record (s.ring) { buffer = store s.ring.buffer (bit_and head s.ring.mask) input };
        producer = Producer.written head input;
      })
  enqueue_publish :
      (head input : ℕ)
      → s.producer ≡ Producer.written head input
      → Step s (record s {
        ring = record (s.ring) { head = add64 head 1 };
        producer = Producer.ready;
        sent = store s.sent s.sent_count input;
        sent_count = s.sent_count + 1;
      })
  dequeue_test :
      s.consumer ≡ Consumer.ready
      → has_item s.ring.mask s.ring.head s.ring.tail ≡ true
      → Step s (record s { consumer = Consumer.admitted s.ring.tail })
  dequeue_read :
      (tail : ℕ)
      → s.consumer ≡ Consumer.admitted tail
      → Step s (record s {
        consumer = Consumer.fetched tail (s.ring.buffer (bit_and s.ring.tail s.ring.mask));
      })
  dequeue_publish :
      (tail output : ℕ)
      → s.consumer ≡ Consumer.fetched tail output
      → Step s (record s {
        ring = record (s.ring) { tail = add64 tail 1 };
        consumer = Consumer.ready;
        received = store s.received s.received_count output;
        received_count = s.received_count + 1;
      })

pub data Reach (r : Ring) : System → Type 0 where
  here : Reach r (start r)
  next : {s t : System} → Reach r s → Step s t → Reach r t
