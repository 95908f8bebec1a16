-- ===== src/Mpmc/Tests.antt =====
-- A ring of two cells through which a thread sends an element to another.
use nohost_server.Base.{ℕ, ◌+◌, ◌^◌, ◌≡◌, ◌<◌, ◌≤◌, ◌⊎◌, refl, some, none, false, arith, store}
use nohost_server.Mpmc.{Ring, create, look}
use nohost_server.Mpmc.Steps.{
  System, Reach, here, next, pick, begin_enqueue, load_head, cell_free, head_taken, written,
  published, begin_dequeue, load_tail, cell_used, tail_taken, read, freed, Thread,
}
use nohost_server.Mpmc.Invariant.{Used, dequeue_ticket}
use nohost_server.Mpmc.Solo.{Finishes}
use nohost_server.Mpmc.Solo.Calls.{Reach-Finishes}
use nohost_server.Mpmc.Delivery.{Reach-delivers, Reach-accounted}
use nohost_server.Mpmc.Exclusive.{cell_of, Reach-exclusive}
use nohost_server.Mpmc.Alone.{dequeue_alone, isempty_alone, isempty-loses}

abbrev two : Ring
two = record { mask = 1; contents = λ _. 0; seq = λ i. i; head_seq = 0; tail_seq = 0 }

made : create (2 ^ 1) ≡ some two
unfolding create
made = refl

-- Thread 3 has sent 7, and thread 5 is about to take it.
abbrev ready : System
ready = record {
  mem = record {
    ring = record two {
      contents = store two.contents 0 7;
      seq = store two.seq 0 1;
      head_seq = 1;
      tail_seq = 0;
    };
    sent = store (λ _. 0) 0 7;
    sent_count = 1;
    got = λ _. none;
  };
  threads =
      store
        (store
          (store
            (store
              (store
                (store
                  (store
                    (store (store (λ _. Thread.idle) 3 (Thread.e_load 7)) 3 (Thread.e_look 7 0)) 3
                    (Thread.e_swap 7 0))
                  3 (Thread.e_write 7 0))
                3 (Thread.e_publish 7 0))
              3 Thread.idle)
            5 Thread.d_load)
          5 (Thread.d_look 0))
        5 (Thread.d_swap 0);
}

reached_ready : Reach two ready
unfolding look
reached_ready =
    next
      (next
        (next
          (next
            (next
              (next
                (next (next (next here (pick 3 (begin_enqueue 7))) (pick 3 load_head))
                  (pick 3 (cell_free refl)))
                (pick 3 (head_taken refl)))
              (pick 3 written))
            (pick 3 published))
          (pick 5 begin_dequeue))
        (pick 5 load_tail))
      (pick 5 (cell_used refl))

-- Thread 5 holds the ticket to get it.
abbrev held : System
held = record {
  mem = record (ready.mem) { ring = record (ready.mem.ring) { tail_seq = 1 } };
  threads = store ready.threads 5 (Thread.d_read 0);
}

reached : Reach two held
reached = next reached_ready (pick 5 (tail_taken refl))

Reach-accounted_example :
    (1 ≤ 1)
    × (1 ≤ 1 + 2 ^ 1)
    × ((1 ≤ 0)
        ⊎ (((1 ≤ 0) × Used held.mem 0)
            ⊎ ((0 < 1)
                × ((held.mem.got 0 ≡ some 7)
                    ⊎ ((i : ℕ) × (dequeue_ticket (held.threads i) ≡ some 0))))))
Reach-accounted_example =
    Reach-accounted 1 {r = two} {s = held} 0 (omega arith) (omega arith) made reached (omega arith)

Reach-exclusive_example : ¬ (
    (cell_of held.mem.ring (held.threads 5) ≡ some 0)
    × (cell_of held.mem.ring (held.threads 3) ≡ some 0))
Reach-exclusive_example =
    Reach-exclusive 1 {r = two} {s = held} 5 3 0 (omega arith) (omega arith) made reached
      (omega arith) (omega arith)

Reach-Finishes_example : Finishes 6 held.mem (held.threads 5)
Reach-Finishes_example =
    Reach-Finishes 1 {r = two} {s = held} 5 (omega arith) (omega arith) made reached (omega arith)

-- The same after the end of that call.
abbrev done : System
done = record {
  mem = record {
    ring = record two {
      contents = store two.contents 0 7;
      seq = store (store two.seq 0 1) 0 2;
      head_seq = 1;
      tail_seq = 1;
    };
    sent = store (λ _. 0) 0 7;
    sent_count = 1;
    got = store (λ _. none) 0 (some 7);
  };
  threads = store (store held.threads 5 (Thread.d_publish 0 7)) 5 Thread.idle;
}

reached_done : Reach two done
reached_done = next (next reached (pick 5 read)) (pick 5 freed)

Reach-delivers_example : (7 ≡ done.mem.sent 0) × (0 < 1)
Reach-delivers_example =
    Reach-delivers 1 {r = two} {s = done} 0 7 (omega arith) (omega arith) made reached_done
      (omega arith) refl

-- Two elements in the ring.
abbrev both_in : Ring
both_in = record {
  mask = 1;
  contents = store (store (λ _. 0) 0 7) 1 8;
  seq = λ i. i + 1;
  head_seq = 2;
  tail_seq = 0;
}

isempty-loses_example :
    (r' : Ring) × (r'' : Ring) × (isempty_alone both_in ≡ some (r', false))
    × (dequeue_alone both_in ≡ some (r'', some 7))
    × ((q : Ring) × (dequeue_alone r' ≡ some (q, some 8)))
isempty-loses_example = isempty-loses both_in refl refl
