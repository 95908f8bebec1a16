-- ===== src/Spsc/Tests.antt =====
-- A ring of four cells with one element in it.
use nohost_server.Base.{ℕ, ◌+◌, ◌^◌, ◌<◌, ◌≤◌, ◌≡◌, refl, true, some, arith, store}
use nohost_server.Spsc.{Ring, create, enqueue, has_room}
use nohost_server.Spsc.Steps.{System, Step, Reach, start}
use nohost_server.Spsc.Fifo.{Reach-fifo}

abbrev four : Ring
four = record { size = 4; mask = 3; buffer = λ _. 0; head = 0; tail = 0 }

made : create (2 ^ 2) ≡ some four
unfolding create
made = refl

abbrev one_in : System
one_in = record (start four) {
  ring = record four { buffer = store four.buffer 0 7; head = 1 };
  sent = store (λ _. 0) 0 7;
  sent_count = 1;
}

reached : Reach four one_in
unfolding has_room
reached =
    Reach.next
      (Reach.next (Reach.next Reach.here (Step.enqueue_test 7 refl refl))
        (Step.enqueue_write 0 7 refl))
      (Step.enqueue_publish 0 7 refl)

Reach-fifo_example :
    (0 ≤ 1) × (1 < 0 + 2 ^ 2) × ((j : ℕ) → j < 0 → one_in.received j ≡ one_in.sent j)
Reach-fifo_example = Reach-fifo 2 {r = four} {s = one_in} (omega arith) made reached

accepted : (enqueue one_in.ring 9).1 ≡ true
unfolding enqueue has_room
accepted = refl
