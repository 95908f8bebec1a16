-- ===== src/Mpmc/Steps.antt =====
-- Threads that call enqueue and dequeue, and the history of a run.
use nohost_server.Base.{ℕ, ◌+◌, ◌≡◌, Option, none, some, store, add64}
use nohost_server.Mpmc.{Ring, slot, seq_at, look, claim, give_up, reload}

-- Where a thread stands: outside, or before an operation. `e_` is in enqueue with its argument, `d_`
-- in dequeue; a number behind is the value of `head_seq` or `tail_seq`.
pub data Thread : Type 0 where
  idle : Thread
  e_load : ℕ → Thread
  e_look : ℕ → ℕ → Thread
  e_swap : ℕ → ℕ → Thread
  e_write : ℕ → ℕ → Thread
  e_publish : ℕ → ℕ → Thread
  d_load : Thread
  d_look : ℕ → Thread
  d_swap : ℕ → Thread
  d_read : ℕ → Thread
  d_publish : ℕ → ℕ → Thread

-- The ring, with the history: the `j`-th ticket of enqueue was given for the element `sent j`, and the
-- call of dequeue with the ticket `j` returned `got j`.
pub record History : Type 0 where
  pub ring : Ring
  pub sent : ℕ → ℕ
  pub sent_count : ℕ
  pub got : ℕ → Option ℕ

-- What the operations change.
abbrev pub take_head : History → ℕ → History
take_head m x = record m {
  ring = record (m.ring) { head_seq = add64 m.ring.head_seq 1 };
  sent = store m.sent m.sent_count x;
  sent_count = m.sent_count + 1;
}

abbrev pub write_cell : History → ℕ → ℕ → History
write_cell m h x = record m {
  ring = record (m.ring) { contents = store m.ring.contents (slot m.ring h) x };
}

abbrev pub publish_cell : History → ℕ → History
publish_cell m h = record m {
  ring = record (m.ring) { seq = store m.ring.seq (slot m.ring h) (add64 h 1) };
}

abbrev pub take_tail : History → History
take_tail m = record m { ring = record (m.ring) { tail_seq = add64 m.ring.tail_seq 1 } }

abbrev pub free_cell : History → ℕ → ℕ → History
free_cell m t x = record m {
  ring = record (m.ring) { seq = store m.ring.seq (slot m.ring t) (add64 (add64 t m.ring.mask) 1) };
  got = store m.got t (some x);
}

-- One operation of a thread. compare_exchange_weak may fail at any time; it then loads the counter.
pub data Move (m : History) : Thread → History → Thread → Type 0 where
  begin_enqueue : (x : ℕ) → Move m idle m (e_load x)
  load_head : {x : ℕ} → Move m (e_load x) m (e_look x m.ring.head_seq)
  cell_free : {x h : ℕ} → look (seq_at m.ring h) h ≡ claim → Move m (e_look x h) m (e_swap x h)
  full : {x h : ℕ} → look (seq_at m.ring h) h ≡ give_up → Move m (e_look x h) m idle
  head_moved : {x h : ℕ} → look (seq_at m.ring h) h ≡ reload → Move m (e_look x h) m (e_load x)
  head_taken : {x h : ℕ} → m.ring.head_seq ≡ h → Move m (e_swap x h) (take_head m x) (e_write x h)
  head_lost : {x h : ℕ} → Move m (e_swap x h) m (e_look x m.ring.head_seq)
  written : {x h : ℕ} → Move m (e_write x h) (write_cell m h x) (e_publish x h)
  published : {x h : ℕ} → Move m (e_publish x h) (publish_cell m h) idle
  begin_dequeue : Move m idle m d_load
  load_tail : Move m d_load m (d_look m.ring.tail_seq)
  cell_used : {t : ℕ} → look (seq_at m.ring t) (add64 t 1) ≡ claim → Move m (d_look t) m (d_swap t)
  empty : {t : ℕ} → look (seq_at m.ring t) (add64 t 1) ≡ give_up → Move m (d_look t) m idle
  tail_moved : {t : ℕ} → look (seq_at m.ring t) (add64 t 1) ≡ reload → Move m (d_look t) m d_load
  tail_taken : {t : ℕ} → m.ring.tail_seq ≡ t → Move m (d_swap t) (take_tail m) (d_read t)
  tail_lost : {t : ℕ} → Move m (d_swap t) m (d_look m.ring.tail_seq)
  read : {t : ℕ} → Move m (d_read t) m (d_publish t (m.ring.contents (slot m.ring t)))
  freed : {t x : ℕ} → Move m (d_publish t x) (free_cell m t x) idle

pub record System : Type 0 where
  pub mem : History
  pub threads : ℕ → Thread

abbrev pub start : Ring → System
start r = record {
  mem = record { ring = r; sent = λ _. 0; sent_count = 0; got = λ _. none };
  threads = λ _. idle;
}

pub data Step (s : System) : System → Type 0 where
  pick :
      (i : ℕ) {m : History} {p : Thread}
      → Move s.mem (s.threads i) m p
      → Step s (record { mem = m; threads = store s.threads i p })

pub data Reach (r : Ring) : System → Type 0 where
  here : Reach r (start r)
  next : {s t : System} → Reach r s → Step s t → Reach r t
