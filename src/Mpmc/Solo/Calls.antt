-- ===== src/Mpmc/Solo/Calls.antt =====
-- lfmpmc.h: a thread that is left alone, in any state that an interleaving reaches.
use nohost_server.Base.{
  ℕ, suc, ◌+◌, ◌^◌, ◌≤◌, ◌<◌, ◌≡◌, ◌≢◌, inl, inr, some, refl, add64, arith, ℕ_discrete,
}
use nohost_server.Mpmc.{Ring, create, seq_at, look, reload}
use nohost_server.Mpmc.Steps.{
  Thread, idle, e_load, e_look, e_swap, e_write, e_publish, d_load, d_look, d_swap, d_read,
  d_publish, History, Move, load_head, cell_free, full, head_moved, head_taken, head_lost, written,
  published, load_tail, cell_used, empty, tail_moved, tail_taken, tail_lost, read, freed, System,
  Reach,
}
use nohost_server.Mpmc.Invariant.{Sound}
use nohost_server.Mpmc.Delivery.{Reach-Inv, two_cells}
use nohost_server.Mpmc.Solo.{
  Steady, Finishes, finished, then_moves, Look-cases, head-look, tail-look, Finishes-more,
}

-- Behind the compare-and-swap a thread has two more operations.
after_publish :
    (k : ℕ) (m : History) (x h : ℕ) {m' : History} {p' : Thread}
    → Move m (e_publish x h) m' p'
    → Finishes k m' p'
after_publish k m x h published = finished

publishes : (k : ℕ) (m : History) (x h : ℕ) → Finishes (suc k) m (e_publish x h)
publishes k m x h =
    then_moves (_, _, published, tt) (λ m' p' move steady. after_publish k m x h move)

after_write :
    (k : ℕ) (m : History) (x h : ℕ) {m' : History} {p' : Thread}
    → Move m (e_write x h) m' p'
    → Finishes (suc k) m' p'
after_write k m x h written = publishes k _ x h

writes : (k : ℕ) (m : History) (x h : ℕ) → Finishes (suc (suc k)) m (e_write x h)
writes k m x h = then_moves (_, _, written, tt) (λ m' p' move steady. after_write k m x h move)

after_free :
    (k : ℕ) (m : History) (t x : ℕ) {m' : History} {p' : Thread}
    → Move m (d_publish t x) m' p'
    → Finishes k m' p'
after_free k m t x freed = finished

frees : (k : ℕ) (m : History) (t x : ℕ) → Finishes (suc k) m (d_publish t x)
frees k m t x = then_moves (_, _, freed, tt) (λ m' p' move steady. after_free k m t x move)

after_read :
    (k : ℕ) (m : History) (t : ℕ) {m' : History} {p' : Thread}
    → Move m (d_read t) m' p'
    → Finishes (suc k) m' p'
after_read k m t read = frees k m t _

reads : (k : ℕ) (m : History) (t : ℕ) → Finishes (suc (suc k)) m (d_read t)
reads k m t = then_moves (_, _, read, tt) (λ m' p' move steady. after_read k m t move)

module _ (n : ℕ) (m : History) (sound : Sound n m) (two : 2 ≤ n)
    (small : m.ring.head_seq + n < 2 ^ 63) where
  -- enqueue
  after_own_swap :
      (x h : ℕ) {m' : History} {p' : Thread}
      → m.ring.head_seq ≡ h
      → (move : Move m (e_swap x h) m' p') → Steady move
      → Finishes 2 m' p'
  after_own_swap x h same (head_taken e) steady = writes 0 _ x h
  after_own_swap x h same head_lost other = absurd (other same)

  takes_head : (x h : ℕ) → m.ring.head_seq ≡ h → Finishes 3 m (e_swap x h)
  takes_head x h same =
      then_moves (_, _, head_taken same, tt)
        (λ m' p' move steady. after_own_swap x h same move steady)

  after_own_look :
      (x : ℕ) {m' : History} {p' : Thread}
      → look (seq_at m.ring m.ring.head_seq) m.ring.head_seq ≢ reload
      → Move m (e_look x m.ring.head_seq) m' p'
      → Finishes 3 m' p'
  after_own_look x fresh (cell_free e) = takes_head x m.ring.head_seq refl
  after_own_look x fresh (full e) = finished
  after_own_look x fresh (head_moved e) = absurd (fresh e)

  looks_at_head : (x : ℕ) → Finishes 4 m (e_look x m.ring.head_seq)
  looks_at_head x = elim (head-look n m sound two small) [
    | inl is_free ↦
        then_moves (_, _, cell_free is_free, tt)
          (λ m' p' move steady. after_own_look x (λ e. cc) move)
    | inr none_free ↦
        then_moves (_, _, full none_free, tt) (λ m' p' move steady. after_own_look x (λ e. cc) move)
  ]

  after_swap : (x h : ℕ) {m' : History} {p' : Thread} → Move m (e_swap x h) m' p' → Finishes 4 m' p'
  after_swap x h (head_taken e) = writes 2 _ x h
  after_swap x h head_lost = looks_at_head x

  swaps_head : (x h : ℕ) → Finishes 5 m (e_swap x h)
  swaps_head x h = elim (ℕ_discrete m.ring.head_seq h) [
    | yes same ↦ Finishes-more 4 (Finishes-more 3 (takes_head x h same))
    | no other ↦ then_moves (_, _, head_lost, other) (λ m' p' move steady. after_swap x h move)
  ]

  after_load : (x : ℕ) {m' : History} {p' : Thread} → Move m (e_load x) m' p' → Finishes 4 m' p'
  after_load x load_head = looks_at_head x

  loads_head : (x : ℕ) → Finishes 5 m (e_load x)
  loads_head x = then_moves (_, _, load_head, tt) (λ m' p' move steady. after_load x move)

  after_look : (x h : ℕ) {m' : History} {p' : Thread} → Move m (e_look x h) m' p' → Finishes 5 m' p'
  after_look x h (cell_free e) = swaps_head x h
  after_look x h (full e) = finished
  after_look x h (head_moved e) = loads_head x

  looks_for_cell : (x h : ℕ) → Finishes 6 m (e_look x h)
  looks_for_cell x h = elim (Look-cases (look (seq_at m.ring h) h)) [
    | inl is_free ↦
        then_moves (_, _, cell_free is_free, tt) (λ m' p' move steady. after_look x h move)
    | inr (inl none_free) ↦
        then_moves (_, _, full none_free, tt) (λ m' p' move steady. after_look x h move)
    | inr (inr moved) ↦
        then_moves (_, _, head_moved moved, tt) (λ m' p' move steady. after_look x h move)
  ]

  -- dequeue
  after_own_take :
      (t : ℕ) {m' : History} {p' : Thread}
      → m.ring.tail_seq ≡ t
      → (move : Move m (d_swap t) m' p') → Steady move
      → Finishes 2 m' p'
  after_own_take t same (tail_taken e) steady = reads 0 _ t
  after_own_take t same tail_lost other = absurd (other same)

  takes_tail : (t : ℕ) → m.ring.tail_seq ≡ t → Finishes 3 m (d_swap t)
  takes_tail t same =
      then_moves (_, _, tail_taken same, tt)
        (λ m' p' move steady. after_own_take t same move steady)

  after_own_search :
      {m' : History} {p' : Thread}
      → look (seq_at m.ring m.ring.tail_seq) (add64 m.ring.tail_seq 1) ≢ reload
      → Move m (d_look m.ring.tail_seq) m' p'
      → Finishes 3 m' p'
  after_own_search fresh (cell_used e) = takes_tail m.ring.tail_seq refl
  after_own_search fresh (empty e) = finished
  after_own_search fresh (tail_moved e) = absurd (fresh e)

  looks_at_tail : Finishes 4 m (d_look m.ring.tail_seq)
  looks_at_tail = elim (tail-look n m sound two small) [
    | inl is_used ↦
        then_moves (_, _, cell_used is_used, tt)
          (λ m' p' move steady. after_own_search (λ e. cc) move)
    | inr none_used ↦
        then_moves (_, _, empty none_used, tt)
          (λ m' p' move steady. after_own_search (λ e. cc) move)
  ]

  after_take : (t : ℕ) {m' : History} {p' : Thread} → Move m (d_swap t) m' p' → Finishes 4 m' p'
  after_take t (tail_taken e) = reads 2 _ t
  after_take t tail_lost = looks_at_tail

  swaps_tail : (t : ℕ) → Finishes 5 m (d_swap t)
  swaps_tail t = elim (ℕ_discrete m.ring.tail_seq t) [
    | yes same ↦ Finishes-more 4 (Finishes-more 3 (takes_tail t same))
    | no other ↦ then_moves (_, _, tail_lost, other) (λ m' p' move steady. after_take t move)
  ]

  after_load_tail : {m' : History} {p' : Thread} → Move m d_load m' p' → Finishes 4 m' p'
  after_load_tail load_tail = looks_at_tail

  loads_tail : Finishes 5 m d_load
  loads_tail = then_moves (_, _, load_tail, tt) (λ m' p' move steady. after_load_tail move)

  after_search : (t : ℕ) {m' : History} {p' : Thread} → Move m (d_look t) m' p' → Finishes 5 m' p'
  after_search t (cell_used e) = swaps_tail t
  after_search t (empty e) = finished
  after_search t (tail_moved e) = loads_tail

  looks_for_element : (t : ℕ) → Finishes 6 m (d_look t)
  looks_for_element t = elim (Look-cases (look (seq_at m.ring t) (add64 t 1))) [
    | inl is_used ↦
        then_moves (_, _, cell_used is_used, tt) (λ m' p' move steady. after_search t move)
    | inr (inl none_used) ↦
        then_moves (_, _, empty none_used, tt) (λ m' p' move steady. after_search t move)
    | inr (inr moved) ↦
        then_moves (_, _, tail_moved moved, tt) (λ m' p' move steady. after_search t move)
  ]

  thread_finishes : (p : Thread) → Finishes 6 m p
  thread_finishes idle = finished
  thread_finishes (e_load x) = Finishes-more 5 (loads_head x)
  thread_finishes (e_look x h) = looks_for_cell x h
  thread_finishes (e_swap x h) = Finishes-more 5 (swaps_head x h)
  thread_finishes (e_write x h) = writes 4 m x h
  thread_finishes (e_publish x h) = publishes 5 m x h
  thread_finishes d_load = Finishes-more 5 loads_tail
  thread_finishes (d_look t) = looks_for_element t
  thread_finishes (d_swap t) = Finishes-more 5 (swaps_tail t)
  thread_finishes (d_read t) = reads 4 m t
  thread_finishes (d_publish t x) = frees 5 m t x

-- In every state that any number of threads on a new ring of 2^k cells reach, two or more cells, and
-- as long as the counters do not come near 2^63: wherever the other threads stand still in their
-- calls, a thread that is left alone can go on, and comes to the end of its call of enqueue or
-- dequeue in at most six operations, if a compare-and-swap fails only where the counter is another.
pub Reach-Finishes :
    (k : ℕ) {r : Ring} {s : System} (i : ℕ)
    → 1 ≤ k
    → k ≤ 62
    → create (2 ^ k) ≡ some r
    → Reach r s
    → s.mem.sent_count + 2 ^ k < 2 ^ 63
    → Finishes 6 s.mem (s.threads i)
Reach-Finishes k {r} {s} i cells small e reach few =
    let inv = Reach-Inv k cells small e reach few in
    thread_finishes (2 ^ k) s.mem inv.sound (two_cells k cells) (omega (arith, inv.sound.counted))
      (s.threads i)
