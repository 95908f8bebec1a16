-- ===== src/Mpmc/Refines.antt =====
-- lfmpmc.h: the ring as a queue, a list of the elements that are in it.
use nohost_server.Base.{ℕ, zero, suc, ◌-◌, ◌≡◌, List, [], ◌∷◌, ◌++◌}
use nohost_server.Mpmc.Steps.{Thread, e_swap, e_write, d_swap, d_read, History}

-- The elements with the `n` tickets from `j`.
abbrev pub elements_from : (ℕ → ℕ) → ℕ → ℕ → List ℕ
elements_from sent j zero = []
elements_from sent j (suc n) = sent j ∷ elements_from sent (suc j) n

-- From the next ticket of dequeue to the next one of enqueue.
abbrev pub elements : History → List ℕ
elements m = elements_from m.sent m.ring.tail_seq (m.ring.head_seq - m.ring.tail_seq)

-- What an operation of a thread does to the queue: nothing, or it puts the argument of the thread's
-- call at the end, or it takes the first element off, for the ticket that the thread then has.
pub data QueueMove (m m' : History) : Thread → Thread → Type 0 where
  stays : {p p' : Thread} → elements m' ≡ elements m → QueueMove m m' p p'
  puts : {x h : ℕ} → elements m' ≡ elements m ++ x ∷ [] → QueueMove m m' (e_swap x h) (e_write x h)
  gets : {t : ℕ} → elements m ≡ m.sent t ∷ elements m' → QueueMove m m' (d_swap t) (d_read t)
