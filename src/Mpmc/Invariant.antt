-- ===== src/Mpmc/Invariant.antt =====
-- lfmpmc.h: what holds of the ring, its history and its threads in every interleaving.
pub mod Cells
pub mod Enqueue
pub mod Publish
pub mod Dequeue
pub mod Free
pub mod Moves
pub mod Kept
pub mod Every
use nohost_server.Base.{
  ℕ, zero, suc, ◌+◌, ◌-◌, ◌^◌, ◌%◌, ◌≤◌, ◌<◌, ◌≡◌, ◌≢◌, ◌⊎◌, Option, none, some, store,
}
use nohost_server.Mpmc.{Ring, slot, seq_at}
use nohost_server.Mpmc.Steps.{
  Thread, idle, e_load, e_look, e_swap, e_write, e_publish, d_load, d_look, d_swap, d_read,
  d_publish, History,
}

-- The cell of a ticket of enqueue that was given: not written yet, or published.
abbrev pub Used : History → ℕ → Type 0
Used m j =
    (seq_at m.ring j ≡ j)
    ⊎ ((seq_at m.ring j ≡ suc j) × (m.ring.contents (slot m.ring j) ≡ m.sent j))

-- The cell of a ticket of enqueue that comes next: free, or not free yet from the round before.
abbrev pub Next : ℕ → History → ℕ → Type 0
Next n m j = (seq_at m.ring j ≡ j) ⊎ (seq_at m.ring j + n ≡ suc j)

-- A thread with the ticket `h` of enqueue that has not published.
abbrev pub Writing : History → ℕ → Type 0
Writing m h = (m.ring.tail_seq ≤ h) × (h < m.ring.head_seq) × (seq_at m.ring h ≡ h)

-- A thread with the ticket `t` of dequeue that has not freed the cell.
abbrev pub Reading : ℕ → History → ℕ → Type 0
Reading n m t =
    (t < m.ring.tail_seq) × (m.ring.head_seq ≤ t + n) × (seq_at m.ring t ≡ suc t) × (m.got t ≡ none)

-- What a thread relies on.
abbrev pub Relies : ℕ → History → Thread → Type 0
Relies n m (e_look x h) = h ≤ m.ring.head_seq
Relies n m (e_swap x h) = (h ≤ m.ring.head_seq) × (h ≡ m.ring.head_seq → seq_at m.ring h ≡ h)
Relies n m (e_write x h) = Writing m h × (m.sent h ≡ x)
Relies n m (e_publish x h) = Writing m h × (m.ring.contents (slot m.ring h) ≡ m.sent h)
Relies n m (d_look t) = t ≤ m.ring.tail_seq
Relies n m (d_swap t) = (t ≤ m.ring.tail_seq) × (t ≡ m.ring.tail_seq → seq_at m.ring t ≡ suc t)
Relies n m (d_read t) = Reading n m t × (m.ring.contents (slot m.ring t) ≡ m.sent t)
Relies n m (d_publish t x) = Reading n m t × (x ≡ m.sent t)
Relies n m p = Unit

-- The tickets that a thread holds.
abbrev pub enqueue_ticket : Thread → Option ℕ
enqueue_ticket (e_write x h) = some h
enqueue_ticket (e_publish x h) = some h
enqueue_ticket p = none

abbrev pub dequeue_ticket : Thread → Option ℕ
dequeue_ticket (d_read t) = some t
dequeue_ticket (d_publish t x) = some t
dequeue_ticket p = none

-- The ring and its history, for a ring of `n` cells.
pub record Sound (n : ℕ) (m : History) : Type 0 where
  pub masked : (a : ℕ) → slot m.ring a ≡ a % n
  pub mask_is : m.ring.mask ≡ n - 1
  pub counted : m.ring.head_seq ≡ m.sent_count
  pub ordered : m.ring.tail_seq ≤ m.ring.head_seq
  pub near : m.ring.head_seq ≤ m.ring.tail_seq + n
  pub used : (j : ℕ) → m.ring.tail_seq ≤ j → j < m.ring.head_seq → Used m j
  pub free : (j : ℕ) → m.ring.head_seq ≤ j → j < m.ring.tail_seq + n → Next n m j
  pub later : (j : ℕ) → m.ring.tail_seq ≤ j → m.got j ≡ none
  pub right : (j x : ℕ) → m.got j ≡ some x → x ≡ m.sent j

-- No two of the threads hold the same ticket.
abbrev pub Distinct : (Thread → Option ℕ) → (ℕ → Thread) → Type 0
Distinct ticket threads =
    (i j h : ℕ) → ticket (threads i) ≡ some h → ticket (threads j) ≡ some h → i ≡ j

-- A ticket of dequeue that was given has its element, or a thread holds it.
abbrev pub Accounted : History → (ℕ → Thread) → Type 0
Accounted m threads =
    (t : ℕ)
    → t < m.ring.tail_seq
    → (m.got t ≡ some (m.sent t)) ⊎ ((i : ℕ) × (dequeue_ticket (threads i) ≡ some t))

pub record Inv (n : ℕ) (m : History) (threads : ℕ → Thread) : Type 0 where
  pub sound : Sound n m
  pub relies : (i : ℕ) → Relies n m (threads i)
  pub writers : Distinct enqueue_ticket threads
  pub readers : Distinct dequeue_ticket threads
  pub accounted : Accounted m threads
