-- ===== src/Mpmc.antt =====
-- lfmpmc.h: mpmc_bounded_queue_t, a ring for many producers and consumers. Each cell has a sequence
-- number of type size_t, which wraps at 2^64; a call takes a ticket by compare-and-swap on `_head_seq`
-- or `_tail_seq`. The C++ atomics are read as sequentially consistent: each of their operations and
-- each access of a cell's data is one step of an interleaving.
pub mod Steps
pub mod Invariant
pub mod Delivery
pub mod Exclusive
pub mod Alone
pub mod Solo
pub mod Refines
mod Tests
use nohost_server.Base.{
  ℕ, ◌+◌, ◌-◌, ◌^◌, ◌%◌, Bool, true, false, not, ◌&&◌, Option, none, some, leb, ◌==◌, if◌then◌else◌,
  store, bit_and, add64, sub64,
}

-- The members; `contents` and `seq` map an index to the parts of the cell there.
pub record Ring : Type 0 where
  pub mask : ℕ
  pub contents : ℕ → ℕ
  pub seq : ℕ → ℕ
  pub head_seq : ℕ
  pub tail_seq : ℕ

-- The constructor; `none` is the failed assert that the size is a power of 2.
pub create : ℕ → Option Ring
create size =
    if not (size == 0) && bit_and size (add64 (2 ^ 64 - 1 - size) 1) == size
    then some (record {
      mask = sub64 size 1;
      contents = λ _. 0;
      seq = λ i. i;
      head_seq = 0;
      tail_seq = 0;
    })
    else none

-- `_buffer[seq & _mask]`
abbrev pub slot : Ring → ℕ → ℕ
slot r a = bit_and a r.mask

abbrev pub seq_at : Ring → ℕ → ℕ
seq_at r a = r.seq (slot r a)

-- `(intptr_t) a - (intptr_t) b < 0`
abbrev pub is_before : ℕ → ℕ → Bool
is_before a b = leb (2 ^ 63) (sub64 a b)

-- What a call does next, by what it found in the cell.
pub data Look : Type 0 where
  claim : Look
  give_up : Look
  reload : Look

-- The sequence number of the cell against the one that is wanted.
pub look : ℕ → ℕ → Look
look node_seq wanted =
    if node_seq == wanted then claim else if is_before node_seq wanted then give_up else reload
