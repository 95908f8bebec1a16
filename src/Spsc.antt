-- ===== src/Spsc.antt =====
-- lockfreeq.h: spsc_bounded_queue_t, a ring for one producer and one consumer with two counters of
-- type size_t that wrap at 2^64. The C++ atomics are read as sequentially consistent: each load or
-- store of a counter and each access of the buffer is one step of an interleaving.
pub mod Steps
pub mod Counts
pub mod Invariant
pub mod Fifo
mod Tests
use nohost_server.Base.{
  ℕ, ◌+◌, ◌-◌, ◌^◌, Bool, true, false, not, ◌&&◌, Option, none, some, leb, ◌==◌, if◌then◌else◌,
  store, bit_and, add64, sub64,
}

-- The members; `buffer` maps an index to the element there.
pub record Ring : Type 0 where
  pub size : ℕ
  pub mask : ℕ
  pub buffer : ℕ → ℕ
  pub head : ℕ
  pub tail : ℕ

-- The constructor; `none` is the failed assert that the size is a power of 2. `~_size` is
-- `2^64 - 1 - _size`.
pub create : ℕ → Option Ring
create size =
    if not (size == 0) && bit_and size (add64 (2 ^ 64 - 1 - size) 1) == size
    then some (record { size = size; mask = sub64 size 1; buffer = λ _. 0; head = 0; tail = 0 })
    else none

-- The test of enqueue: a cell is kept free.
pub has_room : ℕ → ℕ → ℕ → Bool
has_room mask head tail = leb 1 (bit_and (sub64 tail (add64 head 1)) mask)

-- The test of dequeue.
pub has_item : ℕ → ℕ → ℕ → Bool
has_item mask head tail = leb 1 (bit_and (sub64 head tail) mask)

pub enqueue : Ring → ℕ → Ring × Bool
enqueue r input =
    if has_room r.mask r.head r.tail
    then (
      record r { buffer = store r.buffer (bit_and r.head r.mask) input; head = add64 r.head 1 },
      true,
    )
    else (r, false)

pub isempty : Ring → Bool
isempty r = if has_item r.mask r.head r.tail then false else true

-- The element goes through `output`: `none` is the result false.
pub dequeue : Ring → Ring × Option ℕ
dequeue r =
    if has_item r.mask r.head r.tail
    then (record r { tail = add64 r.tail 1 }, some (r.buffer (bit_and r.tail r.mask)))
    else (r, none)
