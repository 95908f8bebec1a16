-- ===== src/Queue.antt =====
-- queue.c: a linked list of malloc'd nodes with a front and a rear pointer.
-- `Cells` maps an address to the node that is allocated there, `none` where nothing is; NULL is 0.
-- A function that reads through a pointer to no node gives `none`. malloc's answer is an argument.
-- `count` is exact: an `int` would overflow only at 2^31 nodes.
pub mod Chains
pub mod Laws
mod Tests
use nohost_server.Base.{
  Bool, true, false, ℕ, zero, suc, ◌+◌, ◌-◌, Option, none, some, ◌==◌, if◌then◌else◌, store,
}

-- `node`
pub record Cell : Type 0 where
  pub value : ℕ
  pub next : ℕ

abbrev pub Cells : Type 0
Cells = ℕ → Option Cell

-- `queue`
pub record Queue : Type 0 where
  pub count : ℕ
  pub front : ℕ
  pub rear : ℕ

pub create_queue : Queue
create_queue = record { count = 0; front = 0; rear = 0 }

relinked : Cells → ℕ → ℕ → Option Cell → Option Cells
relinked m p new none = none
relinked m p new (some c) = some (store m p (some (record c { next = new })))

-- `qptr->rear->next = new_node`
abbrev link : Cells → ℕ → ℕ → Option Cells
unfolding relinked
link m p new = relinked m p new (m p)

appended : Queue → ℕ → ℕ → Option Cells → Option (Cells × Queue)
appended q front new none = none
appended q front new (some m) = some (m, record { count = q.count + 1; front = front; rear = new })

pub add_rear : ℕ → Cells → Queue → ℕ → Option (Cells × Queue)
unfolding appended relinked
add_rear new m q value =
    let made = store m new (some (record { value = value; next = 0 })) in
    if q.count == 0
    then appended q new new (some made)
    else appended q q.front new (link made q.rear new)

taken : Cells → Queue → Option Cell → Option (ℕ × Cells × Queue)
taken m q none = none
taken m q (some tmp) =
    some (tmp.value, store m q.front none, record q { front = tmp.next; count = q.count - 1 })

-- The value that is returned, NULL for an empty queue; the node is freed.
pub remove_front : Cells → Queue → Option (ℕ × Cells × Queue)
unfolding taken
remove_front m q = if q.count == 0 then some (0, m, q) else taken m q (m q.front)

-- The loop of destroy_queue; `count` rounds empty the queue.
destroy_loop : ℕ → Cells → Queue → Option Cells
destroy_loop zero m q = if q.count == 0 then some m else none
destroy_loop (suc f) m q =
    let rest : Option Cells = elim (remove_front m q) [
      | none ↦ none
      | some (v, m', q') ↦ destroy_loop f m' q'
    ] in
    if q.count == 0 then some m else rest

-- `free(qptr)`: of a block that is not allocated it is a fault.
destroyed : (ℕ → Bool) → ℕ → Option Cells → Option (Cells × (ℕ → Bool))
destroyed blocks qptr none = none
destroyed blocks qptr (some m) = if blocks qptr then some (m, store blocks qptr false) else none

-- `blocks` tells which other blocks than nodes are allocated; `qptr` is the queue's own.
pub destroy_queue : (ℕ → Bool) → ℕ → Cells → Queue → Option (Cells × (ℕ → Bool))
unfolding destroy_loop destroyed
destroy_queue blocks qptr m q = destroyed blocks qptr (destroy_loop q.count m q)
