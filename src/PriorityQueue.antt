-- ===== src/PriorityQueue.antt =====
-- priority_queue.c: a binary min-heap in an array whose cells 1 to `len` are in use.
-- A priority is the 32-bit pattern of the field; PQ_push compares patterns (its parameter is
-- unsigned), PQ_pop compares `int`. `nodes` maps an index to its cell, `size` counts the cells that
-- realloc gave; malloc failure is not modelled, as the code does not check for it.
pub mod Weights
pub mod Push
pub mod Sink
pub mod Pop
mod Tests
use nohost_server.Base.{
  ℕ, zero, suc, ◌+◌, ◌*◌, ◌/◌, ◌≤◌, ◌<◌, ◌-◌, ◌^◌, ◌≡◌, ◌⊎◌, Bool, ◌&&◌, Option, none, some, ltb,
  leb, ◌==◌, if◌then◌else◌, store, slt32,
}

-- `node_t`
pub record Node : Type 0 where
  pub priority : ℕ
  pub payload : ℕ

-- `heap_t`
pub record Heap : Type 0 where
  pub nodes : ℕ → Node
  pub len : ℕ
  pub size : ℕ

abbrev pub prio : (ℕ → Node) → ℕ → ℕ
prio nodes i = (nodes i).priority

-- The `while` of PQ_push, with `j` as `i / 2`. The fuel is `i`, which is halved: at 0 the loop ends.
pub sift_up : ℕ → (ℕ → Node) → ℕ → ℕ → (ℕ → Node) × ℕ
sift_up zero nodes i priority = (nodes, i)
sift_up (suc k) nodes i priority =
    let rest = sift_up k (store nodes i (nodes (i / 2))) (i / 2) priority in
    if ltb 1 i && ltb priority (prio nodes (i / 2)) then rest else (nodes, i)

pub grown_size : Heap → ℕ
grown_size h = if leb h.size (h.len + 1) then (if h.size == 0 then 4 else h.size * 2) else h.size

pub push : Heap → ℕ → ℕ → Heap
push h priority payload =
    let (nodes, i) = sift_up (h.len + 1) h.nodes (h.len + 1) priority in
    record {
      nodes = store nodes i (record { priority = priority; payload = payload });
      len = h.len + 1;
      size = grown_size h;
    }

-- The child of `i` that the body of the `while (1)` picks, or `i` itself.
pub pick : (ℕ → Node) → ℕ → ℕ → ℕ
pick nodes len i =
    let left = if leb (2 * i) len && slt32 (prio nodes (2 * i)) (prio nodes i) then 2 * i else i in
    if leb (2 * i + 1) len && slt32 (prio nodes (2 * i + 1)) (prio nodes left)
    then 2 * i + 1
    else left

-- The `while (1)` of PQ_pop. The index grows and stays within `len`, so `len` rounds suffice.
pub sink : ℕ → (ℕ → Node) → ℕ → ℕ → Option ((ℕ → Node) × ℕ)
sink zero nodes len i = none
sink (suc f) nodes len i =
    let k = pick nodes len i in
    let rest = sink f (store nodes i (nodes k)) len k in if k == i then some (nodes, i) else rest

-- `h->nodes[i] = h->nodes[h->len + 1]`, after `h->len--`.
pub settle : Heap → Option ((ℕ → Node) × ℕ) → Option Heap
settle h none = none
settle h (some (nodes, i)) =
    some (record { nodes = store nodes i (nodes h.len); len = h.len - 1; size = h.size })

-- PQ_pop always returns NULL; the result is the heap, `none` if the loop's fuel ran out.
pub pop : Heap → Option Heap
pop h =
    let n = h.len - 1 in
    if h.len == 0 then some h else settle h (sink (h.len + 1) (store h.nodes 1 (h.nodes h.len)) n 1)

pub front : Heap → Option Node
front h = if h.len == 0 then none else some (h.nodes 1)

-- calloc zeroes the cells.
pub create : Heap
create = record { nodes = λ _. record { priority = 0; payload = 0 }; len = 0; size = 0 }

-- No item is before its parent.
abbrev pub IsHeap : (ℕ → Node) → ℕ → Type 0
IsHeap nodes len = (c : ℕ) → 2 ≤ c → c ≤ len → prio nodes (c / 2) ≤ prio nodes c

-- Every priority is a non-negative `int`, so the two comparisons of the code agree.
abbrev pub IsSmall : (ℕ → Node) → ℕ → Type 0
IsSmall nodes len = (c : ℕ) → 1 ≤ c → c ≤ len → prio nodes c < 2 ^ 31

-- The cells in use were allocated.
abbrev pub IsSized : Heap → Type 0
IsSized h = (h.len < h.size) ⊎ ((h.len ≡ 0) × (h.size ≡ 0))
