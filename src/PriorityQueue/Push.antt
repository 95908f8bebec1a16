-- ===== src/PriorityQueue/Push.antt =====
-- priority_queue.c, PQ_push: the heap order, the items and the allocation.
use nohost_server.Base.{
  ◌⊎◌, ℕ, zero, suc, ◌+◌, ◌/◌, ◌≤◌, ◌<◌, ◌≡◌, ◌≢◌, refl, Bool-cases, inl, inr, arith, ltb, store,
}
use nohost_server.PriorityQueue.{Node, Heap, prio, sift_up, push, grown_size, IsHeap, IsSized}
use nohost_server.PriorityQueue.Weights.{total, total-store}

-- The order while cell `i` is a hole for an item of priority `p`.
record Hole (nodes : ℕ → Node) (n p i : ℕ) : Type 0 where
  low : 1 ≤ i
  high : i ≤ n
  edges : (c : ℕ) → 2 ≤ c → c ≤ n → c ≢ i → c / 2 ≢ i → prio nodes (c / 2) ≤ prio nodes c
  below : (c : ℕ) → 2 ≤ c → c ≤ n → c / 2 ≡ i → p ≤ prio nodes c
  bridged : (c : ℕ) → 2 ≤ c → c ≤ n → c / 2 ≡ i → 2 ≤ i → prio nodes (i / 2) ≤ prio nodes c

Hole-up :
    (nodes : ℕ → Node) (n p i : ℕ)
    → Hole nodes n p i
    → 1 < i
    → p < prio nodes (i / 2)
    → Hole (store nodes i (nodes (i / 2))) n p (i / 2)
Hole-up nodes n p i h big lt = grind arith

Hole-fill :
    (nodes : ℕ → Node) (n p d i : ℕ)
    → Hole nodes n p i
    → (1 < i → prio nodes (i / 2) ≤ p)
    → IsHeap (store nodes i (record { priority = p; payload = d })) n
Hole-fill nodes n p d i h top = λ c lo hi. grind arith

sift_up-IsHeap :
    (k : ℕ) (nodes : ℕ → Node) (n p d i : ℕ)
    → i ≤ k
    → Hole nodes n p i
    → let (nodes', i') = sift_up k nodes i p in
      IsHeap (store nodes' i' (record { priority = p; payload = d })) n
unfolding sift_up
sift_up-IsHeap zero nodes n p d i f h = absurd (omega (arith, h.low))
sift_up-IsHeap (suc k) nodes n p d i f h = elim (Bool-cases (ltb 1 i)) [
  | inl big ↦ elim (Bool-cases (ltb p (prio nodes (i / 2)))) [
    | inl lt ↦
        rw (big, lt)
          (sift_up-IsHeap k (store nodes i (nodes (i / 2))) n p d (i / 2) (ground arith)
            (Hole-up nodes n p i h (ground arith) (ground arith)))
    | inr ge ↦ rw (big, ge) (Hole-fill nodes n p d i h (λ _. ground arith))
  ]
  | inr root ↦ rw root (Hole-fill nodes n p d i h (λ b. absurd (ground arith)))
]

sift_up-total :
    (k : ℕ) (nodes : ℕ → Node) (n p i : ℕ) (x : Node) (w : Node → ℕ)
    → i ≤ k
    → 1 ≤ i
    → i ≤ n
    → let (nodes', i') = sift_up k nodes i p in
      total w n (store nodes' i' x) + w (nodes i) ≡ total w n nodes + w x
unfolding sift_up
sift_up-total zero nodes n p i x w f lo hi = absurd (omega arith)
sift_up-total (suc k) nodes n p i x w f lo hi = elim (Bool-cases (ltb 1 i)) [
  | inl big ↦ elim (Bool-cases (ltb p (prio nodes (i / 2)))) [
    | inl lt ↦
        let moved = store nodes i (nodes (i / 2)) in
        let other : moved (i / 2) ≡ nodes (i / 2) = ground arith in
        let ih =
          rw other at
            (sift_up-total k moved n p (i / 2) x w (ground arith) (ground arith) (ground arith)) in
        rw (big, lt) (omega (arith, ih, total-store w n nodes i (nodes (i / 2)) lo hi))
    | inr ge ↦ rw (big, ge) (total-store w n nodes i x lo hi)
  ]
  | inr root ↦ rw root (total-store w n nodes i x lo hi)
]

new-Hole : (h : Heap) (p : ℕ) → IsHeap h.nodes h.len → Hole h.nodes (h.len + 1) p (h.len + 1)
new-Hole h p o = record {
  low = omega arith;
  high = omega arith;
  edges = λ c a b ne nh. o c a (omega arith);
  below = λ c a b e. absurd (omega arith);
  bridged = λ c a b e. absurd (omega arith);
}

-- PQ_push of any priority and item on a heap leaves a heap.
pub push-IsHeap :
    (h : Heap) (p d : ℕ) → IsHeap h.nodes h.len → IsHeap (push h p d).nodes (push h p d).len
unfolding push
push-IsHeap h p d o =
    sift_up-IsHeap (h.len + 1) h.nodes (h.len + 1) p d (h.len + 1) (omega arith) (new-Hole h p o)

-- PQ_push adds its item and no other: every weight of the items grows by that of the new item.
pub push-total :
    (h : Heap) (p d : ℕ) (w : Node → ℕ)
    → total w (push h p d).len (push h p d).nodes
      ≡ total w h.len h.nodes + w (record { priority = p; payload = d })
unfolding push total
push-total h p d w =
    let n = h.len + 1 in
    let e : n ≡ suc h.len = omega arith in
    let step : total w n h.nodes ≡ total w h.len h.nodes + w (h.nodes n) = rw e refl in
    omega (
      arith,
      step,
      sift_up-total n h.nodes n p n (record { priority = p; payload = d }) w (omega arith)
          (omega arith) (omega arith),
    )

sift_up-range :
    (k : ℕ) (nodes : ℕ → Node) (i p : ℕ)
    → 1 ≤ i
    → (1 ≤ (sift_up k nodes i p).1) × ((sift_up k nodes i p).1 ≤ i)
unfolding sift_up
sift_up-range zero nodes i p lo = omega arith
sift_up-range (suc k) nodes i p lo =
    ground (arith, sift_up-range k (store nodes i (nodes (i / 2))) (i / 2) p)

-- Cell 0 and the cells behind `i` are left as they are.
sift_up-frame :
    (k : ℕ) (nodes : ℕ → Node) (i p q : ℕ)
    → 1 ≤ i
    → (q ≡ 0) ⊎ (i < q)
    → (sift_up k nodes i p).0 q ≡ nodes q
unfolding sift_up
sift_up-frame zero nodes i p q lo out = refl
sift_up-frame (suc k) nodes i p q lo out =
    ground (arith, sift_up-frame k (store nodes i (nodes (i / 2))) (i / 2) p q)

-- PQ_push of any priority and item, on a heap whose cells in use are allocated, leaves every cell that
-- its realloc does not leave allocated, and cell 0, as it was; and the cells in use, among them the
-- new one, are allocated after it.
pub push-IsSized :
    (h : Heap) (p d q : ℕ)
    → IsSized h
    → (q ≡ 0) ⊎ ((push h p d).size ≤ q)
    → ((push h p d).nodes q ≡ h.nodes q) × (h.len + 1 < (push h p d).size) × IsSized (push h p d)
unfolding push grown_size
push-IsSized h p d q s out =
    let n = h.len + 1 in
    let range = sift_up-range n h.nodes n p (omega arith) in
    let sized : n < grown_size h = ground arith in
    let far : (q ≡ 0) ⊎ (n < q) = ground arith in
    let frame = sift_up-frame n h.nodes n p q (omega arith) far in (ground arith, sized, inl sized)
