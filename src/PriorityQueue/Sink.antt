-- ===== src/PriorityQueue/Sink.antt =====
-- The loop of PQ_pop.
use nohost_server.Base.{
  ℕ, zero, suc, ◌+◌, ◌/◌, ◌≤◌, ◌<◌, ◌≡◌, refl, arith, store, ◌⊎◌, some, ==-refl, ==-ne, ℕ_discrete,
}
use nohost_server.PriorityQueue.{Node, prio, pick, sink, IsSmall}
use nohost_server.PriorityQueue.Weights.{total, total-store}

-- The pick is `i` or a child of it within the heap, and no later than the two children.
pub record Picked (nodes : ℕ → Node) (len i k : ℕ) : Type 0 where
  pub place : (k ≡ i) ⊎ ((k / 2 ≡ i) × (i < k) × (k ≤ len))
  pub self : prio nodes k ≤ prio nodes i
  pub children : (c : ℕ) → c / 2 ≡ i → 1 ≤ c → c ≤ len → prio nodes k ≤ prio nodes c
  pub strict : (k ≡ i) ⊎ (prio nodes k < prio nodes i)

pub pick_small :
    (nodes : ℕ → Node) (len i : ℕ)
    → IsSmall nodes len
    → 1 ≤ i
    → i ≤ len
    → Picked nodes len i (pick nodes len i)
unfolding pick
pick_small nodes len i s lo hi = grind arith

pick-range :
    (nodes : ℕ → Node) (len i : ℕ)
    → 1 ≤ i
    → (pick nodes len i ≡ i) ⊎ ((i < pick nodes len i) × (pick nodes len i ≤ len))
unfolding pick
pick-range nodes len i lo = ground arith

pub sink_ends :
    (f : ℕ) (nodes : ℕ → Node) (n i : ℕ)
    → 1 ≤ i
    → n < i + f
    → 1 ≤ f
    → (r : (ℕ → Node) × ℕ) × (sink f nodes n i ≡ some r)
unfolding sink
sink_ends zero nodes n i lo h g = absurd (omega arith)
sink_ends (suc f) nodes n i lo h g = elim (ℕ_discrete (pick nodes n i) i) [
  | yes e ↦ ((nodes, i), rw (e, ==-refl))
  | no ne ↦
      let k = pick nodes n i in
      let range = pick-range nodes n i lo in
      let ih =
        sink_ends f (store nodes i (nodes k)) n k (ground arith) (ground arith) (ground arith) in
      (ih.0, rw (==-ne k i ne) (ih.1))
]

-- The cell that the loop ends at takes the place of the one it started at.
pub sink-total :
    (f : ℕ) (nodes : ℕ → Node) (n i : ℕ) (r : (ℕ → Node) × ℕ) (x : Node) (w : Node → ℕ)
    → 1 ≤ i
    → i ≤ n
    → sink f nodes n i ≡ some r
    → total w n (store r.0 r.1 x) + w (nodes i) ≡ total w n nodes + w x
unfolding sink
sink-total zero nodes n i r x w lo hi e = cc
sink-total (suc f) nodes n i r x w lo hi e = elim (ℕ_discrete (pick nodes n i) i) [
  | yes s ↦
      let e' : some (nodes, i) ≡ some r = rw (s, ==-refl) at e in
      let out : (nodes, i) ≡ r = ground arith in rw (← out) (total-store w n nodes i x lo hi)
  | no ne ↦
      let k = pick nodes n i in
      let range = pick-range nodes n i lo in
      let e' : sink f (store nodes i (nodes k)) n k ≡ some r = rw (==-ne k i ne) at e in
      let here : store nodes i (nodes k) k ≡ nodes k = ground arith in
      let ih =
        rw here at
          (sink-total f (store nodes i (nodes k)) n k r x w (ground arith) (ground arith) e') in
      omega (arith, ih, total-store w n nodes i (nodes k) lo hi)
]

-- The loop writes no cell beyond the heap.
pub sink_beyond :
    (f : ℕ) (nodes : ℕ → Node) (n i : ℕ) (r : (ℕ → Node) × ℕ) (q : ℕ)
    → 1 ≤ i
    → i ≤ q
    → n < q
    → sink f nodes n i ≡ some r
    → (i < q) ⊎ (n < i)
    → r.0 q ≡ nodes q
unfolding sink
sink_beyond zero nodes n i r q lo iq h e d = cc
sink_beyond (suc f) nodes n i r q lo iq h e d = elim (ℕ_discrete (pick nodes n i) i) [
  | yes s ↦
      let e' : some (nodes, i) ≡ some r = rw (s, ==-refl) at e in
      let out : (nodes, i) ≡ r = ground arith in rw (← out) refl
  | no ne ↦
      let k = pick nodes n i in
      let range = pick-range nodes n i lo in
      let e' : sink f (store nodes i (nodes k)) n k ≡ some r = rw (==-ne k i ne) at e in
      let ih =
        sink_beyond f (store nodes i (nodes k)) n k r q (ground arith) (ground arith) h e'
          (ground arith) in
      ground (arith, ih, range)
]
