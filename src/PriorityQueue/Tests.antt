-- ===== src/PriorityQueue/Tests.antt =====
-- A heap of three items.
use nohost_server.Base.{ℕ, ◌+◌, ◌/◌, ◌≤◌, ◌<◌, ◌≡◌, ◌↔◌, some, arith, store, inl, inr}
use nohost_server.PriorityQueue.{
  Node, Heap, prio, push, pop, grown_size, pick, IsHeap, IsSmall, IsSized,
}
use nohost_server.PriorityQueue.Weights.{total}
use nohost_server.PriorityQueue.Push.{push-IsHeap, push-IsSized}
use nohost_server.PriorityQueue.Pop.{pop-total, pop-IsHeap_iff, rooted}

abbrev node : ℕ → ℕ → Node
node p d = record { priority = p; payload = d }

abbrev three : Heap
three = record {
  nodes = store (store (store (λ _. node 0 0) 1 (node 3 30)) 2 (node 8 80)) 3 (node 5 50);
  len = 3;
  size = 4;
}

three-IsHeap : IsHeap three.nodes three.len
three-IsHeap c lo hi = ground arith

three-IsSmall : IsSmall three.nodes three.len
three-IsSmall c lo hi = ground arith

push-IsHeap_example : IsHeap (push three 1 10).nodes (push three 1 10).len
push-IsHeap_example = push-IsHeap three 1 10 three-IsHeap

grown_to_8 : (push three 1 10).size ≤ 8
unfolding push grown_size
grown_to_8 = omega arith

push-IsSized_example :
    ((push three 1 10).nodes 8 ≡ three.nodes 8)
    × (4 < (push three 1 10).size)
    × IsSized (push three 1 10)
push-IsSized_example = push-IsSized three 1 10 8 (inl (omega arith)) (inr grown_to_8)

pop-total_example :
    (h' : Heap) × (pop three ≡ some h')
    × (h'.len + 1 ≡ 3)
    × ((w : Node → ℕ) → total w h'.len h'.nodes + w (node 3 30) ≡ total w 3 three.nodes)
pop-total_example = pop-total three (omega arith)

pop-IsHeap_iff_example :
    (h' : Heap) × (pop three ≡ some h')
    × (IsHeap h'.nodes h'.len
        ↔ ((c : ℕ) → c / 2 ≡ pick (rooted three) 2 1 → c ≤ 2 → 5 ≤ prio three.nodes c))
pop-IsHeap_iff_example = pop-IsHeap_iff three three-IsHeap three-IsSmall (omega arith)
