-- ===== src/PriorityQueue/Pop.antt =====
-- priority_queue.c, PQ_pop: its end, the items it leaves, their least, and their order. The loop
-- compares the children of a cell with what the cell held before, not with the item being placed.
use nohost_server.Base.{
  ℕ, zero, suc, ◌+◌, ◌-◌, ◌/◌, ◌≤◌, ◌<◌, ◌≡◌, ◌≢◌, refl, ap, arith, ◌==◌, store, ◌↔◌, if◌then◌else◌,
  some, ==-refl, ==-ne, ℕ_discrete,
}
use nohost_server.PriorityQueue.{Node, Heap, prio, pick, sink, settle, pop, IsHeap, IsSmall}
use nohost_server.PriorityQueue.Weights.{total, total-store}
use nohost_server.PriorityQueue.Sink.{Picked, pick_small, sink_ends, sink-total, sink_beyond}

-- What PQ_pop starts its loop from.
abbrev pub rooted : Heap → ℕ → Node
rooted h = store h.nodes 1 (h.nodes h.len)

total_last :
    (w : Node → ℕ) (n : ℕ) (f : ℕ → Node) → 0 < n → total w n f ≡ total w (n - 1) f + w (f n)
unfolding total
total_last w zero f h = absurd (omega arith)
total_last w (suc n) f h = let e : suc n - 1 ≡ n = omega arith in rw e refl

total_none : (w : Node → ℕ) (n : ℕ) (f : ℕ → Node) → n ≡ 0 → total w n f ≡ 0
unfolding total
total_none w zero f e = refl
total_none w (suc n) f e = absurd (omega arith)

settled-total :
    (h : Heap) (r : (ℕ → Node) × ℕ) (w : Node → ℕ)
    → 0 < h.len
    → sink (h.len + 1) (rooted h) (h.len - 1) 1 ≡ some r
    → total w (h.len - 1) (store r.0 r.1 (r.0 h.len)) + w (h.nodes 1) ≡ total w h.len h.nodes
settled-total h r w pos e = elim (ℕ_discrete h.len 1) [
  | yes one ↦ single one
  | no more ↦ omega (
    arith,
    several more,
    total-store w (h.len - 1) h.nodes 1 (h.nodes h.len) (omega arith) (omega arith),
    total_last w h.len h.nodes pos,
  )
]
  where
    last : r.0 h.len ≡ h.nodes h.len
    last = ground (
      arith,
      sink_beyond (h.len + 1) (rooted h) (h.len - 1) 1 r h.len (omega arith) (omega arith)
          (omega arith) e (omega arith),
    )

    several :
        h.len ≢ 1 → total w (h.len - 1) (store r.0 r.1 (r.0 h.len)) ≡ total w (h.len - 1) (rooted h)
    several more = rw last (
        omega (
          arith,
          sink-total (h.len + 1) (rooted h) (h.len - 1) 1 r (h.nodes h.len) w (omega arith)
              (omega arith) e,
        ))

    single :
        h.len ≡ 1
        → total w (h.len - 1) (store r.0 r.1 (r.0 h.len)) + w (h.nodes 1) ≡ total w h.len h.nodes
    single one = omega (
      arith,
      total_last w h.len h.nodes pos,
      total_none w (h.len - 1) h.nodes (omega arith),
      total_none w (h.len - 1) (store r.0 r.1 (r.0 h.len)) (omega arith),
      ap (λ i. w (h.nodes i)) one,
    )

-- PQ_pop of a non-empty heap, ordered or not, ends; the length falls by one, and the items are
-- those before it without the one at the root: every weight of the items falls by that of the root.
pub pop-total :
    (h : Heap)
    → 0 < h.len
    → (h' : Heap) × (pop h ≡ some h')
      × (h'.len + 1 ≡ h.len)
      × ((w : Node → ℕ) → total w h'.len h'.nodes + w (h.nodes 1) ≡ total w h.len h.nodes)
unfolding pop settle
pop-total h pos =
    let ends =
      sink_ends (h.len + 1) (rooted h) (h.len - 1) 1 (omega arith) (omega arith) (omega arith) in
    let r = ends.0 in
    (
      record { nodes = store r.0 r.1 (r.0 h.len); len = h.len - 1; size = h.size },
      rw (==-ne h.len 0 (omega arith), ends.1),
      omega arith,
      λ w. settled-total h r w pos (ends.1),
    )

-- The heap that PQ_pop leaves when the root's place is taken by the last item or by the child that
-- the first round picks, and the last item goes to that child's cell.
pub one_level : Heap → Heap
one_level h =
    let n = h.len - 1 in
    let k = pick (rooted h) n 1 in
    let raised = if k == 1 then rooted h else store (rooted h) 1 (rooted h k) in
    record { nodes = store raised k (h.nodes h.len); len = n; size = h.size }

module _ (h : Heap) (o : IsHeap h.nodes h.len) (s : IsSmall h.nodes h.len) (pos : 1 < h.len) where
  rooted-IsSmall : IsSmall (rooted h) (h.len - 1)
  rooted-IsSmall = λ c lo hi. grind arith

  first_pick : Picked (rooted h) (h.len - 1) 1 (pick (rooted h) (h.len - 1) 1)
  first_pick = pick_small (rooted h) (h.len - 1) 1 rooted-IsSmall (omega arith) (omega arith)

  -- On a heap the second round stops: no child of the picked cell is before what the cell held.
  second_pick :
      (k : ℕ) → k / 2 ≡ 1 → k ≤ h.len - 1 → pick (store (rooted h) 1 (rooted h k)) (h.len - 1) k ≡ k
  second_pick k e hi =
      let raised = store (rooted h) 1 (rooted h k) in
      let small : IsSmall raised (h.len - 1) = λ c lo' hi'. ground (
        arith,
        s c (omega arith) (omega arith),
        s k (omega arith) (omega arith),
        s h.len (omega arith) (omega arith),
      ) in
      let p = pick_small raised (h.len - 1) k small (omega arith) hi in
      let j = pick raised (h.len - 1) k in ground (arith, o j, p.place, p.strict)

  sink-one_level : sink (h.len + 1) (rooted h) (h.len - 1) 1 ≡ (
      let k = pick (rooted h) (h.len - 1) 1 in
      some ((if k == 1 then rooted h else store (rooted h) 1 (rooted h k)), k))
  unfolding sink
  sink-one_level = elim (ℕ_discrete (pick (rooted h) (h.len - 1) 1) 1) [
    | yes e ↦ let fuel : h.len + 1 ≡ suc h.len = omega arith in rw (fuel, e)
    | no ne ↦
        let k = pick (rooted h) (h.len - 1) 1 in
        let fuel : h.len + 1 ≡ suc (suc (h.len - 1)) = omega arith in
        let second =
          second_pick k (ground (arith, first_pick.place)) (ground (arith, first_pick.place)) in
        rw (fuel, ==-ne k 1 ne, second, ==-refl)
  ]

  -- On a heap of two items or more whose priorities are not negative, PQ_pop sends the last item to
  -- the root or, in exchange for the least child, one level below it: it never goes further down.
  pub pop-one_level : pop h ≡ some (one_level h)
  unfolding pop settle one_level
  pop-one_level =
      rw (==-ne h.len 0 (omega arith), sink-one_level) (ground (arith, first_pick.place))

  -- The picked item is a least one below the root.
  picked_least :
      (f c : ℕ)
      → c < f
      → 2 ≤ c
      → c ≤ h.len - 1
      → prio (rooted h) (pick (rooted h) (h.len - 1) 1) ≤ prio h.nodes c
  picked_least zero c d lo hi = absurd (omega arith)
  picked_least (suc f) c d lo hi = elim (ℕ_discrete (c / 2) 1) [
    | yes child ↦ let below = first_pick.children c child (omega arith) hi in ground (arith, below)
    | no deeper ↦
        let ih = picked_least f (c / 2) (omega arith) (omega arith) (omega arith) in
        omega (arith, ih, o c lo (omega arith))
  ]

  one_level-least :
      (c : ℕ) → 1 ≤ c → c ≤ h.len - 1 → prio (one_level h).nodes 1 ≤ prio (one_level h).nodes c
  unfolding one_level
  one_level-least c lo hi = elim (ℕ_discrete c 1) [
    | yes root ↦ rw root (omega arith)
    | no below ↦
        let least = picked_least (suc c) c (omega arith) (omega arith) hi in
        ground (arith, least, first_pick.place, first_pick.self)
  ]

  -- On a heap of two items or more whose priorities are not negative, PQ_pop ends, and what it leaves
  -- at the root is a least of the items that remain.
  pub pop-least :
      (h' : Heap) × (pop h ≡ some h')
      × (h'.len + 1 ≡ h.len)
      × ((c : ℕ) → 1 ≤ c → c ≤ h'.len → prio h'.nodes 1 ≤ prio h'.nodes c)
  unfolding one_level
  pop-least = (one_level h, pop-one_level, omega arith, one_level-least)

  one_level-IsHeap :
      let k = pick (rooted h) (h.len - 1) 1 in
      IsHeap (one_level h).nodes (h.len - 1)
      ↔ ((c : ℕ) → c / 2 ≡ k → c ≤ h.len - 1 → prio h.nodes h.len ≤ prio h.nodes c)
  unfolding one_level
  one_level-IsHeap = (
    λ heap c e hi. ground (arith, heap c (ground (arith, first_pick.place)) hi, first_pick.place),
    λ above c lo hi. elim (ℕ_discrete (c / 2) 1) [
      | yes child ↦ ground (
        arith,
        above c,
        o c lo (omega arith),
        first_pick.children c child (omega arith) hi,
        first_pick.place,
        first_pick.self,
      )
      | no deeper ↦ ground (arith, above c, o c lo (omega arith), first_pick.place, first_pick.self)
    ],
  )

  -- On a heap of two items or more that is in order, with priorities below 2^31, PQ_pop ends, and what
  -- it leaves is in order exactly when the last item is before no child of the cell that its first
  -- round picks (the root itself if no item there is before the last one).
  pub pop-IsHeap_iff :
      (h' : Heap) × (pop h ≡ some h')
      × (IsHeap h'.nodes h'.len ↔ (
          (c : ℕ)
          → c / 2 ≡ pick (rooted h) (h.len - 1) 1
          → c ≤ h.len - 1
          → prio h.nodes h.len ≤ prio h.nodes c))
  unfolding one_level
  pop-IsHeap_iff = (one_level h, pop-one_level, one_level-IsHeap)
