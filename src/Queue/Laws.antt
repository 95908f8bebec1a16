-- ===== src/Queue/Laws.antt =====
-- The operations of the queue against a list.
use nohost_server.Base.{
  Bool, true, false, ℕ, suc, ◌+◌, ◌-◌, ◌≡◌, ◌≢◌, refl, [], ◌∷◌, ◌++◌, none, some, arith, store,
  length, length-append, sym, ==-ne, ◌⊎◌, inl, inr,
}
use nohost_server.Queue.{
  Cells, Queue, create_queue, add_rear, remove_front, destroy_queue, destroy_loop, destroyed, link,
}
use nohost_server.Queue.Chains.{
  Items, first, last, Absent, IsQueue, Chain-frame, Absent-last, Chain-last, Chain-append,
  last-append,
}

add_rear-run :
    (m : Cells) (q : Queue) (new v r u f : ℕ)
    → q.count ≢ 0
    → q.rear ≡ r
    → q.front ≡ f
    → r ≢ new
    → m r ≡ some (record { value = u; next = 0 })
    → add_rear new m q v
      ≡ some (
        store
            (store m new (some (record { value = v; next = 0 })))
            r
            (some (record { value = u; next = new })),
        record { count = q.count + 1; front = f; rear = new },
      )
unfolding add_rear
add_rear-run m q new v r u f busy er ef ne old =
    let there : store m new (some (record { value = v; next = 0 })) q.rear
        ≡ some (record { value = u; next = 0 }) =
      rw er (rw (==-ne new r (λ e. ne (sym e))) old) in
    rw (==-ne q.count 0 busy, link, there) (rw (er, ef))

remove_front-run :
    (m : Cells) (q : Queue) (a v n : ℕ)
    → q.count ≢ 0
    → q.front ≡ a
    → m a ≡ some (record { value = v; next = n })
    → remove_front m q
      ≡ some (v, store m a none, record { count = q.count - 1; front = n; rear = q.rear })
unfolding remove_front
remove_front-run m q a v n busy e here =
    let there : m q.front ≡ some (record { value = v; next = n }) = rw e here in
    rw (==-ne q.count 0 busy, there) (rw e)

-- add_rear on a queue, with a node that malloc gave it at an address of no node of the queue, does
-- not fault, leaves the queue with the value behind all others, and changes no node that is neither
-- new nor the last of the queue.
pub add_rear-IsQueue :
    (m : Cells) (q : Queue) (items : Items) (new v : ℕ)
    → IsQueue m q items
    → Absent new items
    → (m' : Cells) × (q' : Queue) × (add_rear new m q v ≡ some (m', q'))
      × IsQueue m' q' (items ++ (new, v) ∷ [])
      × ((p : ℕ) → p ≢ new → p ≢ last items → m' p ≡ m p)
unfolding add_rear
add_rear-IsQueue m q [] new v h out = (
  store m new (some (record { value = v; next = 0 })),
  record { count = q.count + 1; front = new; rear = new },
  ground (arith, h.counted),
  record {
    chain = ground arith;
    counted = omega (arith, h.counted);
    fronted = inr refl;
    reared = inr refl;
  },
  λ p a b. ground arith,
)
add_rear-IsQueue m q ((a, w) ∷ xs) new v h out =
    let tail = last ((a, w) ∷ xs) in
    let (u, old) = Chain-last m a w xs h.chain in
    let rear : q.rear ≡ tail = ground (arith, h.counted, h.reared) in
    let front : q.front ≡ a = ground (arith, h.counted, h.fronted) in
    let apart : tail ≢ new = λ e. Absent-last new a w xs out (sym e) in
    let made = store m new (some (record { value = v; next = 0 })) in
    let linked = store made tail (some (record { value = u; next = new })) in
    (
      linked,
      record { count = q.count + 1; front = a; rear = new },
      add_rear-run m q new v tail u a (omega (arith, h.counted)) rear front apart old,
      record {
        chain =
            Chain-append m linked a w xs new v u h.chain out old (ground arith) (ground arith)
              (λ p n l. ground arith);
        counted = omega (arith, h.counted, length-append {0} ((a, w) ∷ xs) ((new, v) ∷ []));
        fronted = inr refl;
        reared = inr (sym (last-append ((a, w) ∷ xs) new v));
      },
      λ p n l. ground arith,
    )

reared_after :
    (q : Queue) (a v : ℕ) (items : Items)
    → (q.count ≡ 0) ⊎ (q.rear ≡ last ((a, v) ∷ items))
    → q.count ≡ suc (length items)
    → (q.count - 1 ≡ 0) ⊎ (q.rear ≡ last items)
reared_after q a v [] r c = inl (omega arith)
reared_after q a v (x ∷ xs) (inl z) c = absurd (omega arith)
reared_after q a v (x ∷ xs) (inr e) c = inr e

-- remove_front on a queue with a first value returns it, does not fault, leaves the queue of the
-- others, frees that node and changes no other.
pub remove_front-IsQueue :
    (m : Cells) (q : Queue) (a v : ℕ) (items : Items)
    → IsQueue m q ((a, v) ∷ items)
    → (q' : Queue) × (remove_front m q ≡ some (v, store m a none, q'))
      × IsQueue (store m a none) q' items
unfolding remove_front
remove_front-IsQueue m q a v items h =
    let front : q.front ≡ a = ground (arith, h.counted, h.fronted) in
    let same : (p : ℕ) → p ≢ a → store m a none p ≡ m p = λ p ne. ground arith in
    (
      record { count = q.count - 1; front = first items; rear = q.rear },
      remove_front-run m q a v (first items) (omega (arith, h.counted)) front (h.chain.0),
      record {
        chain = Chain-frame m (store m a none) a items same (h.chain.1) (h.chain.2);
        counted = omega (arith, h.counted);
        fronted = inr refl;
        reared = reared_after q a v items h.reared h.counted;
      },
    )

-- The cells after the nodes `items` are freed.
abbrev pub freed : Cells → Items → Cells
freed m [] = m
freed m ((a, v) ∷ xs) = freed (store m a none) xs

destroy_loop-frees :
    (items : Items) (m : Cells) (q : Queue)
    → IsQueue m q items
    → destroy_loop (length items) m q ≡ some (freed m items)
unfolding destroy_loop
destroy_loop-frees [] m q h = ground (arith, h.counted)
destroy_loop-frees ((a, v) ∷ xs) m q h =
    let (q', run, h') = remove_front-IsQueue m q a v xs h in
    rw (==-ne q.count 0 (omega (arith, h.counted)), run)
      (destroy_loop-frees xs (store m a none) q' h')

-- destroy_queue of a queue whose own block is allocated ends without a fault, and frees each of its
-- nodes and that block, and nothing else.
pub destroy_queue-frees :
    (blocks : ℕ → Bool) (qptr : ℕ) (m : Cells) (q : Queue) (items : Items)
    → blocks qptr ≡ true
    → IsQueue m q items
    → destroy_queue blocks qptr m q ≡ some (freed m items, store blocks qptr false)
unfolding destroy_queue destroyed
destroy_queue-frees blocks qptr m q items mine h =
    let run : destroy_loop q.count m q ≡ some (freed m items) =
      simp h.counted (destroy_loop-frees items m q h) in
    rw (run, mine) refl

-- create_queue and remove_front on an empty queue.
pub create_queue-IsQueue :
    (m : Cells)
    → IsQueue m create_queue [] × (remove_front m create_queue ≡ some (0, m, create_queue))
unfolding create_queue remove_front
create_queue-IsQueue m = ground arith
