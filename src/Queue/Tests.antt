-- ===== src/Queue/Tests.antt =====
-- A queue of two nodes.
use nohost_server.Base.{true, false, ℕ, ◌≡◌, ◌≢◌, refl, [], ◌∷◌, none, some, arith, store, inr}
use nohost_server.Queue.{Cells, Queue, create_queue, add_rear, remove_front, destroy_queue}
use nohost_server.Queue.Chains.{Items, IsQueue}
use nohost_server.Queue.Laws.{
  add_rear-IsQueue, remove_front-IsQueue, destroy_queue-frees, create_queue-IsQueue,
}

abbrev cells : Cells
cells =
    store (store (λ _. none) 1 (some (record { value = 5; next = 2 }))) 2
      (some (record { value = 6; next = 0 }))

abbrev two : Queue
two = record { count = 2; front = 1; rear = 2 }

abbrev items : Items
items = (1, 5) ∷ ((2, 6) ∷ [])

two-IsQueue : IsQueue cells two items
two-IsQueue = record { chain = ground arith; counted = refl; fronted = inr refl; reared = inr refl }

add_rear-IsQueue_example :
    (m' : Cells) × (q' : Queue) × (add_rear 3 cells two 7 ≡ some (m', q'))
    × IsQueue m' q' ((1, 5) ∷ ((2, 6) ∷ ((3, 7) ∷ [])))
    × ((p : ℕ) → p ≢ 3 → p ≢ 2 → m' p ≡ cells p)
add_rear-IsQueue_example = add_rear-IsQueue cells two items 3 7 two-IsQueue (ground arith)

remove_front-IsQueue_example :
    (q' : Queue) × (remove_front cells two ≡ some (5, store cells 1 none, q'))
    × IsQueue (store cells 1 none) q' ((2, 6) ∷ [])
remove_front-IsQueue_example = remove_front-IsQueue cells two 1 5 ((2, 6) ∷ []) two-IsQueue

destroy_queue-frees_example :
    destroy_queue (λ _. true) 9 cells two
    ≡ some (store (store cells 1 none) 2 none, store (λ _. true) 9 false)
destroy_queue-frees_example = destroy_queue-frees (λ _. true) 9 cells two items refl two-IsQueue

create_queue-IsQueue_example :
    IsQueue cells create_queue []
    × (remove_front cells create_queue ≡ some (0, cells, create_queue))
create_queue-IsQueue_example = create_queue-IsQueue cells
