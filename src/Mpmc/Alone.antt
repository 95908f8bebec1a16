-- ===== src/Mpmc/Alone.antt =====
-- lfmpmc.h: the three operations of a thread that no other disturbs, with compare-and-swaps that do
-- not fail without a reason. `none`: the loop goes round for ever, since nothing changes what it
-- reads.
use nohost_server.Base.{
  ℕ, ◌≡◌, refl, sym, ◌∙◌, Bool, true, false, Option, none, some, store, add64, ==-refl, ap,
}
use nohost_server.Mpmc.{Ring, slot, seq_at, Look, look, claim, give_up, reload}
use nohost_server.Mpmc.Invariant.Cells.{store-same}

enqueue_by : Ring → ℕ → Look → Option (Ring × Bool)
enqueue_by r input claim =
    let h = r.head_seq in
    some (
      record r {
        head_seq = add64 h 1;
        contents = store r.contents (slot r h) input;
        seq = store r.seq (slot r h) (add64 h 1);
      },
      true,
    )
enqueue_by r input give_up = some (r, false)
enqueue_by r input reload = none

pub enqueue_alone : Ring → ℕ → Option (Ring × Bool)
unfolding enqueue_by look
enqueue_alone r input = enqueue_by r input (look (seq_at r r.head_seq) r.head_seq)

dequeue_by : Ring → Look → Option (Ring × Option ℕ)
dequeue_by r claim =
    let t = r.tail_seq in
    some (
      record r { tail_seq = add64 t 1; seq = store r.seq (slot r t) (add64 (add64 t r.mask) 1) },
      some (r.contents (slot r t)),
    )
dequeue_by r give_up = some (r, none)
dequeue_by r reload = none

-- The element goes through `data`: `none` inside is the result false.
pub dequeue_alone : Ring → Option (Ring × Option ℕ)
unfolding dequeue_by look
dequeue_alone r = dequeue_by r (look (seq_at r r.tail_seq) (add64 r.tail_seq 1))

isempty_by : Ring → Look → Option (Ring × Bool)
isempty_by r claim = some (record r { tail_seq = add64 r.tail_seq 1 }, false)
isempty_by r give_up = some (r, true)
isempty_by r reload = none

-- isempty takes a ticket of dequeue, and leaves the cell as it is.
pub isempty_alone : Ring → Option (Ring × Bool)
unfolding isempty_by look
isempty_alone r = isempty_by r (look (seq_at r r.tail_seq) (add64 r.tail_seq 1))

pub look-same : (a b : ℕ) → a ≡ b → look a b ≡ claim
unfolding look
look-same a b e = rw (e, ==-refl b) refl

-- If the ring holds two elements or more, isempty says so, and takes the first away: the dequeue
-- behind it returns the second.
pub isempty-loses :
    (r : Ring)
    → seq_at r r.tail_seq ≡ add64 r.tail_seq 1
    → seq_at r (add64 r.tail_seq 1) ≡ add64 (add64 r.tail_seq 1) 1
    → (r' : Ring) × (r'' : Ring) × (isempty_alone r ≡ some (r', false))
      × (dequeue_alone r ≡ some (r'', some (r.contents (slot r r.tail_seq))))
      × ((q : Ring) × (dequeue_alone r'
            ≡ some (q, some (r.contents (slot r (add64 r.tail_seq 1))))))
unfolding isempty_alone dequeue_alone isempty_by dequeue_by
isempty-loses r first second = (
  record r { tail_seq = add64 r.tail_seq 1 },
  _,
  ap (isempty_by r) (look-same _ _ first),
  ap (dequeue_by r) (look-same _ _ first),
  (_, ap (dequeue_by (record r { tail_seq = add64 r.tail_seq 1 })) (look-same _ _ second)),
)

-- On a ring with no element whose next cell is free, a call of enqueue is accepted and the call of
-- dequeue behind it returns its element; the ring has no element again, and its cell is free for the
-- ticket one round on.
pub dequeue_alone-enqueue_alone :
    (r : Ring) (input : ℕ)
    → r.tail_seq ≡ r.head_seq
    → seq_at r r.head_seq ≡ r.head_seq
    → (r' : Ring) × (enqueue_alone r input ≡ some (r', true))
      × ((r'' : Ring) × (dequeue_alone r' ≡ some (r'', some input))
          × (r''.tail_seq ≡ r''.head_seq)
          × (seq_at r'' r.head_seq ≡ add64 (add64 r.head_seq r.mask) 1))
unfolding enqueue_alone dequeue_alone enqueue_by dequeue_by
dequeue_alone-enqueue_alone r input empty free =
    let h = r.head_seq in
    let r' : Ring = record r {
      head_seq = add64 h 1;
      contents = store r.contents (slot r h) input;
      seq = store r.seq (slot r h) (add64 h 1);
    } in
    let t = r.tail_seq in
    let place : slot r h ≡ slot r t = ap (slot r) (sym empty) in
    let number : seq_at r' t ≡ add64 t 1 =
      store-same r.seq (slot r h) (add64 h 1) (slot r t) place ∙ ap (λ a. add64 a 1) (sym empty) in
    let r'' : Ring = record r' {
      tail_seq = add64 t 1;
      seq = store r'.seq (slot r' t) (add64 (add64 t r'.mask) 1);
    } in
    (
      r',
      ap (enqueue_by r input) (look-same _ _ free),
      (
        r'',
        ap (dequeue_by r') (look-same _ _ number)
            ∙ ap (λ v. some (r'', some v))
                (store-same r.contents (slot r h) input (slot r t) place),
        ap (λ a. add64 a 1) empty,
        store-same r'.seq (slot r t) (add64 (add64 t r.mask) 1) (slot r h) (sym place)
            ∙ ap (λ a. add64 (add64 a r.mask) 1) empty,
      ),
    )
