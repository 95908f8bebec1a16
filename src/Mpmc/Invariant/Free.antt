-- ===== src/Mpmc/Invariant/Free.antt =====
-- The end of dequeue, which frees a cell, and what other threads rely on.
use nohost_server.Base.{
  ℕ, suc, ◌+◌, ◌^◌, ◌≤◌, ◌<◌, ◌≡◌, ◌≢◌, inl, inr, some, ap, sym, ◌∙◌, arith, add64, ℕ_discrete,
}
use nohost_server.Mpmc.{slot, seq_at}
use nohost_server.Mpmc.Steps.{
  Thread, idle, e_load, e_look, e_swap, e_write, e_publish, d_load, d_look, d_swap, d_read,
  d_publish, History, free_cell,
}
use nohost_server.Mpmc.Invariant.{Next, Reading, Relies, Sound, dequeue_ticket}
use nohost_server.Mpmc.Invariant.Cells.{store-other, store-same, slot-differ, slot-near, slot-round}

module _ {n : ℕ} {m : History} (s : Sound n m) (two : 2 ≤ n) (small : m.ring.head_seq + n < 2 ^ 63)
    (t x : ℕ) (r : Reading n m t) where
  freed_number : add64 (add64 t m.ring.mask) 1 ≡ t + n
  freed_number = omega (arith, s.mask_is, s.ordered, r.0)

  kept_seq :
      (j : ℕ) → slot m.ring t ≢ slot m.ring j → seq_at (free_cell m t x).ring j ≡ seq_at m.ring j
  kept_seq j ne =
      store-other m.ring.seq (slot m.ring t) (add64 (add64 t m.ring.mask) 1) (slot m.ring j) ne

  given_cell : (j : ℕ) → m.ring.tail_seq ≤ j → j < m.ring.head_seq → slot m.ring t ≢ slot m.ring j
  given_cell j le lt = slot-near s t j (omega (arith, r.0)) (omega (arith, r.1))

  -- A cell with another sequence number keeps it.
  differs : (j v : ℕ) → seq_at m.ring j ≡ v → v ≢ suc t → slot m.ring t ≢ slot m.ring j
  differs j v e ne = slot-differ m.ring t j (λ q. ne (sym e ∙ sym q ∙ r.2))

  -- The cell of a ticket behind `t` whose number is the ticket.
  free_now : (j : ℕ) → t < j → seq_at m.ring j ≡ j → slot m.ring t ≢ slot m.ring j
  free_now j lt e = elim (ℕ_discrete j (suc t)) [
    | yes next ↦ slot-near s t j lt (omega arith)
    | no other ↦ differs j j e other
  ]

  Next-free_cell : (j : ℕ) → m.ring.head_seq ≤ j → Next n m j → Next n (free_cell m t x) j
  Next-free_cell j le now = elim (ℕ_discrete (t + n) j) [
    | yes round ↦
        let here = sym (slot-round s t) ∙ ap (slot m.ring) round in
        inl (
          store-same m.ring.seq (slot m.ring t) (add64 (add64 t m.ring.mask) 1) (slot m.ring j) here
          ∙ freed_number
          ∙ round)
    | no other ↦ elim now [
      | inl a ↦ inl (kept_seq j (free_now j (omega (arith, r.0, s.ordered)) a) ∙ a)
      | inr a ↦
          let apart = slot-differ m.ring t j (λ q. other (omega (arith, r.2))) in
          inr (ap (λ q. q + n) (kept_seq j apart) ∙ a)
    ]
  ]

  pub free_cell-Sound : x ≡ m.sent t → Sound n (free_cell m t x)
  free_cell-Sound e = record {
    masked = s.masked;
    mask_is = s.mask_is;
    counted = s.counted;
    ordered = s.ordered;
    near = s.near;
    used = λ j le lt.
        let kept = kept_seq j (given_cell j le lt) in
        elim (s.used j le lt) [ inl a ↦ inl (kept ∙ a) | inr (a, b) ↦ inr (kept ∙ a, b) ];
    free = λ j le lt. Next-free_cell j le (s.free j le lt);
    later = λ j le. store-other m.got t (some x) j (λ q. omega (arith, r.0)) ∙ s.later j le;
    right = λ j y g. elim (ℕ_discrete t j) [
      | yes same ↦
          let new = store-same m.got t (some x) j same in
          some_inj (sym g ∙ new) ∙ e ∙ ap m.sent same
      | no other ↦ s.right j y (sym (store-other m.got t (some x) j other) ∙ g)
    ];
  }
    where
      some_inj : {a b : ℕ} → some a ≡ some b → a ≡ b
      some_inj p = cc

  pub free_cell-Relies :
      (p : Thread) → dequeue_ticket p ≢ some t → Relies n m p → Relies n (free_cell m t x) p
  free_cell-Relies idle ne c = tt
  free_cell-Relies (e_load y) ne c = tt
  free_cell-Relies (e_look y a) ne c = c
  free_cell-Relies (e_swap y a) ne (le, f) =
      (le, λ q. kept_seq a (free_now a (omega (arith, r.0, s.ordered)) (f q)) ∙ f q)
  free_cell-Relies (e_write y a) ne ((b, c, d), f) = ((b, c, kept_seq a (given_cell a b c) ∙ d), f)
  free_cell-Relies (e_publish y a) ne ((b, c, d), f) =
      ((b, c, kept_seq a (given_cell a b c) ∙ d), f)
  free_cell-Relies d_load ne c = tt
  free_cell-Relies (d_look a) ne c = c
  free_cell-Relies (d_swap a) ne (le, f) =
      (le, λ q. kept_seq a (differs a (suc a) (f q) (λ same. omega (arith, r.0))) ∙ f q)
  free_cell-Relies (d_read a) ne ((b, c, d, g), f) =
      let other : t ≢ a = λ q. ne (ap some (sym q)) in
      (
        (
          b,
          c,
          kept_seq a (differs a (suc a) d (λ same. other (omega arith))) ∙ d,
          store-other m.got t (some x) a other ∙ g,
        ),
        f,
      )
  free_cell-Relies (d_publish a y) ne ((b, c, d, g), f) =
      let other : t ≢ a = λ q. ne (ap some (sym q)) in
      (
        (
          b,
          c,
          kept_seq a (differs a (suc a) d (λ same. other (omega arith))) ∙ d,
          store-other m.got t (some x) a other ∙ g,
        ),
        f,
      )
