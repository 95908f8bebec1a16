-- ===== src/Mpmc/Invariant/Enqueue.antt =====
-- The operations of enqueue on the ring, and what other threads rely on.
use nohost_server.Base.{ℕ, ◌+◌, ◌^◌, ◌≤◌, ◌<◌, ◌≡◌, inl, inr, some, ap, sym, ◌∙◌, arith, dec_lt}
use nohost_server.Mpmc.{seq_at}
use nohost_server.Mpmc.Steps.{
  Thread, idle, e_load, e_look, e_swap, e_write, e_publish, d_load, d_look, d_swap, d_read,
  d_publish, History, take_head,
}
use nohost_server.Mpmc.Invariant.{Reading, Relies, Sound}
use nohost_server.Mpmc.Invariant.Cells.{store-other, slot-round}

module _ {n : ℕ} {m : History} (s : Sound n m) (two : 2 ≤ n)
    (small : m.ring.head_seq + n < 2 ^ 63) where
  -- A ticket whose element was returned was given.
  pub got_before : (j x : ℕ) → m.got j ≡ some x → j < m.ring.tail_seq
  got_before j x e = elim (dec_lt j m.ring.tail_seq) [
    | yes lt ↦ lt
    | no ge ↦ let none_yet = s.later j (omega arith) in cc
  ]

  -- If the cell of the next ticket is free, there is room.
  pub room : seq_at m.ring m.ring.head_seq ≡ m.ring.head_seq → m.ring.head_seq < m.ring.tail_seq + n
  room e = elim (dec_lt m.ring.head_seq (m.ring.tail_seq + n)) [
    | yes lt ↦ lt
    | no ge ↦
        let full : m.ring.head_seq ≡ m.ring.tail_seq + n = omega (arith, s.near) in
        let same = ap m.ring.seq (slot-round s m.ring.tail_seq) in
        let there = ap (seq_at m.ring) full in
        elim (s.used m.ring.tail_seq (omega arith) (omega arith)) [
          | inl a ↦ absurd (omega arith)
          | inr (a, b) ↦ absurd (omega arith)
        ]
  ]

  pub take_head-Sound :
      (x : ℕ) → seq_at m.ring m.ring.head_seq ≡ m.ring.head_seq → Sound n (take_head m x)
  take_head-Sound x e = record {
    masked = s.masked;
    mask_is = s.mask_is;
    counted = omega (arith, s.counted);
    ordered = omega (arith, s.ordered);
    near = omega (arith, room e);
    used = λ j le lt. elim (dec_lt j m.ring.head_seq) [
      | yes old ↦ elim (s.used j le old) [
        | inl a ↦ inl a
        | inr (a, b) ↦
            inr (a, b ∙ sym (store-other m.sent m.sent_count x j (λ q. omega (arith, s.counted))))
      ]
      | no new ↦ let here : j ≡ m.ring.head_seq = omega arith in inl (rw here e)
    ];
    free = λ j le lt. s.free j (omega arith) lt;
    later = s.later;
    right = λ j y g.
        s.right j y g
        ∙ sym (
            store-other m.sent m.sent_count x j
              (λ q. omega (arith, s.counted, s.ordered, got_before j y g)));
  }

  -- A reader's cell is not the one that is free.
  reader-room :
      (t : ℕ)
      → seq_at m.ring m.ring.head_seq ≡ m.ring.head_seq
      → Reading n m t
      → m.ring.head_seq < t + n
  reader-room t e (lt, le, q, g) = elim (dec_lt m.ring.head_seq (t + n)) [
    | yes yes_lt ↦ yes_lt
    | no ge ↦
        let full : m.ring.head_seq ≡ t + n = omega arith in
        let same = ap m.ring.seq (slot-round s t) in
        let there = ap (seq_at m.ring) full in absurd (omega arith)
  ]

  pub take_head-Relies :
      (x : ℕ) (p : Thread)
      → seq_at m.ring m.ring.head_seq ≡ m.ring.head_seq
      → Relies n m p
      → Relies n (take_head m x) p
  take_head-Relies x idle e r = tt
  take_head-Relies x (e_load y) e r = tt
  take_head-Relies x (e_look y h) e r = omega arith
  take_head-Relies x (e_swap y h) e (le, f) = (omega arith, λ q. absurd (omega arith))
  take_head-Relies x (e_write y h) e ((a, b, c), d) =
      ((a, omega arith, c), store-other m.sent m.sent_count x h (λ q. omega (arith, s.counted)) ∙ d)
  take_head-Relies x (e_publish y h) e ((a, b, c), d) = (
    (a, omega arith, c),
    d ∙ sym (store-other m.sent m.sent_count x h (λ q. omega (arith, s.counted))),
  )
  take_head-Relies x d_load e r = tt
  take_head-Relies x (d_look t) e r = r
  take_head-Relies x (d_swap t) e r = r
  take_head-Relies x (d_read t) e ((a, b, c, g), d) = (
    (a, omega (arith, reader-room t e (a, b, c, g)), c, g),
    d ∙ sym (store-other m.sent m.sent_count x t (λ q. omega (arith, s.counted, s.ordered))),
  )
  take_head-Relies x (d_publish t y) e ((a, b, c, g), d) = (
    (a, omega (arith, reader-room t e (a, b, c, g)), c, g),
    d ∙ sym (store-other m.sent m.sent_count x t (λ q. omega (arith, s.counted, s.ordered))),
  )
