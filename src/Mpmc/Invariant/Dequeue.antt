-- ===== src/Mpmc/Invariant/Dequeue.antt =====
-- The operations of dequeue on the ring, and what other threads rely on.
use nohost_server.Base.{ℕ, suc, ◌+◌, ◌^◌, ◌≤◌, ◌<◌, ◌≡◌, inl, inr, ap, arith, dec_lt, ℕ_discrete}
use nohost_server.Mpmc.{seq_at}
use nohost_server.Mpmc.Steps.{
  Thread, idle, e_load, e_look, e_swap, e_write, e_publish, d_load, d_look, d_swap, d_read,
  d_publish, History, take_tail,
}
use nohost_server.Mpmc.Invariant.{Reading, Relies, Sound}
use nohost_server.Mpmc.Invariant.Cells.{slot-round}

module _ {n : ℕ} {m : History} (s : Sound n m) (two : 2 ≤ n) (small : m.ring.head_seq + n < 2 ^ 63)
    (e : seq_at m.ring m.ring.tail_seq ≡ suc m.ring.tail_seq) where
  -- A cell that is published at the tail holds an element.
  pub some_left : m.ring.tail_seq < m.ring.head_seq
  some_left = elim (dec_lt m.ring.tail_seq m.ring.head_seq) [
    | yes lt ↦ lt
    | no ge ↦ elim (s.free m.ring.tail_seq (omega arith) (omega arith)) [
      | inl a ↦ absurd (omega arith)
      | inr a ↦ absurd (omega arith)
    ]
  ]

  pub take_tail-Sound : Sound n (take_tail m)
  take_tail-Sound = record {
    masked = s.masked;
    mask_is = s.mask_is;
    counted = s.counted;
    ordered = omega (arith, some_left);
    near = omega (arith, s.near, some_left);
    used = λ j le lt. s.used j (omega (arith, some_left)) lt;
    free = λ j le lt. elim (dec_lt j (m.ring.tail_seq + n)) [
      | yes old ↦ s.free j le old
      | no new ↦
          let here : m.ring.tail_seq + n ≡ j = omega (arith, some_left) in
          let same = ap m.ring.seq (slot-round s m.ring.tail_seq) in
          let there = ap (seq_at m.ring) here in inr (omega (arith, there))
    ];
    later = λ j le. s.later j (omega (arith, some_left));
    right = s.right;
  }

  after_tail : (a : ℕ) → m.ring.tail_seq ≤ a → seq_at m.ring a ≡ a → m.ring.tail_seq < a
  after_tail a le q = elim (ℕ_discrete m.ring.tail_seq a) [
    | yes same ↦ let there = ap (seq_at m.ring) same in absurd (omega arith)
    | no other ↦ omega arith
  ]

  pub take_tail-Relies : (p : Thread) → Relies n m p → Relies n (take_tail m) p
  take_tail-Relies idle r = tt
  take_tail-Relies (e_load y) r = tt
  take_tail-Relies (e_look y a) r = r
  take_tail-Relies (e_swap y a) r = r
  take_tail-Relies (e_write y a) ((b, c, d), f) =
      ((omega (arith, after_tail a b d, some_left), c, d), f)
  take_tail-Relies (e_publish y a) ((b, c, d), f) =
      ((omega (arith, after_tail a b d, some_left), c, d), f)
  take_tail-Relies d_load r = tt
  take_tail-Relies (d_look t) r = omega (arith, some_left)
  take_tail-Relies (d_swap t) (le, f) =
      (omega (arith, some_left), λ q. absurd (omega (arith, some_left)))
  take_tail-Relies (d_read t) ((a, b, c, g), d) = ((omega (arith, some_left), b, c, g), d)
  take_tail-Relies (d_publish t y) ((a, b, c, g), d) = ((omega (arith, some_left), b, c, g), d)

  pub take_tail-own : Relies n (take_tail m) (d_read m.ring.tail_seq)
  take_tail-own =
      let t = m.ring.tail_seq in
      let reading : Reading n (take_tail m) t =
        (omega (arith, some_left), s.near, e, s.later t (omega arith)) in
      elim (s.used t (omega arith) some_left) [
        | inl a ↦ absurd (omega arith)
        | inr (a, b) ↦ (reading, b)
      ]
