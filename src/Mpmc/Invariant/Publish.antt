-- ===== src/Mpmc/Invariant/Publish.antt =====
-- The write of a cell and its publication by enqueue, and what other threads rely on.
use nohost_server.Base.{
  ℕ, suc, ◌+◌, ◌^◌, ◌≤◌, ◌<◌, ◌≡◌, ◌≢◌, inl, inr, some, ap, sym, refl, ◌∙◌, arith, add64,
  ℕ_discrete,
}
use nohost_server.Mpmc.{slot, seq_at}
use nohost_server.Mpmc.Steps.{
  Thread, idle, e_load, e_look, e_swap, e_write, e_publish, d_load, d_look, d_swap, d_read,
  d_publish, History, write_cell, publish_cell,
}
use nohost_server.Mpmc.Invariant.{Writing, Reading, Relies, Sound, enqueue_ticket}
use nohost_server.Mpmc.Invariant.Cells.{store-other, store-same, slot-differ, slot-near, slot-apart}

module _ {n : ℕ} {m : History} (s : Sound n m) (two : 2 ≤ n) (small : m.ring.head_seq + n < 2 ^ 63)
    (h : ℕ) (w : Writing m h) where
  -- The cells of the tickets that were given and of those that come next are other cells.
  other_cell :
      (j : ℕ)
      → m.ring.tail_seq ≤ j
      → j < m.ring.tail_seq + n
      → h ≢ j
      → slot m.ring h ≢ slot m.ring j
  other_cell j le lt ne =
      slot-apart s h j m.ring.tail_seq (w.0) (omega (arith, s.near, w.1)) le lt ne

  reader_cell : (t : ℕ) → Reading n m t → slot m.ring h ≢ slot m.ring t
  reader_cell t (lt, le, q, g) =
      λ e. slot-near s t h (omega (arith, w.0)) (omega (arith, w.1)) (sym e)

  pub write_cell-Sound : (x : ℕ) → Sound n (write_cell m h x)
  write_cell-Sound x = record {
    masked = s.masked;
    mask_is = s.mask_is;
    counted = s.counted;
    ordered = s.ordered;
    near = s.near;
    used = λ j le lt. elim (ℕ_discrete h j) [
      | yes same ↦ inl (rw same at (w.2))
      | no other ↦ elim (s.used j le lt) [
        | inl a ↦ inl a
        | inr (a, b) ↦ inr (
          a,
          store-other m.ring.contents (slot m.ring h) x (slot m.ring j)
                (other_cell j le (omega (arith, s.near)) other)
              ∙ b,
        )
      ]
    ];
    free = s.free;
    later = s.later;
    right = s.right;
  }

  pub write_cell-Relies :
      (x : ℕ) (p : Thread)
      → enqueue_ticket p ≢ some h
      → Relies n m p
      → Relies n (write_cell m h x) p
  write_cell-Relies x idle ne r = tt
  write_cell-Relies x (e_load y) ne r = tt
  write_cell-Relies x (e_look y a) ne r = r
  write_cell-Relies x (e_swap y a) ne r = r
  write_cell-Relies x (e_write y a) ne r = r
  write_cell-Relies x (e_publish y a) ne ((b, c, d), e) = (
    (b, c, d),
    store-other m.ring.contents (slot m.ring h) x (slot m.ring a)
          (other_cell a b (omega (arith, s.near)) (λ q. ne (ap some (sym q))))
        ∙ e,
  )
  write_cell-Relies x d_load ne r = tt
  write_cell-Relies x (d_look t) ne r = r
  write_cell-Relies x (d_swap t) ne r = r
  write_cell-Relies x (d_read t) ne (r, d) =
      (r, store-other m.ring.contents (slot m.ring h) x (slot m.ring t) (reader_cell t r) ∙ d)
  write_cell-Relies x (d_publish t y) ne r = r

  pub write_cell-own : (x : ℕ) → m.sent h ≡ x → Relies n (write_cell m h x) (e_publish x h)
  write_cell-own x e =
      (w, store-same m.ring.contents (slot m.ring h) x (slot m.ring h) refl ∙ sym e)

  -- The sequence numbers behind the publication.
  kept_seq :
      (j : ℕ) → slot m.ring h ≢ slot m.ring j → seq_at (publish_cell m h).ring j ≡ seq_at m.ring j
  kept_seq j ne = store-other m.ring.seq (slot m.ring h) (add64 h 1) (slot m.ring j) ne

  pub publish_cell-Sound : m.ring.contents (slot m.ring h) ≡ m.sent h → Sound n (publish_cell m h)
  publish_cell-Sound e = record {
    masked = s.masked;
    mask_is = s.mask_is;
    counted = s.counted;
    ordered = s.ordered;
    near = s.near;
    used = λ j le lt. elim (ℕ_discrete h j) [
      | yes same ↦
          let new =
            store-same m.ring.seq (slot m.ring h) (add64 h 1) (slot m.ring j)
              (ap (slot m.ring) same) in
          inr (new ∙ omega (arith, same), rw same at e)
      | no other ↦
          let kept = kept_seq j (other_cell j le (omega (arith, s.near)) other) in
          elim (s.used j le lt) [ inl a ↦ inl (kept ∙ a) | inr (a, b) ↦ inr (kept ∙ a, b) ]
    ];
    free = λ j le lt.
        let kept =
          kept_seq j (other_cell j (omega (arith, s.ordered)) lt (λ q. omega (arith, w.1))) in
        elim (s.free j le lt) [ inl a ↦ inl (kept ∙ a) | inr a ↦ inr (ap (λ q. q + n) kept ∙ a) ];
    later = s.later;
    right = s.right;
  }

  -- A cell with another sequence number than `h` keeps it.
  differs : (j v : ℕ) → seq_at m.ring j ≡ v → v ≢ h → slot m.ring h ≢ slot m.ring j
  differs j v e ne = slot-differ m.ring h j (λ q. ne (sym e ∙ sym q ∙ w.2))

  swap_cell :
      (t : ℕ) → t ≡ m.ring.tail_seq → seq_at m.ring t ≡ suc t → slot m.ring h ≢ slot m.ring t
  swap_cell t is q =
      other_cell t (omega arith) (omega arith)
        (λ same. let there = ap (seq_at m.ring) same in omega (arith, w.2))

  pub publish_cell-Relies :
      (p : Thread) → enqueue_ticket p ≢ some h → Relies n m p → Relies n (publish_cell m h) p
  publish_cell-Relies idle ne r = tt
  publish_cell-Relies (e_load y) ne r = tt
  publish_cell-Relies (e_look y a) ne r = r
  publish_cell-Relies (e_swap y a) ne (le, f) =
      (le, λ q. kept_seq a (differs a a (f q) (λ same. omega (arith, w.1))) ∙ f q)
  publish_cell-Relies (e_write y a) ne ((b, c, d), e) =
      ((b, c, kept_seq a (differs a a d (λ q. ne (ap some q))) ∙ d), e)
  publish_cell-Relies (e_publish y a) ne ((b, c, d), e) =
      ((b, c, kept_seq a (differs a a d (λ q. ne (ap some q))) ∙ d), e)
  publish_cell-Relies d_load ne r = tt
  publish_cell-Relies (d_look t) ne r = r
  publish_cell-Relies (d_swap t) ne (le, f) = (le, λ q. kept_seq t (swap_cell t q (f q)) ∙ f q)
  publish_cell-Relies (d_read t) ne ((a, b, c, g), d) =
      ((a, b, kept_seq t (reader_cell t (a, b, c, g)) ∙ c, g), d)
  publish_cell-Relies (d_publish t y) ne ((a, b, c, g), d) =
      ((a, b, kept_seq t (reader_cell t (a, b, c, g)) ∙ c, g), d)
