-- ===== src/Mpmc/Exclusive.antt =====
-- lfmpmc.h: which cell a call is about to write or to read.
use nohost_server.Base.{
  ℕ, ◌+◌, ◌-◌, ◌^◌, ◌≤◌, ◌<◌, ◌≡◌, ◌≢◌, ◌⊎◌, inl, inr, Option, none, some, sym, ◌∙◌, refl, ap,
  arith,
}
use nohost_server.Mpmc.{Ring, create, slot}
use nohost_server.Mpmc.Steps.{
  Thread, History, idle, e_load, e_look, e_swap, e_write, e_publish, d_load, d_look, d_swap, d_read,
  d_publish, System, Reach,
}
use nohost_server.Mpmc.Invariant.{
  Relies, Writing, Reading, enqueue_ticket, dequeue_ticket, Inv, Sound,
}
use nohost_server.Mpmc.Invariant.Cells.{slot-near, slot-apart}
use nohost_server.Mpmc.Delivery.{Reach-Inv}

-- The cell that a thread past its compare-and-swap works on: enqueue writes and publishes it,
-- dequeue reads and frees it.
abbrev pub cell_of : Ring → Thread → Option ℕ
cell_of r (e_write x h) = some (slot r h)
cell_of r (e_publish x h) = some (slot r h)
cell_of r (d_read t) = some (slot r t)
cell_of r (d_publish t x) = some (slot r t)
cell_of r p = none

-- A thread with the cell `c` has a ticket for it.
record Holder (n : ℕ) (m : History) (p : Thread) (c : ℕ) : Type 0 where
  ticket : ℕ
  cell : slot m.ring ticket ≡ c
  side :
      ((enqueue_ticket p ≡ some ticket) × Writing m ticket)
      ⊎ ((dequeue_ticket p ≡ some ticket) × Reading n m ticket)

cell_of-Holder :
    (n : ℕ) (m : History) (p : Thread) (c : ℕ)
    → Relies n m p
    → cell_of m.ring p ≡ some c
    → Holder n m p c
cell_of-Holder n m idle c r e = cc
cell_of-Holder n m (e_load x) c r e = cc
cell_of-Holder n m (e_look x h) c r e = cc
cell_of-Holder n m (e_swap x h) c r e = cc
cell_of-Holder n m (e_write x h) c r e = record { ticket = h; cell = cc; side = inl (refl, r.0) }
cell_of-Holder n m (e_publish x h) c r e = record { ticket = h; cell = cc; side = inl (refl, r.0) }
cell_of-Holder n m d_load c r e = cc
cell_of-Holder n m (d_look t) c r e = cc
cell_of-Holder n m (d_swap t) c r e = cc
cell_of-Holder n m (d_read t) c r e = record { ticket = t; cell = cc; side = inr (refl, r.0) }
cell_of-Holder n m (d_publish t x) c r e = record { ticket = t; cell = cc; side = inr (refl, r.0) }

module _ {n : ℕ} {m : History} (s : Sound n m) where
  writers-apart : (a b : ℕ) → Writing m a → Writing m b → a ≢ b → slot m.ring a ≢ slot m.ring b
  writers-apart a b wa wb =
      let (lo, hi, free) = wa in
      let (lo', hi', free') = wb in
      slot-apart s a b m.ring.tail_seq lo (omega (arith, s.near)) lo' (omega (arith, s.near))

  readers-apart : (a b : ℕ) → Reading n m a → Reading n m b → a ≢ b → slot m.ring a ≢ slot m.ring b
  readers-apart a b ra rb =
      let (lo, near, full, none_yet) = ra in
      let (lo', near', full', none_yet') = rb in
      slot-apart s a b (m.ring.head_seq - n) (omega arith) (omega (arith, s.ordered)) (omega arith)
        (omega (arith, s.ordered))

  sides-apart : (h t : ℕ) → Writing m h → Reading n m t → slot m.ring t ≢ slot m.ring h
  sides-apart h t w r =
      let (lo, hi, free) = w in
      let (given, near, full, none_yet) = r in slot-near s t h (omega arith) (omega arith)

holders-apart :
    {n : ℕ} {m : History} {threads : ℕ → Thread} (inv : Inv n m threads) (i j c : ℕ)
    → i ≢ j
    → Holder n m (threads i) c
    → Holder n m (threads j) c
    → ⊥
holders-apart inv i j c ne a b =
    let same = a.cell ∙ sym b.cell in
    elim a.side [
      | inl (ta, wa) ↦ elim b.side [
        | inl (tb, wb) ↦
            writers-apart inv.sound a.ticket b.ticket wa wb
              (λ e. ne (inv.writers i j b.ticket (ta ∙ ap some e) tb)) same
        | inr (tb, rb) ↦ sides-apart inv.sound a.ticket b.ticket wa rb (sym same)
      ]
      | inr (ta, ra) ↦ elim b.side [
        | inl (tb, wb) ↦ sides-apart inv.sound b.ticket a.ticket wb ra same
        | inr (tb, rb) ↦
            readers-apart inv.sound a.ticket b.ticket ra rb
              (λ e. ne (inv.readers i j b.ticket (ta ∙ ap some e) tb)) same
      ]
    ]

-- However the steps of any number of threads that call enqueue and dequeue on a new ring of 2^k cells,
-- two or more, interleave, and as long as the counters do not come near 2^63: two threads that are
-- past the compare-and-swap of their calls, whichever operation each of them runs, work on
-- different cells.
pub Reach-exclusive :
    (k : ℕ) {r : Ring} {s : System} (i j c : ℕ)
    → 1 ≤ k
    → k ≤ 62
    → create (2 ^ k) ≡ some r
    → Reach r s
    → s.mem.sent_count + 2 ^ k < 2 ^ 63
    → i ≢ j
    → ¬ ((cell_of s.mem.ring (s.threads i) ≡ some c) × (cell_of s.mem.ring (s.threads j) ≡ some c))
Reach-exclusive k {r} {s} i j c cells small e reach few ne both =
    let inv = Reach-Inv k cells small e reach few in
    holders-apart inv i j c ne
      (cell_of-Holder (2 ^ k) s.mem (s.threads i) c (inv.relies i) (both.0))
      (cell_of-Holder (2 ^ k) s.mem (s.threads j) c (inv.relies j) (both.1))
