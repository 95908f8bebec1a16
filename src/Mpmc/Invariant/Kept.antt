-- ===== src/Mpmc/Invariant/Kept.antt =====
-- Every operation of every thread keeps what holds.
use nohost_server.Base.{
  ℕ, ◌+◌, ◌^◌, ◌≤◌, ◌<◌, ◌≡◌, ◌≢◌, inl, inr, some, store, ap, sym, refl, ◌∙◌, arith, Bool-cases,
  ==→eq, ◌==◌,
}
use nohost_server.Mpmc.{seq_at, look, claim, give_up, reload, is_before}
use nohost_server.Mpmc.Steps.{
  Thread, History, take_head, write_cell, publish_cell, idle, e_swap, e_write, e_publish, d_read,
  d_publish,
}
use nohost_server.Mpmc.Invariant.{Relies, enqueue_ticket, dequeue_ticket, Inv}
use nohost_server.Mpmc.Invariant.Cells.{store-other, store-same}
use nohost_server.Mpmc.Invariant.Enqueue.{take_head-Sound, take_head-Relies}
use nohost_server.Mpmc.Invariant.Publish.{
  write_cell-Sound, write_cell-Relies, write_cell-own, publish_cell-Sound, publish_cell-Relies,
}
use nohost_server.Mpmc.Invariant.Moves.{settle, account_same, Fresh-none, Fresh-same}

-- A cell that is claimed has the number that was wanted.
pub look-claim : (a b : ℕ) → look a b ≡ claim → a ≡ b
unfolding look
look-claim a b e = elim (Bool-cases (a == b)) [
  | inl same ↦ ==→eq a b same
  | inr other ↦ elim (Bool-cases (is_before a b)) [
    | inl before ↦ let wrong : give_up ≡ claim = rw (other, before) at e in cc
    | inr behind ↦ let wrong : reload ≡ claim = rw (other, behind) at e in cc
  ]
]

pub some_same : {a b : ℕ} → some a ≡ some b → a ≡ b
some_same e = cc

writer_below :
    (n : ℕ) (m : History) (p : Thread) (k : ℕ)
    → enqueue_ticket p ≡ some k
    → Relies n m p
    → k < m.ring.head_seq
writer_below n m (e_write x h) k e ((a, b, c), d) = omega (arith, some_same e)
writer_below n m (e_publish x h) k e ((a, b, c), d) = omega (arith, some_same e)
writer_below n m p k e r = cc

pub reader_below :
    (n : ℕ) (m : History) (p : Thread) (k : ℕ)
    → dequeue_ticket p ≡ some k
    → Relies n m p
    → k < m.ring.tail_seq
reader_below n m (d_read t) k e ((a, b, c, g), d) = omega (arith, some_same e)
reader_below n m (d_publish t x) k e ((a, b, c, g), d) = omega (arith, some_same e)
reader_below n m p k e r = cc

module _ {n : ℕ} {m : History} {threads : ℕ → Thread} (inv : Inv n m threads) (i : ℕ)
    (two : 2 ≤ n) where
  small_now : m.sent_count + n < 2 ^ 63 → m.ring.head_seq + n < 2 ^ 63
  small_now small = omega (arith, inv.sound.counted)

  pub writer_apart :
      (h : ℕ)
      → enqueue_ticket (threads i) ≡ some h
      → (j : ℕ) → i ≢ j
      → enqueue_ticket (threads j) ≢ some h
  writer_apart h e j ne = λ other. ne (inv.writers i j h e other)

  pub reader_apart :
      (t : ℕ)
      → dequeue_ticket (threads i) ≡ some t
      → (j : ℕ) → i ≢ j
      → dequeue_ticket (threads j) ≢ some t
  reader_apart t e j ne = λ other. ne (inv.readers i j t e other)

  pub after_take_head :
      (x h : ℕ)
      → threads i ≡ e_swap x h
      → Relies n m (e_swap x h)
      → m.ring.head_seq ≡ h
      → m.ring.head_seq + n < 2 ^ 63
      → Inv n (take_head m x) (store threads i (e_write x h))
  after_take_head x h at (le, f) e small =
      let s = inv.sound in
      let q : seq_at m.ring m.ring.head_seq ≡ m.ring.head_seq =
        ap (seq_at m.ring) e ∙ f (sym e) ∙ sym e in
      settle inv i (take_head m x) (e_write x h) (take_head-Sound s two small x q)
        (
          (omega (arith, s.ordered), omega arith, f (sym e)),
          store-same m.sent m.sent_count x h (sym s.counted ∙ e),
        )
        (λ j ne. take_head-Relies s two small x (threads j) q (inv.relies j))
        (λ k j own ne other.
          omega (arith, some_same own, writer_below n m (threads j) k other (inv.relies j)))
        (Fresh-none inv i dequeue_ticket (e_write x h) refl)
        (account_same inv i (take_head m x) (e_write x h) (sym (ap dequeue_ticket at)) refl
          (λ t lt.
            store-other m.sent m.sent_count x t (λ same. omega (arith, s.counted, s.ordered)))
          (λ t. refl))

  pub after_write :
      (x h : ℕ)
      → threads i ≡ e_write x h
      → Relies n m (e_write x h)
      → m.ring.head_seq + n < 2 ^ 63
      → Inv n (write_cell m h x) (store threads i (e_publish x h))
  after_write x h at (w, e) small =
      let s = inv.sound in
      settle inv i (write_cell m h x) (e_publish x h) (write_cell-Sound s two small h w x)
        (write_cell-own s two small h w x e)
        (λ j ne.
          write_cell-Relies s two small h w x (threads j)
            (writer_apart h (ap enqueue_ticket at) j ne) (inv.relies j))
        (Fresh-same inv i enqueue_ticket (e_publish x h) inv.writers (sym (ap enqueue_ticket at)))
        (Fresh-none inv i dequeue_ticket (e_publish x h) refl)
        (account_same inv i (write_cell m h x) (e_publish x h) (sym (ap dequeue_ticket at)) refl
          (λ t lt. refl) (λ t. refl))

  pub after_publish :
      (x h : ℕ)
      → threads i ≡ e_publish x h
      → Relies n m (e_publish x h)
      → m.ring.head_seq + n < 2 ^ 63
      → Inv n (publish_cell m h) (store threads i idle)
  after_publish x h at (w, e) small =
      let s = inv.sound in
      settle inv i (publish_cell m h) idle (publish_cell-Sound s two small h w e) tt
        (λ j ne.
          publish_cell-Relies s two small h w (threads j)
            (writer_apart h (ap enqueue_ticket at) j ne) (inv.relies j))
        (Fresh-none inv i enqueue_ticket idle refl) (Fresh-none inv i dequeue_ticket idle refl)
        (account_same inv i (publish_cell m h) idle (sym (ap dequeue_ticket at)) refl (λ t lt. refl)
          (λ t. refl))
