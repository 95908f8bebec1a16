-- ===== src/Mpmc/Invariant/Every.antt =====
-- The operations of dequeue, and every step of a run.
use nohost_server.Base.{
  ℕ, suc, ◌+◌, ◌^◌, ◌≤◌, ◌<◌, ◌≡◌, inl, inr, none, some, store, ap, sym, refl, ◌∙◌, arith, dec_lt,
  add64, ℕ_discrete,
}
use mathlib.Core.Path.{subst}
use nohost_server.Mpmc.{slot, seq_at, look, claim}
use nohost_server.Mpmc.Steps.{
  Thread, History, Move, begin_enqueue, load_head, cell_free, full, head_moved, head_taken,
  head_lost, written, published, begin_dequeue, load_tail, cell_used, empty, tail_moved, tail_taken,
  tail_lost, read, freed, take_tail, free_cell, idle, e_load, e_look, e_swap, e_write, e_publish,
  d_load, d_look, d_swap, d_read, d_publish,
}
use nohost_server.Mpmc.Invariant.{Relies, enqueue_ticket, dequeue_ticket, Inv}
use nohost_server.Mpmc.Invariant.Cells.{store-other, store-same}
use nohost_server.Mpmc.Invariant.Dequeue.{take_tail-Sound, take_tail-Relies, take_tail-own}
use nohost_server.Mpmc.Invariant.Free.{free_cell-Sound, free_cell-Relies}
use nohost_server.Mpmc.Invariant.Moves.{store-cases, settle, Fresh-none, local}
use nohost_server.Mpmc.Invariant.Kept.{
  look-claim, some_same, reader_below, reader_apart, after_take_head, after_write, after_publish,
}

module _ {n : ℕ} {m : History} {threads : ℕ → Thread} (inv : Inv n m threads) (i : ℕ)
    (two : 2 ≤ n) where
  after_take_tail :
      (t : ℕ)
      → threads i ≡ d_swap t
      → Relies n m (d_swap t)
      → m.ring.tail_seq ≡ t
      → m.ring.head_seq + n < 2 ^ 63
      → Inv n (take_tail m) (store threads i (d_read t))
  after_take_tail t at (le, f) e small =
      let s = inv.sound in
      let q : seq_at m.ring m.ring.tail_seq ≡ suc m.ring.tail_seq =
        ap (seq_at m.ring) e ∙ f (sym e) ∙ ap suc (sym e) in
      let next : add64 m.ring.tail_seq 1 ≡ suc m.ring.tail_seq = omega (arith, s.ordered) in
      settle inv i (take_tail m) (d_read t) (take_tail-Sound s two small q)
        (subst (λ a. Relies n (take_tail m) (d_read a)) e (take_tail-own s two small q))
        (λ j ne. take_tail-Relies s two small q (threads j) (inv.relies j))
        (Fresh-none inv i enqueue_ticket (d_read t) refl)
        (λ k j own ne other.
          omega (arith, some_same own, reader_below n m (threads j) k other (inv.relies j)))
        (λ k lt. elim (dec_lt k m.ring.tail_seq) [
          | yes old ↦ elim (inv.accounted k old) [
            | inl g ↦ inl g
            | inr (j, held) ↦ inr (
              j,
              store-cases (λ p. dequeue_ticket p ≡ some k) threads i (d_read t) j
                  (λ same.
                    let none_held : none ≡ some k =
                      sym (ap dequeue_ticket at)
                      ∙ ap (λ a. dequeue_ticket (threads a)) same
                      ∙ held in
                    cc)
                  (λ ne. held),
            )
          ]
          | no new ↦
              let here : k ≡ m.ring.tail_seq = omega (arith, next) in
              inr (
                i,
                store-cases (λ p. dequeue_ticket p ≡ some k) threads i (d_read t) i
                    (λ same. ap some (sym e ∙ sym here)) (λ ne. absurd (ne refl)),
              )
        ])

  after_read :
      (t : ℕ)
      → threads i ≡ d_read t
      → Relies n m (d_read t)
      → Inv n m (store threads i (d_publish t (m.ring.contents (slot m.ring t))))
  after_read t at (r, d) =
      local inv i (d_publish t (m.ring.contents (slot m.ring t))) (r, d)
        (sym (ap enqueue_ticket at)) (sym (ap dequeue_ticket at))

  after_free :
      (t x : ℕ)
      → threads i ≡ d_publish t x
      → Relies n m (d_publish t x)
      → m.ring.head_seq + n < 2 ^ 63
      → Inv n (free_cell m t x) (store threads i idle)
  after_free t x at (r, d) small =
      let s = inv.sound in
      settle inv i (free_cell m t x) idle (free_cell-Sound s two small t x r d) tt
        (λ j ne.
          free_cell-Relies s two small t x r (threads j)
            (reader_apart inv i two t (ap dequeue_ticket at) j ne) (inv.relies j))
        (Fresh-none inv i enqueue_ticket idle refl) (Fresh-none inv i dequeue_ticket idle refl)
        (λ k lt. elim (ℕ_discrete t k) [
          | yes same ↦ inl (store-same m.got t (some x) k same ∙ ap some (d ∙ ap m.sent same))
          | no other ↦ elim (inv.accounted k lt) [
            | inl g ↦ inl (store-other m.got t (some x) k other ∙ g)
            | inr (j, held) ↦ inr (
              j,
              store-cases (λ p. dequeue_ticket p ≡ some k) threads i idle j
                  (λ same.
                    let clash : some t ≡ some k =
                      sym (ap dequeue_ticket at)
                      ∙ ap (λ a. dequeue_ticket (threads a)) same
                      ∙ held in
                    absurd (other (some_same clash)))
                  (λ ne. held),
            )
          ]
        ])

  -- A step of thread `i` at `p` that changes neither the ring nor the tickets.
  quiet :
      (p q : Thread)
      → threads i ≡ p
      → Relies n m q
      → enqueue_ticket q ≡ enqueue_ticket p
      → dequeue_ticket q ≡ dequeue_ticket p
      → Inv n m (store threads i q)
  quiet p q at r e d =
      local inv i q r (e ∙ sym (ap enqueue_ticket at)) (d ∙ sym (ap dequeue_ticket at))

  relied : (p : Thread) → threads i ≡ p → Relies n m p
  relied p at = subst (Relies n m) at (inv.relies i)

  number_of :
      (t : ℕ)
      → t ≤ m.ring.tail_seq
      → m.ring.head_seq + n < 2 ^ 63
      → look (seq_at m.ring t) (add64 t 1) ≡ claim
      → seq_at m.ring t ≡ suc t
  number_of t le small e =
      let next : add64 t 1 ≡ suc t = omega (arith, inv.sound.ordered) in
      look-claim (seq_at m.ring t) (add64 t 1) e ∙ next

  pub Move-Inv :
      (p : Thread) (m' : History) (p' : Thread)
      → threads i ≡ p
      → m.ring.head_seq + n < 2 ^ 63
      → Move m p m' p'
      → Inv n m' (store threads i p')
  Move-Inv idle m' p' at small (begin_enqueue x) = quiet idle (e_load x) at tt refl refl
  Move-Inv (e_load x) m' p' at small load_head =
      quiet (e_load x) (e_look x m.ring.head_seq) at (omega arith) refl refl
  Move-Inv (e_look x h) m' p' at small (cell_free e) =
      quiet (e_look x h) (e_swap x h) at
        (relied (e_look x h) at, λ q. look-claim (seq_at m.ring h) h e) refl refl
  Move-Inv (e_look x h) m' p' at small (full e) = quiet (e_look x h) idle at tt refl refl
  Move-Inv (e_look x h) m' p' at small (head_moved e) =
      quiet (e_look x h) (e_load x) at tt refl refl
  Move-Inv (e_swap x h) m' p' at small (head_taken e) =
      after_take_head inv i two x h at (relied (e_swap x h) at) e small
  Move-Inv (e_swap x h) m' p' at small head_lost =
      quiet (e_swap x h) (e_look x m.ring.head_seq) at (omega arith) refl refl
  Move-Inv (e_write x h) m' p' at small written =
      after_write inv i two x h at (relied (e_write x h) at) small
  Move-Inv (e_publish x h) m' p' at small published =
      after_publish inv i two x h at (relied (e_publish x h) at) small
  Move-Inv idle m' p' at small begin_dequeue = quiet idle d_load at tt refl refl
  Move-Inv d_load m' p' at small load_tail =
      quiet d_load (d_look m.ring.tail_seq) at (omega arith) refl refl
  Move-Inv (d_look t) m' p' at small (cell_used e) =
      quiet (d_look t) (d_swap t) at
        (relied (d_look t) at, λ q. number_of t (relied (d_look t) at) small e) refl refl
  Move-Inv (d_look t) m' p' at small (empty e) = quiet (d_look t) idle at tt refl refl
  Move-Inv (d_look t) m' p' at small (tail_moved e) = quiet (d_look t) d_load at tt refl refl
  Move-Inv (d_swap t) m' p' at small (tail_taken e) =
      after_take_tail t at (relied (d_swap t) at) e small
  Move-Inv (d_swap t) m' p' at small tail_lost =
      quiet (d_swap t) (d_look m.ring.tail_seq) at (omega arith) refl refl
  Move-Inv (d_read t) m' p' at small read = after_read t at (relied (d_read t) at)
  Move-Inv (d_publish t x) m' p' at small freed =
      after_free t x at (relied (d_publish t x) at) small
