-- ===== src/Mpmc/Invariant/Moves.antt =====
-- An operation of one thread, with the other threads as they are.
use nohost_server.Base.{
  ℕ, ◌<◌, ◌≡◌, ◌≢◌, inl, inr, Option, none, some, store, ap, sym, refl, ◌∙◌, arith, ℕ_discrete,
}
use nohost_server.Mpmc.Steps.{Thread, History}
use mathlib.Core.Path.{subst}
use nohost_server.Mpmc.Invariant.{
  Relies, Sound, enqueue_ticket, dequeue_ticket, Distinct, Accounted, Inv,
}
use nohost_server.Mpmc.Invariant.Cells.{store-other, store-same}

-- One thread of a family changes.
pub store-cases :
    (P : Thread → Type 0) (threads : ℕ → Thread) (i : ℕ) (p : Thread) (j : ℕ)
    → (i ≡ j → P p)
    → (i ≢ j → P (threads j))
    → P (store threads i p j)
store-cases P threads i p j own other = elim (ℕ_discrete i j) [
  | yes same ↦ subst P (sym (store-same threads i p j same)) (own same)
  | no ne ↦ subst P (sym (store-other threads i p j ne)) (other ne)
]

-- What thread `i` becomes holds no ticket of another thread.
abbrev pub Fresh : (Thread → Option ℕ) → (ℕ → Thread) → ℕ → Thread → Type 0
Fresh ticket threads i p = (h j : ℕ) → ticket p ≡ some h → i ≢ j → ticket (threads j) ≢ some h

store-Distinct :
    (ticket : Thread → Option ℕ) (threads : ℕ → Thread) (i : ℕ) (p : Thread)
    → Distinct ticket threads
    → Fresh ticket threads i p
    → Distinct ticket (store threads i p)
store-Distinct ticket threads i p distinct fresh a b h =
    store-cases (λ q. ticket q ≡ some h → ticket (store threads i p b) ≡ some h → a ≡ b) threads i p
      a
      (λ ia own.
        store-cases (λ q. ticket q ≡ some h → a ≡ b) threads i p b (λ ib own'. sym ia ∙ ib)
          (λ ne other. absurd (fresh h b own ne other)))
      (λ ne other.
        store-cases (λ q. ticket q ≡ some h → a ≡ b) threads i p b
          (λ ib own. absurd (fresh h a own ne other)) (λ ne' other'. distinct a b h other other'))

module _ {n : ℕ} {m : History} {threads : ℕ → Thread} (inv : Inv n m threads) (i : ℕ) where
  -- A new state of the ring and of thread `i`, from the parts.
  pub settle :
      (m' : History) (p : Thread)
      → Sound n m'
      → Relies n m' p
      → ((j : ℕ) → i ≢ j → Relies n m' (threads j))
      → Fresh enqueue_ticket threads i p
      → Fresh dequeue_ticket threads i p
      → Accounted m' (store threads i p)
      → Inv n m' (store threads i p)
  settle m' p sound own others writer reader accounted = record {
    sound = sound;
    relies = λ j. store-cases (Relies n m') threads i p j (λ e. own) (others j);
    writers = store-Distinct enqueue_ticket threads i p inv.writers writer;
    readers = store-Distinct dequeue_ticket threads i p inv.readers reader;
    accounted = accounted;
  }

  -- A holder is still one if thread `i` keeps its ticket of dequeue.
  pub keeps_holder :
      (p : Thread) (t : ℕ)
      → dequeue_ticket p ≡ dequeue_ticket (threads i)
      → (j : ℕ) × (dequeue_ticket (threads j) ≡ some t)
      → (j : ℕ) × (dequeue_ticket (store threads i p j) ≡ some t)
  keeps_holder p t same (j, e) = (
    j,
    store-cases (λ q. dequeue_ticket q ≡ some t) threads i p j
        (λ ij. same ∙ ap (λ k. dequeue_ticket (threads k)) ij ∙ e) (λ ne. e),
  )

  -- Nothing of what dequeue gave or returned changes.
  pub account_same :
      (m' : History) (p : Thread)
      → dequeue_ticket p ≡ dequeue_ticket (threads i)
      → m'.ring.tail_seq ≡ m.ring.tail_seq
      → ((t : ℕ) → t < m.ring.tail_seq → m'.sent t ≡ m.sent t)
      → ((t : ℕ) → m'.got t ≡ m.got t)
      → Accounted m' (store threads i p)
  account_same m' p same tail sent got t lt = elim (inv.accounted t (omega (arith, tail))) [
    | inl g ↦ inl (got t ∙ g ∙ ap some (sym (sent t (omega (arith, tail)))))
    | inr holder ↦ inr (keeps_holder p t same holder)
  ]

  pub Fresh-none :
      (ticket : Thread → Option ℕ) (p : Thread) → ticket p ≡ none → Fresh ticket threads i p
  Fresh-none ticket p e h j own ne = cc

  -- Thread `i` keeps its ticket.
  pub Fresh-same :
      (ticket : Thread → Option ℕ) (p : Thread)
      → Distinct ticket threads
      → ticket p ≡ ticket (threads i)
      → Fresh ticket threads i p
  Fresh-same ticket p distinct same h j own ne = λ other. ne (distinct i j h (sym same ∙ own) other)

  -- The ring stays as it is, and so do the tickets.
  pub local :
      (p : Thread)
      → Relies n m p
      → enqueue_ticket p ≡ enqueue_ticket (threads i)
      → dequeue_ticket p ≡ dequeue_ticket (threads i)
      → Inv n m (store threads i p)
  local p own e d =
      settle m p inv.sound own (λ j ne. inv.relies j) (Fresh-same enqueue_ticket p inv.writers e)
        (Fresh-same dequeue_ticket p inv.readers d)
        (account_same m p d refl (λ t lt. refl) (λ t. refl))
