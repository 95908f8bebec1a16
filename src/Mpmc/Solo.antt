-- ===== src/Mpmc/Solo.antt =====
-- lfmpmc.h: what it is for a thread that is left alone to end its call, and what it finds.
pub mod Calls
use nohost_server.Base.{
  ℕ, suc, ◌+◌, ◌-◌, ◌^◌, ◌≤◌, ◌<◌, ◌≡◌, ◌≢◌, ◌⊎◌, inl, inr, some, refl, ap, sym, ◌∙◌, true, false,
  ◌==◌, ==-refl, ==-ne, add64, sub64, leb, arith, ℕ_discrete, if◌then◌else◌, dec_lt, bit_and,
}
use nohost_server.Mpmc.{Ring, create, slot, seq_at, Look, look, claim, give_up, reload, is_before}
use nohost_server.Mpmc.Steps.{
  Thread, idle, e_load, e_look, e_swap, e_write, e_publish, d_load, d_look, d_swap, d_read,
  d_publish, History, take_head, Move, load_head, cell_free, full, head_moved, head_taken,
  head_lost, written, published, load_tail, cell_used, empty, tail_moved, tail_taken, tail_lost,
  read, freed, System, Reach,
}
use nohost_server.Mpmc.Alone.{look-same}
use nohost_server.Mpmc.Invariant.{Sound}
use nohost_server.Mpmc.Invariant.Cells.{slot-round}
use nohost_server.Mpmc.Delivery.{Reach-Inv, two_cells}

-- A compare-and-swap fails only where the counter is another.
abbrev pub Steady : {m m' : History} {p p' : Thread} → Move m p m' p' → Type 0
Steady {m} (head_lost {x} {h}) = m.ring.head_seq ≢ h
Steady {m} (tail_lost {t}) = m.ring.tail_seq ≢ t
Steady move = Unit

-- A thread that is left alone has ended its call behind at most so many operations, whichever it makes,
-- and until then it has one that it can make.
pub data Finishes : ℕ → History → Thread → Type 0 where
  finished : {k : ℕ} {m : History} → Finishes k m idle
  then_moves :
      {k : ℕ} {m : History} {p : Thread}
      → (m' : History) × (p' : Thread) × (move : Move m p m' p') × Steady move
      → ((m' : History) (p' : Thread) (move : Move m p m' p') → Steady move → Finishes k m' p')
      → Finishes (suc k) m p

pub Look-cases : (l : Look) → (l ≡ claim) ⊎ ((l ≡ give_up) ⊎ (l ≡ reload))
Look-cases claim = inl refl
Look-cases give_up = inr (inl refl)
Look-cases reload = inr (inr refl)

look-behind : (a b : ℕ) → a < b → b ≤ a + 2 ^ 63 → b < 2 ^ 64 → look a b ≡ give_up
unfolding look
look-behind a b lt near small =
    let other : (a == b) ≡ false = ==-ne a b (λ e. omega arith) in
    let before : is_before a b ≡ true = ground arith in rw (other, before) refl

-- At its own counter a thread never finds a cell of a later round.
pub head-look :
    (n : ℕ) (m : History)
    → Sound n m
    → 2 ≤ n
    → m.ring.head_seq + n < 2 ^ 63
    → (look (seq_at m.ring m.ring.head_seq) m.ring.head_seq ≡ claim)
      ⊎ (look (seq_at m.ring m.ring.head_seq) m.ring.head_seq ≡ give_up)
head-look n m sound two small =
    let h = m.ring.head_seq in
    let t = m.ring.tail_seq in
    let ordered = sound.ordered in
    elim (dec_lt h (t + n)) [
      | yes room ↦ elim (sound.free h (omega arith) room) [
        | inl here ↦ inl (look-same (seq_at m.ring h) h here)
        | inr old ↦ inr (
            look-behind (seq_at m.ring h) h (omega (arith, old)) (omega (arith, old)) (omega arith))
      ]
      | no filled ↦
          let near = sound.near in
          let last : t + n ≡ h = omega (arith, near, filled) in
          let same : seq_at m.ring h ≡ seq_at m.ring t =
            ap (λ k. seq_at m.ring k) (sym last) ∙ ap m.ring.seq (slot-round sound t) in
          elim (sound.used t (omega arith) (omega arith)) [
            | inl taken ↦ inr (
                look-behind (seq_at m.ring h) h (omega (arith, same, taken))
                  (omega (arith, same, taken)) (omega arith))
            | inr (there, value) ↦ inr (
                look-behind (seq_at m.ring h) h (omega (arith, same, there))
                  (omega (arith, same, there)) (omega arith))
          ]
    ]

pub tail-look :
    (n : ℕ) (m : History)
    → Sound n m
    → 2 ≤ n
    → m.ring.head_seq + n < 2 ^ 63
    → (look (seq_at m.ring m.ring.tail_seq) (add64 m.ring.tail_seq 1) ≡ claim)
      ⊎ (look (seq_at m.ring m.ring.tail_seq) (add64 m.ring.tail_seq 1) ≡ give_up)
tail-look n m sound two small =
    let h = m.ring.head_seq in
    let t = m.ring.tail_seq in
    let ordered = sound.ordered in
    let next_one : add64 t 1 ≡ suc t = omega arith in
    rw next_one (elim (dec_lt t h) [
      | yes some_left ↦ elim (sound.used t (omega arith) some_left) [
        | inl taken ↦ inr (
            look-behind (seq_at m.ring t) (suc t) (omega (arith, taken)) (omega (arith, taken))
              (omega arith))
        | inr (there, value) ↦ inl (look-same (seq_at m.ring t) (suc t) there)
      ]
      | no none_left ↦ elim (sound.free t (omega arith) (omega arith)) [
        | inl here ↦ inr (
            look-behind (seq_at m.ring t) (suc t) (omega (arith, here)) (omega (arith, here))
              (omega arith))
        | inr old ↦ inr (
            look-behind (seq_at m.ring t) (suc t) (omega (arith, old)) (omega (arith, old))
              (omega arith))
      ]
    ])

pub Finishes-more : (k : ℕ) {m : History} {p : Thread} → Finishes k m p → Finishes (suc k) m p
Finishes-more k finished = finished
Finishes-more (suc k) (then_moves one each) =
    then_moves one (λ m' p' move steady. Finishes-more k (each m' p' move steady))
