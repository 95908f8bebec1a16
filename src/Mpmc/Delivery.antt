-- ===== src/Mpmc/Delivery.antt =====
-- lfmpmc.h: what the calls of many threads deliver, under every interleaving.
use nohost_server.Base.{
  dec_lt, inr, ℕ, zero, suc, ◌+◌, ◌-◌, ◌^◌, ◌≤◌, ◌<◌, ◌≡◌, ◌⊎◌, inl, none, some, ap, sym, refl, ◌∙◌,
  arith, sub64, Bool, true, false, if◌then◌else◌,
}
use nohost_server.Base.Masks.{bit_and-mask, pow2_pos, pow2_mono}
use native.Mathlib.Nat.{mod-eq_of_lt, pow-suc}
use nohost_server.Mpmc.{Ring, create}
use nohost_server.Mpmc.Steps.{
  Thread, History, Move, begin_enqueue, load_head, cell_free, full, head_moved, head_taken,
  head_lost, written, published, begin_dequeue, load_tail, cell_used, empty, tail_moved, tail_taken,
  tail_lost, read, freed, System, Step, pick, Reach, here, next, start, d_publish, idle, free_cell,
}
use nohost_server.Mpmc.Invariant.{Relies, Used, dequeue_ticket, Inv}
use nohost_server.Mpmc.Invariant.Cells.{store-other}
use nohost_server.Mpmc.Invariant.Every.{Move-Inv}
use nohost_server.Mpmc.Invariant.Enqueue.{got_before}
use mathlib.Core.Path.{subst}

-- The ring that the constructor makes.
abbrev masked_ring : ℕ → Ring
masked_ring mask = record {
  mask = mask;
  contents = λ _. 0;
  seq = λ i. i;
  head_seq = 0;
  tail_seq = 0;
}

abbrev fresh_ring : ℕ → Ring
fresh_ring n = masked_ring (n - 1)

accepted_value : {A : Type 0} (b : Bool) (x r : A) → (if b then some x else none) ≡ some r → x ≡ r
accepted_value true x r e = cc
accepted_value false x r e = cc

create-ring : (k : ℕ) {r : Ring} → k ≤ 62 → create (2 ^ k) ≡ some r → fresh_ring (2 ^ k) ≡ r
unfolding create
create-ring k {r} small e =
    let word = pow2_mono k 62 small in
    let pos = pow2_pos k in
    let mask : 2 ^ k - 1 ≡ sub64 (2 ^ k) 1 = omega arith in
    ap masked_ring mask ∙ accepted_value _ _ r e

fresh-Inv : (k : ℕ) → 1 ≤ k → Inv (2 ^ k) (start (fresh_ring (2 ^ k))).mem (λ _. idle)
fresh-Inv k some_cells =
    let pos = pow2_pos k in
    record {
      sound = record {
        masked = λ a. bit_and-mask k a;
        mask_is = refl;
        counted = refl;
        ordered = omega arith;
        near = omega arith;
        used = λ j le lt. absurd (omega arith);
        free = λ j le lt. inl (bit_and-mask k j ∙ mod-eq_of_lt (omega arith));
        later = λ j le. refl;
        right = λ j x e. cc;
      };
      relies = λ i. tt;
      writers = λ i j h e f. cc;
      readers = λ i j h e f. cc;
      accounted = λ t lt. absurd (omega arith);
    }

-- The number of tickets that enqueue gave never falls.
sent_grows : {m m' : History} {p p' : Thread} → Move m p m' p' → m.sent_count ≤ m'.sent_count
sent_grows (begin_enqueue x) = omega arith
sent_grows load_head = omega arith
sent_grows (cell_free e) = omega arith
sent_grows (full e) = omega arith
sent_grows (head_moved e) = omega arith
sent_grows (head_taken e) = omega arith
sent_grows head_lost = omega arith
sent_grows written = omega arith
sent_grows published = omega arith
sent_grows begin_dequeue = omega arith
sent_grows load_tail = omega arith
sent_grows (cell_used e) = omega arith
sent_grows (empty e) = omega arith
sent_grows (tail_moved e) = omega arith
sent_grows (tail_taken e) = omega arith
sent_grows tail_lost = omega arith
sent_grows read = omega arith
sent_grows freed = omega arith

pub two_cells : (k : ℕ) → 1 ≤ k → 2 ≤ 2 ^ k
two_cells zero h = absurd (omega arith)
two_cells (suc k) h = omega (arith, pow-suc 2 k, pow2_pos k)

pub Reach-Inv :
    (k : ℕ) {r : Ring} {s : System}
    → 1 ≤ k
    → k ≤ 62
    → create (2 ^ k) ≡ some r
    → Reach r s
    → s.mem.sent_count + 2 ^ k < 2 ^ 63
    → Inv (2 ^ k) s.mem s.threads
Reach-Inv k {r} cells small e here few =
    subst (λ q. Inv (2 ^ k) (start q).mem (λ _. idle)) (create-ring k small e) (fresh-Inv k cells)
Reach-Inv k cells small e (next {s} reach (pick i move)) few =
    let grows = sent_grows move in
    let inv = Reach-Inv k cells small e reach (omega arith) in
    Move-Inv inv i (two_cells k cells) (s.threads i) _ _ refl (omega (arith, inv.sound.counted))
      move

-- However the steps of any number of threads that call enqueue and dequeue on a new ring of 2^k cells,
-- two or more, interleave, and as long as the counters do not come near 2^63: a call of dequeue with
-- the ticket `j` returns the element that the ticket `j` of enqueue was given for.
pub Reach-delivers :
    (k : ℕ) {r : Ring} {s : System} (j x : ℕ)
    → 1 ≤ k
    → k ≤ 62
    → create (2 ^ k) ≡ some r
    → Reach r s
    → s.mem.sent_count + 2 ^ k < 2 ^ 63
    → s.mem.got j ≡ some x
    → (x ≡ s.mem.sent j) × (j < s.mem.ring.tail_seq)
Reach-delivers k {r} {s} j x cells small e reach few g =
    let inv = Reach-Inv k cells small e reach few in
    (
      inv.sound.right j x g,
      got_before inv.sound (two_cells k cells) (omega (arith, inv.sound.counted)) j x g,
    )

-- However such steps interleave, the ring holds at most 2^k elements, and no ticket `t` of enqueue that
-- was given is forgotten: if dequeue has not given its ticket `t`, the cell of `t` waits for the
-- element or holds it; if dequeue has, the element was returned by the call with that ticket, or a
-- thread holds the ticket and is about to return it. As above, for two cells or more, and while the
-- counters do not come near 2^63.
pub Reach-accounted :
    (k : ℕ) {r : Ring} {s : System} (t : ℕ)
    → 1 ≤ k
    → k ≤ 62
    → create (2 ^ k) ≡ some r
    → Reach r s
    → s.mem.sent_count + 2 ^ k < 2 ^ 63
    → (s.mem.ring.tail_seq ≤ s.mem.sent_count)
      × (s.mem.sent_count ≤ s.mem.ring.tail_seq + 2 ^ k)
      × ((s.mem.sent_count ≤ t)
          ⊎ (((s.mem.ring.tail_seq ≤ t) × Used s.mem t)
              ⊎ ((t < s.mem.ring.tail_seq)
                  × ((s.mem.got t ≡ some (s.mem.sent t))
                      ⊎ ((i : ℕ) × (dequeue_ticket (s.threads i) ≡ some t))))))
Reach-accounted k {r} {s} t cells small e reach few =
    let inv = Reach-Inv k cells small e reach few in
    let counted = inv.sound.counted in
    (
      omega (arith, counted, inv.sound.ordered),
      omega (arith, counted, inv.sound.near),
      elim (dec_lt t s.mem.ring.tail_seq) [
        | yes given ↦ inr (inr (given, inv.accounted t given))
        | no later ↦ elim (dec_lt t s.mem.ring.head_seq) [
          | yes taken ↦ inr (inl (omega arith, inv.sound.used t (omega arith) taken))
          | no ahead ↦ inl (omega (arith, counted))
        ]
      ],
    )

free_keeps :
    (n : ℕ) (m : History) (t y j x : ℕ)
    → Relies n m (d_publish t y)
    → m.got j ≡ some x
    → (free_cell m t y).got j ≡ some x
free_keeps n m t y j x ((a, b, c, none_yet), d) g =
    store-other m.got t (some y) j
      (λ same. let clash : none ≡ some x = sym none_yet ∙ ap m.got same ∙ g in cc)
    ∙ g

-- What one step leaves of the elements returned.
got_kept :
    (n : ℕ) {m m' : History} {p' : Thread} (j x : ℕ) (p : Thread)
    → Relies n m p
    → Move m p m' p'
    → m.got j ≡ some x
    → m'.got j ≡ some x
got_kept n j x p r (begin_enqueue y) g = g
got_kept n j x p r load_head g = g
got_kept n j x p r (cell_free e) g = g
got_kept n j x p r (full e) g = g
got_kept n j x p r (head_moved e) g = g
got_kept n j x p r (head_taken e) g = g
got_kept n j x p r head_lost g = g
got_kept n j x p r written g = g
got_kept n j x p r published g = g
got_kept n j x p r begin_dequeue g = g
got_kept n j x p r load_tail g = g
got_kept n j x p r (cell_used e) g = g
got_kept n j x p r (empty e) g = g
got_kept n j x p r (tail_moved e) g = g
got_kept n j x p r (tail_taken e) g = g
got_kept n j x p r tail_lost g = g
got_kept n j x p r read g = g
got_kept n {m} j x (d_publish t y) r freed g = free_keeps n m t y j x r g

-- A step from such a state never changes what a call returned: the element of a ticket is returned
-- once.
pub Reach-once :
    (k : ℕ) {r : Ring} {s s' : System} (j x : ℕ)
    → 1 ≤ k
    → k ≤ 62
    → create (2 ^ k) ≡ some r
    → Reach r s
    → s.mem.sent_count + 2 ^ k < 2 ^ 63
    → Step s s'
    → s.mem.got j ≡ some x
    → s'.mem.got j ≡ some x
Reach-once k {r} {s} j x cells small e reach few (pick i move) g =
    let inv = Reach-Inv k cells small e reach few in
    got_kept (2 ^ k) j x (s.threads i) (inv.relies i) move g
