-- ===== src/Spsc/Invariant.antt =====
-- The invariant of the ring and its two threads.
use nohost_server.Base.{
  ℕ, ◌+◌, ◌-◌, ◌%◌, ◌^◌, ◌≤◌, ◌<◌, ◌≡◌, refl, Bool, true, false, arith, bit_and, store, ltb→lt,
  some, none, if◌then◌else◌, ℕ_discrete, ==-ne, ==-refl, sym, ◌∙◌,
}
use nohost_server.Base.Masks.{bit_and-mask, mod_of_wrapped, mod-ne, pow2_pos, pow2_mono}
use nohost_server.Spsc.{Ring, has_room, has_item, create}
use nohost_server.Spsc.Steps.{Producer, Consumer, System, Step, Reach, start}
use nohost_server.Spsc.Counts.{has_room_iff, has_item_iff}

-- What a thread in the middle of a call knows, of the counts of the elements sent and received.
abbrev pub Producing : ℕ → ℕ → ℕ → (ℕ → ℕ) → Producer → Type 0
Producing k sent received buffer Producer.ready = Unit
Producing k sent received buffer (Producer.admitted head input) =
    (head ≡ sent % 2 ^ 64) × (sent + 1 < received + 2 ^ k)
Producing k sent received buffer (Producer.written head input) =
    (head ≡ sent % 2 ^ 64) × (sent + 1 < received + 2 ^ k) × (buffer (sent % 2 ^ k) ≡ input)

abbrev pub Consuming : ℕ → ℕ → (ℕ → ℕ) → Consumer → Type 0
Consuming sent received item Consumer.ready = Unit
Consuming sent received item (Consumer.admitted tail) =
    (tail ≡ received % 2 ^ 64) × (received < sent)
Consuming sent received item (Consumer.fetched tail output) =
    (tail ≡ received % 2 ^ 64) × (received < sent) × (output ≡ item received)

-- The other thread's progress keeps it.
Producing-receive :
    (k e d : ℕ) (buffer : ℕ → ℕ) (p : Producer)
    → Producing k e d buffer p
    → Producing k e (d + 1) buffer p
Producing-receive k e d buffer Producer.ready h = tt
Producing-receive k e d buffer (Producer.admitted head input) h = omega arith
Producing-receive k e d buffer (Producer.written head input) h = (h.0, omega arith, h.2)

Consuming-send :
    (e d x : ℕ) (item : ℕ → ℕ) (c : Consumer)
    → Consuming e d item c
    → Consuming (e + 1) d (store item e x) c
Consuming-send e d x item Consumer.ready h = tt
Consuming-send e d x item (Consumer.admitted tail) h = omega arith
Consuming-send e d x item (Consumer.fetched tail output) h = (h.0, omega arith, ground arith)

-- The counters are the numbers of elements sent and received; the cells between them hold what was
-- sent and not received; what was received is what was sent, in order.
pub record Inv (k : ℕ) (s : System) : Type 0 where
  pub masked : s.ring.mask ≡ 2 ^ k - 1
  pub headed : s.ring.head ≡ s.sent_count % 2 ^ 64
  pub tailed : s.ring.tail ≡ s.received_count % 2 ^ 64
  pub ordered : s.received_count ≤ s.sent_count
  pub near : s.sent_count < s.received_count + 2 ^ k
  pub stored :
      (j : ℕ) → s.received_count ≤ j → j < s.sent_count → s.ring.buffer (j % 2 ^ k) ≡ s.sent j
  pub in_order : (j : ℕ) → j < s.received_count → s.received j ≡ s.sent j
  pub producing : Producing k s.sent_count s.received_count s.ring.buffer s.producer
  pub consuming : Consuming s.sent_count s.received_count s.sent s.consumer

module _ (k : ℕ) {s : System} (small : k ≤ 63) (v : Inv k s) where
  -- The cell of the next element to send.
  index :
      (head : ℕ) → head ≡ s.sent_count % 2 ^ 64 → bit_and head s.ring.mask ≡ s.sent_count % 2 ^ k
  index head e = rw (e, v.masked, bit_and-mask) (mod_of_wrapped k s.sent_count (omega arith))

  pub index_received : bit_and s.ring.tail s.ring.mask ≡ s.received_count % 2 ^ k
  index_received =
      rw (v.tailed, v.masked, bit_and-mask) (mod_of_wrapped k s.received_count (omega arith))

  room :
      has_room s.ring.mask s.ring.head s.ring.tail ≡ true
      → s.sent_count + 1 < s.received_count + 2 ^ k
  room test =
      let e = rw (v.masked, v.headed, v.tailed) at test in
      let decided = has_room_iff k s.sent_count s.received_count small v.ordered v.near in
      ltb→lt _ _ (sym decided ∙ e)

  item : has_item s.ring.mask s.ring.head s.ring.tail ≡ true → s.received_count < s.sent_count
  item test =
      let e = rw (v.masked, v.headed, v.tailed) at test in
      let decided = has_item_iff k s.sent_count s.received_count small v.ordered v.near in
      ltb→lt _ _ (sym decided ∙ e)

  -- The write of the next element touches no element that is still to be received.
  write_apart :
      (j x : ℕ)
      → s.received_count ≤ j
      → j < s.sent_count
      → s.sent_count < s.received_count + 2 ^ k
      → store s.ring.buffer (s.sent_count % 2 ^ k) x (j % 2 ^ k) ≡ s.ring.buffer (j % 2 ^ k)
  write_apart j x lo hi near =
      let apart = mod-ne (2 ^ k) j s.sent_count hi (omega arith) in
      rw (==-ne (s.sent_count % 2 ^ k) (j % 2 ^ k) (λ e. apart (sym e))) refl

-- Every step of either thread keeps the invariant.
pub Step-Inv : (k : ℕ) {s t : System} → k ≤ 63 → Step s t → Inv k s → Inv k t
Step-Inv k {s} small (Step.enqueue_test input at test) v = record {
  masked = v.masked;
  headed = v.headed;
  tailed = v.tailed;
  ordered = v.ordered;
  near = v.near;
  stored = v.stored;
  in_order = v.in_order;
  producing = (v.headed, room k small v test);
  consuming = v.consuming;
}
Step-Inv k {s} small (Step.enqueue_write head input at) v =
    let known = rw at at (v.producing) in
    record {
      masked = v.masked;
      headed = v.headed;
      tailed = v.tailed;
      ordered = v.ordered;
      near = v.near;
      stored = λ j lo hi.
          rw (index k small v head (known.0))
            (write_apart k small v j input lo hi v.near ∙ v.stored j lo hi);
      in_order = v.in_order;
      producing = (known.0, known.1, rw (index k small v head (known.0), ==-refl) refl);
      consuming = v.consuming;
    }
Step-Inv k {s} small (Step.enqueue_publish head input at) v =
    let known = rw at at (v.producing) in
    record {
      masked = v.masked;
      headed = omega arith;
      tailed = v.tailed;
      ordered = omega (arith, v.ordered);
      near = omega arith;
      stored = λ j lo hi. elim (ℕ_discrete j s.sent_count) [
        | yes e ↦ rw (e, ==-refl) (known.2)
        | no ne ↦ rw (==-ne s.sent_count j (λ e. ne (sym e))) (v.stored j lo (omega arith))
      ];
      in_order = λ j hi. ground (arith, v.in_order j, v.ordered);
      producing = tt;
      consuming = Consuming-send s.sent_count s.received_count input s.sent s.consumer v.consuming;
    }
Step-Inv k {s} small (Step.dequeue_test at test) v = record {
  masked = v.masked;
  headed = v.headed;
  tailed = v.tailed;
  ordered = v.ordered;
  near = v.near;
  stored = v.stored;
  in_order = v.in_order;
  producing = v.producing;
  consuming = (v.tailed, item k small v test);
}
Step-Inv k {s} small (Step.dequeue_read tail at) v =
    let known = rw at at (v.consuming) in
    record {
      masked = v.masked;
      headed = v.headed;
      tailed = v.tailed;
      ordered = v.ordered;
      near = v.near;
      stored = v.stored;
      in_order = v.in_order;
      producing = v.producing;
      consuming = (
        known.0,
        known.1,
        rw (index_received k small v) (v.stored s.received_count (omega arith) (known.1)),
      );
    }
Step-Inv k {s} small (Step.dequeue_publish tail output at) v =
    let known = rw at at (v.consuming) in
    record {
      masked = v.masked;
      headed = v.headed;
      tailed = omega arith;
      ordered = omega arith;
      near = omega (arith, v.near);
      stored = λ j lo hi. v.stored j (omega arith) hi;
      in_order = λ j hi. ground (arith, v.in_order j);
      producing =
          Producing-receive k s.sent_count s.received_count s.ring.buffer s.producer v.producing;
      consuming = tt;
    }

-- The constructor, given a power of two, leaves the mask and the counters as the invariant wants.
accepted_value : {A : Type 0} (b : Bool) (x r : A) → (if b then some x else none) ≡ some r → x ≡ r
accepted_value true x r e = cc
accepted_value false x r e = cc

create-start : (k : ℕ) {r : Ring} → k ≤ 63 → create (2 ^ k) ≡ some r → Inv k (start r)
unfolding create
create-start k {r} small e =
    let word = pow2_mono k 63 small in
    let pos = pow2_pos k in
    rw (← accepted_value _ _ r e) (record {
      masked = omega arith;
      headed = refl;
      tailed = refl;
      ordered = omega arith;
      near = omega arith;
      stored = λ j lo hi. absurd (omega arith);
      in_order = λ j hi. absurd (omega arith);
      producing = tt;
      consuming = tt;
    })

pub Reach-Inv :
    (k : ℕ) {r : Ring} {s : System} → k ≤ 63 → create (2 ^ k) ≡ some r → Reach r s → Inv k s
Reach-Inv k small e Reach.here = create-start k small e
Reach-Inv k small e (Reach.next r st) = Step-Inv k small st (Reach-Inv k small e r)
