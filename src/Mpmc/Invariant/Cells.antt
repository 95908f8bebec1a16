-- ===== src/Mpmc/Invariant/Cells.antt =====
-- Cells of tickets that are less than a round apart, and cells with different sequence numbers.
use nohost_server.Base.{
  ℕ, ◌+◌, ◌≤◌, ◌<◌, ◌≡◌, ◌≢◌, ap, ◌∙◌, sym, refl, store, ==-ne, ==-refl, arith, dec_lt,
}
use nohost_server.Base.Masks.{mod-ne}
use native.Mathlib.Nat.{add-mod_right}
use nohost_server.Mpmc.{Ring, slot, seq_at}
use nohost_server.Mpmc.Steps.{History}
use nohost_server.Mpmc.Invariant.{Sound}

pub store-other : {A : Type 0} (f : ℕ → A) (p : ℕ) (v : A) (q : ℕ) → p ≢ q → store f p v q ≡ f q
store-other f p v q h = rw (==-ne p q h) refl

pub store-same : {A : Type 0} (f : ℕ → A) (p : ℕ) (v : A) (q : ℕ) → p ≡ q → store f p v q ≡ v
store-same f p v q h = rw (h, ==-refl q) refl

-- Cells with different sequence numbers are different cells.
pub slot-differ : (r : Ring) (a b : ℕ) → seq_at r a ≢ seq_at r b → slot r a ≢ slot r b
slot-differ r a b h = λ e. h (ap r.seq e)

module _ {n : ℕ} {m : History} (s : Sound n m) where
  pub slot-near : (a b : ℕ) → a < b → b < a + n → slot m.ring a ≢ slot m.ring b
  slot-near a b lt near = λ e. mod-ne n a b lt near (sym (s.masked a) ∙ e ∙ s.masked b)

  pub slot-round : (a : ℕ) → slot m.ring (a + n) ≡ slot m.ring a
  slot-round a = s.masked (a + n) ∙ add-mod_right a n ∙ sym (s.masked a)

  -- Two tickets of the same round, in either order.
  pub slot-apart :
      (a b lo : ℕ)
      → lo ≤ a
      → a < lo + n
      → lo ≤ b
      → b < lo + n
      → a ≢ b
      → slot m.ring a ≢ slot m.ring b
  slot-apart a b lo la ha lb hb ne = elim (dec_lt a b) [
    | yes lt ↦ slot-near a b lt (omega arith)
    | no ge ↦ λ e. slot-near b a (omega arith) (omega arith) (sym e)
  ]
