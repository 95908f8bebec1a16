-- ===== src/Spsc/Counts.antt =====
-- The two tests of the ring, on counters that wrap.
use native.Mathlib.Nat.{mod-eq_of_lt, add-mul-mod_self_left}
use nohost_server.Base.{
  ℕ, zero, suc, ◌+◌, ◌-◌, ◌*◌, ◌%◌, ◌^◌, ◌≤◌, ◌<◌, ◌≡◌, arith, bit_and, add64, sub64, ltb,
}
use nohost_server.Base.Masks.{bit_and-mask, pow2_pos, pow2_mono, pow2_split}
use nohost_server.Spsc.{has_room, has_item}

split_off : (p q n : ℕ) → 0 < q → p * q ≡ n → n - p ≡ p * (q - 1)
split_off p zero n pos h = absurd (omega arith)
split_off p (suc q) n pos h = let e : suc q - 1 ≡ q = omega arith in rw e (omega arith)

-- The tests, on counters `e` of the elements sent and `d` of those received.
module _ (k e d : ℕ) (small : k ≤ 63) (le : d ≤ e) (near : e < d + 2 ^ k) where
  word : 2 ^ k ≤ 2 ^ 63
  word = pow2_mono k 63 small

  used : sub64 (e % 2 ^ 64) (d % 2 ^ 64) ≡ e - d
  used = omega (arith, word)

  pub used_cells : bit_and (sub64 (e % 2 ^ 64) (d % 2 ^ 64)) (2 ^ k - 1) ≡ e - d
  used_cells = rw (bit_and-mask, used) (mod-eq_of_lt (omega arith))

  free : sub64 (d % 2 ^ 64) (add64 (e % 2 ^ 64) 1) ≡ (2 ^ k - 1 - (e - d)) + (2 ^ 64 - 2 ^ k)
  free = omega (arith, word)

  rounds : 2 ^ 64 - 2 ^ k ≡ 2 ^ k * (2 ^ (64 - k) - 1)
  rounds =
      split_off (2 ^ k) (2 ^ (64 - k)) (2 ^ 64) (pow2_pos (64 - k)) (pow2_split k 64 (omega arith))

  pub free_cells :
      bit_and (sub64 (d % 2 ^ 64) (add64 (e % 2 ^ 64) 1)) (2 ^ k - 1) ≡ 2 ^ k - 1 - (e - d)
  free_cells =
      rw (bit_and-mask, free, rounds, add-mul-mod_self_left)
        (mod-eq_of_lt (omega (arith, pow2_pos k)))

-- Both tests decide by the number of elements in the ring.
pub has_room_iff :
    (k e d : ℕ)
    → k ≤ 63
    → d ≤ e
    → e < d + 2 ^ k
    → has_room (2 ^ k - 1) (e % 2 ^ 64) (d % 2 ^ 64) ≡ ltb (e + 1) (d + 2 ^ k)
unfolding has_room
has_room_iff k e d small le near = ground (arith, free_cells k e d small le near)

pub has_item_iff :
    (k e d : ℕ)
    → k ≤ 63
    → d ≤ e
    → e < d + 2 ^ k
    → has_item (2 ^ k - 1) (e % 2 ^ 64) (d % 2 ^ 64) ≡ ltb d e
unfolding has_item
has_item_iff k e d small le near = ground (arith, used_cells k e d small le near)
