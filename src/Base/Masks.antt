-- ===== src/Base/Masks.antt =====
-- A mask of low ones is a remainder, and remainders of wrapped counters.
use Prim.Native.Nat.{
  ℕ, zero, suc, ◌+◌, ◌-◌, ◌*◌, ◌/◌, ◌%◌, ◌^◌, ◌≤◌, ◌<◌, min, bit_and, digits, bit_and-bitwise,
}
use mathlib.Core.Path.{◌≡◌, refl, ap, ◌∙◌}
use mathlib.Core.Logic.{◌≢◌}
use native.Mathlib.Nat.{pow-suc, pow-succ', mul_assoc, mod-mod_of_dvd, dvd-mul_right}
use native.Mathlib.Omega.{arith}

low_digits_fuel :
    (n m a b : ℕ) → a ≤ n → a ≤ m → digits (λ _. zero) min n a b ≡ digits (λ _. zero) min m a b
low_digits_fuel zero zero a b p q = refl
low_digits_fuel (suc n) zero zero b p q = refl
low_digits_fuel (suc n) zero (suc a) b p q = absurd (omega arith)
low_digits_fuel zero (suc m) zero b p q = refl
low_digits_fuel zero (suc m) (suc a) b p q = absurd (omega arith)
low_digits_fuel (suc n) (suc m) zero b p q = refl
low_digits_fuel (suc n) (suc m) (suc a) b p q =
    omega (arith, low_digits_fuel n m (suc a / 2) (b / 2) (omega arith) (omega arith))

bit_and-zero_left : (b : ℕ) → bit_and 0 b ≡ 0
bit_and-zero_left b = bit_and-bitwise 0 b

bit_and-halves : (a b : ℕ) → bit_and a b ≡ bit_and (a / 2) (b / 2) * 2 + min (a % 2) (b % 2)
bit_and-halves zero b = omega (arith, bit_and-zero_left b, bit_and-zero_left (b / 2))
bit_and-halves (suc a) b = omega (
  arith,
  bit_and-bitwise (suc a) b,
  bit_and-bitwise (suc a / 2) (b / 2),
  low_digits_fuel a (suc a / 2) (suc a / 2) (b / 2) (omega arith) (omega arith),
)

bit_and-zero_bounded : (n a : ℕ) → a ≤ n → bit_and a 0 ≡ 0
bit_and-zero_bounded n zero h = bit_and-zero_left 0
bit_and-zero_bounded zero (suc a) h = absurd (omega arith)
bit_and-zero_bounded (suc n) (suc a) h =
    omega (arith, bit_and-halves (suc a) 0, bit_and-zero_bounded n (suc a / 2) (omega arith))

pub pow2_pos : (k : ℕ) → 0 < 2 ^ k
pow2_pos zero = omega arith
pow2_pos (suc k) = omega (arith, pow-suc 2 k, pow2_pos k)

double_mod : (a p : ℕ) → 0 < p → (a / 2) % p * 2 + a % 2 ≡ a % (2 * p)
double_mod a p h = grind arith

-- `a & (2^k - 1)`.
pub bit_and-mask : (k a : ℕ) → bit_and a (2 ^ k - 1) ≡ a % 2 ^ k
bit_and-mask zero a = omega (arith, bit_and-zero_bounded a a (omega arith))
bit_and-mask (suc k) a =
    let half : (2 ^ suc k - 1) / 2 ≡ 2 ^ k - 1 = omega (arith, pow-suc 2 k, pow2_pos k) in
    let odd : (2 ^ suc k - 1) % 2 ≡ 1 = omega (arith, pow-suc 2 k, pow2_pos k) in
    bit_and-halves a (2 ^ suc k - 1)
    ∙ rw (half, odd, bit_and-mask k (a / 2), pow-succ' 2 k)
        (omega (arith, double_mod a (2 ^ k) (pow2_pos k)))

-- 2^k divides 2^n.
pub pow2_split : (k n : ℕ) → k ≤ n → 2 ^ k * 2 ^ (n - k) ≡ 2 ^ n
pow2_split zero n h = let e : n - 0 ≡ n = omega arith in rw e (omega arith)
pow2_split (suc k) zero h = absurd (omega arith)
pow2_split (suc k) (suc n) h =
    let e : suc n - suc k ≡ n - k = omega arith in
    rw (e, pow-succ' 2 k, pow-succ' 2 n, mul_assoc) (ap (λ t. 2 * t) (pow2_split k n (omega arith)))

-- A counter that wraps at 2^64 has the remainder of the counter that does not, at a power of two.
pub mod_of_wrapped : (k a : ℕ) → k ≤ 64 → a % 2 ^ 64 % 2 ^ k ≡ a % 2 ^ k
mod_of_wrapped k a h =
    mod-mod_of_dvd (2 ^ k) a (rw (pow2_split k 64 h) at (dvd-mul_right (2 ^ k) (2 ^ (64 - k))))

-- Counters less than the modulus apart have different remainders.
pub mod-ne : (n i j : ℕ) → i < j → j < i + n → i % n ≢ j % n
mod-ne n i j lt near = λ e. grind arith

pub pow2_mono : (k n : ℕ) → k ≤ n → 2 ^ k ≤ 2 ^ n
pow2_mono k n h = let split = pow2_split k n h in let pos = pow2_pos (n - k) in grind arith
