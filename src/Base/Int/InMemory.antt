-- ===== src/Base/Int/InMemory.antt =====
-- atoi on a number in memory that is printed in decimal.
use Prim.Native.Nat.{ℕ, zero, suc, ◌+◌, ◌-◌, ◌*◌, ◌<◌}
use mathlib.Core.Path.{◌≡◌, refl, ap, ◌∙◌}
use mathlib.Core.Bool.{true, false}
use mathlib.Core.List.{List, [], ◌∷◌}
use native.Mathlib.Omega.{arith}
use nohost_server.Base.Lists.{length}
use nohost_server.Base.Tests.{◌==◌}
use nohost_server.Base.Bytes.{Memory, Holds}
use nohost_server.Base.Int.{
  pos, is_digit, is_space, read_digits, all_digits, read_digits_at, atoi_at, print_nat,
  print_nat-all_digits, print_nat-some, read_digits-print_nat,
}

read_digits_at-Holds :
    (ds : List ℕ) (n acc : ℕ) (m : Memory) (i : ℕ)
    → Holds m i ds
    → all_digits ds ≡ true
    → is_digit (m (i + length ds)) ≡ false
    → length ds < n
    → read_digits_at n acc m i ≡ read_digits acc ds
unfolding read_digits_at read_digits all_digits
read_digits_at-Holds ds zero acc m i h d e lt = absurd (omega arith)
read_digits_at-Holds [] (suc n) acc m i h d e lt =
    let here : i + 0 ≡ i = omega arith in rw (rw here at e, read_digits_at) refl
read_digits_at-Holds (c ∷ ds) (suc n) acc m i h d e lt =
    let there : i + suc (length ds) ≡ suc i + length ds = omega arith in
    let digit : is_digit c ≡ true = ground arith in
    let digits : all_digits ds ≡ true = ground arith in
    let digit_here : is_digit (m i) ≡ true = rw (h.0) digit in
    rw (digit_here, digit, read_digits_at, read_digits)
      (read_digits_at-Holds ds n (acc * 10 + (m i - 48)) m (suc i) (h.1) digits (rw there at e)
          (omega arith)
        ∙ ap (λ x. read_digits (acc * 10 + (x - 48)) ds) (h.0))

atoi_at-digits :
    (ds : List ℕ) (n : ℕ) (m : Memory) (i : ℕ)
    → Holds m i ds
    → all_digits ds ≡ true
    → is_digit (m (i + length ds)) ≡ false
    → length ds < n
    → 0 < length ds
    → atoi_at n m i ≡ pos (read_digits 0 ds)
unfolding atoi_at all_digits
atoi_at-digits [] n m i h d e lt some = absurd (omega arith)
atoi_at-digits (c ∷ ds) zero m i h d e lt some = absurd (omega arith)
atoi_at-digits (c ∷ ds) (suc n) m i h d e lt some =
    let space : is_space (m i) ≡ false = ground (arith, h.0) in
    let minus : (m i == b'-') ≡ false = ground (arith, h.0) in
    let plus : (m i == b'+') ≡ false = ground (arith, h.0) in
    rw (space, minus, plus, atoi_at) (ap pos (read_digits_at-Holds (c ∷ ds) (suc n) 0 m i h d e lt))

-- What %d printed in memory, with a byte behind it that is no digit, is read.
pub atoi_at-print_nat :
    (n k : ℕ) (m : Memory) (i : ℕ)
    → Holds m i (print_nat k)
    → is_digit (m (i + length (print_nat k))) ≡ false
    → length (print_nat k) < n
    → atoi_at n m i ≡ pos k
atoi_at-print_nat n k m i h e lt =
    atoi_at-digits (print_nat k) n m i h (print_nat-all_digits k) e lt (print_nat-some k)
    ∙ ap pos (read_digits-print_nat k)
