-- ===== src/Base/Int/Padded.antt =====
-- sprintf of `%04d` and the like: a number with zeros in front.
use nohost_server.Base.Tests.{◌==◌}
use Prim.Native.Nat.{ℕ, zero, suc, ◌+◌, ◌-◌, ◌*◌, ◌/◌, ◌%◌, ◌^◌, ◌≤◌, ◌<◌}
use mathlib.Core.Path.{◌≡◌, refl, ap, ◌∙◌}
use mathlib.Core.Bool.{true}
use mathlib.Core.List.{List, [], ◌∷◌, ◌++◌}
use native.Mathlib.Omega.{arith}
use nohost_server.Base.Lists.{length, length-append, length-replicate, replicate}
use nohost_server.Base.Int.{
  pos, atoi, read_digits, print_digits, print_nat, head_digit, print_digits-head, atoi-digit,
  read_digits-print_nat,
}

unfoldable pub padded : ℕ → ℕ → List ℕ
padded width n = replicate (width - length (print_nat n)) b'0' ++ print_nat n

length-print_digits :
    (f n w : ℕ) (acc : List ℕ)
    → n < f
    → n < 10 ^ suc w
    → length (print_digits f n acc) ≤ suc w + length acc
unfolding print_digits
length-print_digits zero n w acc lt small = absurd (omega arith)
length-print_digits (suc f) n zero acc lt small =
    let last : n / 10 == 0 ≡ true = ground arith in rw last (omega arith)
length-print_digits (suc f) n (suc w) acc lt small =
    let step : 10 ^ suc (suc w) ≡ 10 * 10 ^ suc w = omega arith in
    let less : n / 10 < 10 ^ suc w = omega (arith, step) in
    ground (arith, less, length-print_digits f (n / 10) w ((48 + n % 10) ∷ acc))

-- A number that fits the width fills it.
pub length-padded : (w n : ℕ) → n < 10 ^ suc w → length (padded (suc w) n) ≡ suc w
unfolding padded print_nat
length-padded w n small =
    let most = length-print_digits (suc n) n w [] (omega arith) small in
    let zeros = length-replicate {A = ℕ} (suc w - length (print_nat n)) b'0' in
    let both = length-append (replicate (suc w - length (print_nat n)) b'0') (print_nat n) in
    omega (arith, most, zeros, both)

read_digits-zeros : (k : ℕ) (s : List ℕ) → read_digits 0 (replicate k b'0' ++ s) ≡ read_digits 0 s
unfolding read_digits
read_digits-zeros zero s = refl
read_digits-zeros (suc k) s = read_digits-zeros k s

head_digit-zeros :
    (k : ℕ) (s : List ℕ) → head_digit s ≡ true → head_digit (replicate k b'0' ++ s) ≡ true
unfolding head_digit
head_digit-zeros zero s h = h
head_digit-zeros (suc k) s h = refl

-- What %04d prints, atoi reads, whatever the width.
pub atoi-padded : (w n : ℕ) → atoi (padded w n) ≡ pos n
unfolding padded print_nat
atoi-padded w n =
    let k = w - length (print_nat n) in
    atoi-digit (padded w n)
      (head_digit-zeros k (print_nat n) (print_digits-head (suc n) n [] (omega arith)))
    ∙ ap pos (read_digits-zeros k (print_nat n) ∙ read_digits-print_nat n)
