-- ===== src/Base/Int.antt =====
-- The integers that atoi returns and sprintf prints, and these two functions of the C library.
-- A value that does not fit an `int`, which C leaves undefined for atoi, is kept exact.
pub mod InMemory
pub mod Padded
use Prim.Native.Nat.{ℕ, zero, suc, ◌+◌, ◌-◌, ◌*◌, ◌/◌, ◌%◌, ◌^◌, ◌<◌}
use mathlib.Core.Path.{◌≡◌, refl, ap, ◌∙◌}
use mathlib.Core.Bool.{Bool, true, false, ◌&&◌, ◌||◌}
use mathlib.Core.List.{List, [], ◌∷◌}
use native.Mathlib.Omega.{arith}
use mathlib.Core.Logic.{inl, inr}
use nohost_server.Base.Lists.{length}
use nohost_server.Base.Tests.{Bool-cases, leb, ◌==◌, if◌then◌else◌}

-- `negsuc n` is -(n + 1).
pub data ℤ : Type 0 where
  pos : ℕ → ℤ
  negsuc : ℕ → ℤ

abbrev pub is_digit : ℕ → Bool
is_digit c = leb 48 c && leb c 57

abbrev pub is_space : ℕ → Bool
is_space c = c == 32 || (leb 9 c && leb c 13)

-- The value of the digits at the front.
unfoldable pub read_digits : ℕ → List ℕ → ℕ
read_digits acc [] = acc
read_digits acc (c ∷ s) = elim (is_digit c) [
  | true ↦ read_digits (acc * 10 + (c - 48)) s
  | false ↦ acc
]

abbrev pub negate : ℕ → ℤ
negate zero = pos 0
negate (suc n) = negsuc n

unfoldable pub atoi : List ℕ → ℤ
unfolding read_digits
atoi [] = pos 0
atoi (c ∷ s) = elim (is_space c) [
  | true ↦ atoi s
  | false ↦
      if c == b'-'
      then negate (read_digits 0 s)
      else if c == b'+'
      then pos (read_digits 0 s)
      else pos (read_digits 0 (c ∷ s))
]

print_digits : ℕ → ℕ → List ℕ → List ℕ
print_digits zero n acc = acc
print_digits (suc f) n acc =
    let digit = 48 + n % 10 in
    let more = print_digits f (n / 10) (digit ∷ acc) in if n / 10 == 0 then digit ∷ acc else more

-- `%d` of a number that is not negative.
unfoldable pub print_nat : ℕ → List ℕ
unfolding print_digits
print_nat n = print_digits (suc n) n []

unfoldable pub print_int : ℤ → List ℕ
unfolding print_nat
print_int (pos n) = print_nat n
print_int (negsuc n) = b'-' ∷ print_nat (suc n)

read-print_digits :
    (f n : ℕ) (acc : List ℕ) → n < f → read_digits 0 (print_digits f n acc) ≡ read_digits n acc
unfolding print_digits read_digits
read-print_digits zero n acc h = absurd (omega arith)
read-print_digits (suc f) n acc h =
    ground (arith, read-print_digits f (n / 10) ((48 + n % 10) ∷ acc))

-- The first character of a printed number is a digit.
head_digit : List ℕ → Bool
head_digit [] = false
head_digit (c ∷ s) = is_digit c

print_digits-head : (f n : ℕ) (acc : List ℕ) → n < f → head_digit (print_digits f n acc) ≡ true
unfolding print_digits head_digit
print_digits-head zero n acc h = absurd (omega arith)
print_digits-head (suc f) n acc h =
    ground (arith, print_digits-head f (n / 10) ((48 + n % 10) ∷ acc))

atoi-digit : (s : List ℕ) → head_digit s ≡ true → atoi s ≡ pos (read_digits 0 s)
unfolding atoi head_digit
atoi-digit [] h = refl
atoi-digit (c ∷ s) h = ground arith

-- What %d prints, atoi reads.
pub atoi-print_nat : (n : ℕ) → atoi (print_nat n) ≡ pos n
unfolding print_nat read_digits
atoi-print_nat n =
    atoi-digit (print_digits (suc n) n []) (print_digits-head (suc n) n [] (omega arith))
    ∙ ap pos (read-print_digits (suc n) n [] (omega arith))

pub read_digits-print_nat : (n : ℕ) → read_digits 0 (print_nat n) ≡ n
unfolding print_nat read_digits
read_digits-print_nat n = read-print_digits (suc n) n [] (omega arith)

unfoldable pub all_digits : List ℕ → Bool
all_digits [] = true
all_digits (c ∷ s) = is_digit c && all_digits s

print_digits-all_digits :
    (f n : ℕ) (acc : List ℕ) → all_digits acc ≡ true → all_digits (print_digits f n acc) ≡ true
unfolding print_digits all_digits
print_digits-all_digits zero n acc h = h
print_digits-all_digits (suc f) n acc h =
    let more : all_digits ((48 + n % 10) ∷ acc) ≡ true = ground arith in
    elim (Bool-cases (n / 10 == 0)) [
      | inl e ↦ rw e more
      | inr e ↦ rw e (print_digits-all_digits f (n / 10) ((48 + n % 10) ∷ acc) more)
    ]

pub print_nat-all_digits : (n : ℕ) → all_digits (print_nat n) ≡ true
unfolding print_nat all_digits
print_nat-all_digits n = print_digits-all_digits (suc n) n [] refl

head_digit-some : (s : List ℕ) → head_digit s ≡ true → 0 < length s
unfolding head_digit
head_digit-some [] h = cc
head_digit-some (c ∷ s) h = omega arith

pub print_nat-some : (n : ℕ) → 0 < length (print_nat n)
unfolding print_nat
print_nat-some n =
    head_digit-some (print_digits (suc n) n []) (print_digits-head (suc n) n [] (omega arith))

-- All of the bytes are after `b`.
abbrev pub Lacks : ℕ → List ℕ → Type 0
Lacks b [] = Unit
Lacks b (x ∷ xs) = (b < x) × Lacks b xs

print_digits-Lacks :
    (b f n : ℕ) (acc : List ℕ) → b < 48 → Lacks b acc → Lacks b (print_digits f n acc)
unfolding print_digits
print_digits-Lacks b zero n acc h l = l
print_digits-Lacks b (suc f) n acc h l = elim (Bool-cases (n / 10 == 0)) [
  | inl e ↦ rw e (omega arith, l)
  | inr e ↦ rw e (print_digits-Lacks b f (n / 10) ((48 + n % 10) ∷ acc) h (omega arith, l))
]

-- A printed number holds no byte before the digits.
pub print_nat-Lacks : (b n : ℕ) → b < 48 → Lacks b (print_nat n)
unfolding print_nat
print_nat-Lacks b n h = print_digits-Lacks b (suc n) n [] h tt

-- atoi of the C string in memory, for the bytes before the end of the array that it lies in; the
-- first argument is their number.
read_digits_at : ℕ → ℕ → (ℕ → ℕ) → ℕ → ℕ
read_digits_at zero acc m i = acc
read_digits_at (suc n) acc m i = elim (is_digit (m i)) [
  | true ↦ read_digits_at n (acc * 10 + (m i - 48)) m (suc i)
  | false ↦ acc
]

unfoldable pub atoi_at : ℕ → (ℕ → ℕ) → ℕ → ℤ
unfolding read_digits_at
atoi_at zero m i = pos 0
atoi_at (suc n) m i = elim (is_space (m i)) [
  | true ↦ atoi_at n m (suc i)
  | false ↦
      if m i == b'-'
      then negate (read_digits_at n 0 m (suc i))
      else if m i == b'+'
      then pos (read_digits_at n 0 m (suc i))
      else pos (read_digits_at (suc n) 0 m i)
]

-- The conversion to `uint64_t`.
unfoldable pub u64_of_int : ℤ → ℕ
u64_of_int (pos n) = n % 2 ^ 64
u64_of_int (negsuc n) = 2 ^ 64 - 1 - n % 2 ^ 64
