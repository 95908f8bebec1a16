-- ===== src/Util/Laws.antt =====
-- atop against atoi and sprintf, and the limits that pattern_limits gives.
use nohost_server.Base.{
  ap, sym, ◌%◌, ◌^◌, ◌<◌, ◌∙◌, Bool-cases, inl, inr, ℕ, ◌+◌, ◌-◌, ◌*◌, ◌≡◌, ◌≢◌, refl, Bool, true,
  false, ◌&&◌, List, [], ◌∷◌, ◌++◌, some, ltb, ◌==◌, if◌then◌else◌, arith,
}
use nohost_server.Base.Int.{
  ℤ, is_digit, pos, negsuc, read_digits, print_nat, all_digits, print_nat-all_digits,
  read_digits-print_nat,
}
use nohost_server.Util.{atop, atop_loop, raise_last, prefix, pattern_limits, is_star}

-- The number that a 32-bit pattern stands for.
abbrev int_of : ℕ → ℤ
int_of ret = if ltb ret (2 ^ 31) then pos ret else negsuc (2 ^ 32 - ret - 1)

wrapped : (r d : ℕ) → (r % 2 ^ 32 * 10 + d) % 2 ^ 32 ≡ (r * 10 + d) % 2 ^ 32
wrapped r d = omega arith

atop_loop-digit :
    (x b : ℕ) (bytes : List ℕ)
    → is_digit b ≡ true
    → atop_loop x (b ∷ bytes) ≡ atop_loop ((x * 10 + (b - 48)) % 2 ^ 32) bytes
unfolding atop_loop
atop_loop-digit x b bytes is = ground arith

all_read :
    (r b : ℕ) (bytes : List ℕ)
    → is_digit b ≡ true
    → (if all_digits (b ∷ bytes) then int_of (read_digits r (b ∷ bytes) % 2 ^ 32) else negsuc 0) ≡ (
        if all_digits bytes
        then int_of (read_digits (r * 10 + (b - 48)) bytes % 2 ^ 32)
        else negsuc 0)
unfolding all_digits read_digits
all_read r b bytes is = ground arith

atop_loop-run :
    (r : ℕ) (bytes : List ℕ)
    → atop_loop (r % 2 ^ 32) bytes
      ≡ (if all_digits bytes then int_of (read_digits r bytes % 2 ^ 32) else negsuc 0)
unfolding atop_loop all_digits read_digits
atop_loop-run r [] = refl
atop_loop-run r (b ∷ bytes) = elim (Bool-cases (is_digit b)) [
  | inl is ↦
      atop_loop-digit (r % 2 ^ 32) b bytes is
      ∙ ap (λ x. atop_loop x bytes) (wrapped r (b - 48))
      ∙ atop_loop-run (r * 10 + (b - 48)) bytes
      ∙ sym (all_read r b bytes is)
  | inr no_digit ↦ ground arith
]

atop-run :
    (bytes : List ℕ)
    → atop bytes ≡ (if all_digits bytes then int_of (read_digits 0 bytes % 2 ^ 32) else negsuc 0)
unfolding atop
atop-run bytes = atop_loop-run 0 bytes

small_int : (n : ℕ) → n < 2 ^ 31 → int_of (n % 2 ^ 32) ≡ pos n
small_int n lt =
    let same : n % 2 ^ 32 ≡ n = omega arith in
    let small : ltb n (2 ^ 31) ≡ true = ground arith in rw (same, small) refl

-- atop reads what sprintf prints of a number that an `int` can hold and that is not negative, and
-- returns -1 for bytes of which one is no digit.
pub atop-reads :
    (n : ℕ) (bytes : List ℕ)
    → n < 2 ^ 31
    → all_digits bytes ≡ false
    → (atop (print_nat n) ≡ pos n) × (atop bytes ≡ negsuc 0)
atop-reads n bytes lt odd = (
  atop-run (print_nat n) ∙ rw (print_nat-all_digits n, read_digits-print_nat n) (small_int n lt),
  atop-run bytes ∙ rw odd refl,
)

-- `memcmp` on the bytes of both, and where one ends first the shorter is less.
abbrev pub before : List ℕ → List ℕ → Bool
before [] [] = false
before [] (y ∷ ys) = true
before (x ∷ xs) [] = false
before (x ∷ xs) (y ∷ ys) = if ltb x y then true else (x == y) && before xs ys

-- The last byte can be raised.
abbrev pub CanRaise : List ℕ → Type 0
CanRaise [] = ⊥
CanRaise (b ∷ []) = b ≢ 255
CanRaise (b ∷ c ∷ bs) = CanRaise (c ∷ bs)

raise_last-before : (p rest : List ℕ) → CanRaise p → before (p ++ rest) (raise_last p) ≡ true
unfolding raise_last
raise_last-before [] rest h = absurd h
raise_last-before (b ∷ []) rest h = ground arith
raise_last-before (b ∷ c ∷ bs) rest h = ground (arith, raise_last-before (c ∷ bs) rest h)

before-append : (p rest : List ℕ) → before (p ++ rest) p ≡ false
before-append [] [] = refl
before-append [] (x ∷ xs) = refl
before-append (b ∷ bs) rest = ground (arith, before-append bs rest)

-- Unless the pattern is `*`, pattern_limits gives limits that every string which begins with the
-- pattern's bytes before its first special one lies between (it is not before the first and it is
-- before the second), if these bytes are some and the last of them is not 0xFF.
pub pattern_limits-between :
    (pattern rest : List ℕ)
    → is_star pattern ≡ false
    → CanRaise (prefix pattern)
    → (start stop : List ℕ) × ((pattern_limits pattern).start ≡ some start)
      × ((pattern_limits pattern).stop ≡ some stop)
      × (before (prefix pattern ++ rest) start ≡ false)
      × (before (prefix pattern ++ rest) stop ≡ true)
unfolding pattern_limits
pattern_limits-between pattern rest h ok = rw h (
  prefix pattern,
  raise_last (prefix pattern),
  refl,
  refl,
  before-append (prefix pattern) rest,
  raise_last-before (prefix pattern) rest ok,
)
