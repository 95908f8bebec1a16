-- ===== src/Command/Length.antt =====
-- GetLength on a length line, whole or in two packets.
use nohost_server.Base.{
  ℕ, zero, suc, ◌+◌, ◌-◌, ◌*◌, ◌%◌, ◌^◌, ◌<◌, ◌≤◌, ◌≡◌, refl, ◌∙◌, true, false, List, [], ◌∷◌, ◌++◌,
  arith, ltb, ◌==◌, ==-ne, lt→ltb, Memory, Holds, Holds-append, length, add32,
}
use nohost_server.Base.Int.{
  is_digit, read_digits, print_nat, read_digits-print_nat, all_digits, print_nat-all_digits,
  print_nat-some,
}
use nohost_server.Command.{Info, next, not_yet, validated, with_digit, length_loop, get_length}

with_digit-digit :
    (x c : ℕ) → is_digit c ≡ true → with_digit (x % 2 ^ 32) c ≡ (x * 10 + (c - 48)) % 2 ^ 32
with_digit-digit x c h = ground arith

all_digits-split :
    (d : ℕ) (ds : List ℕ)
    → all_digits (d ∷ ds) ≡ true
    → (is_digit d ≡ true) × (all_digits ds ≡ true)
unfolding all_digits
all_digits-split d ds h = ground arith

-- One round on a digit.
length_loop-digit :
    (n : ℕ) (str : Memory) (cur x d : ℕ)
    → is_digit d ≡ true
    → str cur ≡ d
    → length_loop (suc n) str cur (x % 2 ^ 32)
      ≡ length_loop n str (suc cur) ((x * 10 + (d - 48)) % 2 ^ 32)
unfolding length_loop
length_loop-digit n str cur x d h e =
    let other : (d == 13) ≡ false = ground arith in
    let after : cur + 1 ≡ suc cur = omega arith in rw (e, other, with_digit-digit x d h, after) refl

read_digits-digit :
    (x d : ℕ) (ds : List ℕ)
    → is_digit d ≡ true
    → read_digits x (d ∷ ds) ≡ read_digits (x * 10 + (d - 48)) ds
unfolding read_digits
read_digits-digit x d ds h = ground arith

length_loop-line :
    (ds : List ℕ) (n : ℕ) (str : Memory) (cur x q : ℕ)
    → all_digits ds ≡ true
    → Holds str cur ds
    → cur + length ds ≡ q
    → str q ≡ 13
    → length ds < n
    → length_loop n str cur (x % 2 ^ 32) ≡ (q + 1, read_digits x ds % 2 ^ 32)
unfolding length_loop all_digits read_digits
length_loop-line ds zero str cur x q a h e cr room = absurd (omega arith)
length_loop-line [] (suc n) str cur x q a h e cr room =
    let e' : cur ≡ q = omega arith in rw (e', cr) refl
length_loop-line (d ∷ ds) (suc n) str cur x q a h e cr room =
    let (first, others) = all_digits-split d ds a in
    rw (read_digits-digit x d ds first) (
      length_loop-digit n str cur x d first h.0
      ∙ length_loop-line ds n str (suc cur) (x * 10 + (d - 48)) q others h.1 (omega arith) cr
          (omega arith))

length_loop-end :
    (ds : List ℕ) (n : ℕ) (str : Memory) (cur x q : ℕ)
    → all_digits ds ≡ true
    → Holds str cur ds
    → cur + length ds ≡ q
    → length ds ≡ n
    → length_loop n str cur (x % 2 ^ 32) ≡ (q, read_digits x ds % 2 ^ 32)
unfolding length_loop all_digits read_digits
length_loop-end [] zero str cur x q a h e room = let e' : cur ≡ q = omega arith in rw e' refl
length_loop-end [] (suc n) str cur x q a h e room = absurd (omega arith)
length_loop-end (d ∷ ds) zero str cur x q a h e room = absurd (omega arith)
length_loop-end (d ∷ ds) (suc n) str cur x q a h e room =
    let (first, others) = all_digits-split d ds a in
    rw (read_digits-digit x d ds first) (
      length_loop-digit n str cur x d first h.0
      ∙ length_loop-end ds n str (suc cur) (x * 10 + (d - 48)) q others h.1 (omega arith)
          (omega arith))

-- GetLength on a whole line `$n`, which the packet holds from `cur` on, gives the part the length `n`
-- (as a 32-bit number), marks it and returns the position behind the line.
pub get_length-whole :
    (str : Memory) (len cur n : ℕ) (p : Info)
    → p.len ≡ 0
    → Holds str cur (b'$' ∷ (print_nat n ++ 13 ∷ 10 ∷ []))
    → cur + length (print_nat n) + 3 ≤ len
    → get_length str b'$' len cur p
      ≡ next (cur + length (print_nat n) + 3) (validated (record p { len = n % 2 ^ 32 }))
unfolding get_length
get_length-whole str len cur n p fresh h room =
    let q = suc cur + length (print_nat n) in
    let (digits, behind) = Holds-append str (suc cur) (print_nat n) (13 ∷ 10 ∷ []) h.1 in
    let run =
      length_loop-line (print_nat n) (len - suc cur) str (suc cur) 0 q (print_nat-all_digits n)
        digits refl (behind.0) (omega arith) in
    let e1 : cur + 1 ≡ suc cur = omega arith in
    let e2 : q + 1 ≡ suc q = omega arith in
    let e3 : suc q + 1 ≡ cur + length (print_nat n) + 3 = omega arith in
    let v : read_digits 0 (print_nat n) % 2 ^ 32 ≡ n % 2 ^ 32 = rw (read_digits-print_nat n) refl in
    let sum : add32 (p.len * 10) (n % 2 ^ 32) ≡ n % 2 ^ 32 = omega arith in
    rw
      (
        ==-ne cur len (omega arith),
        h.0,
        e1,
        ==-ne (suc cur) len (omega arith),
        run,
        v,
        e2,
        behind.1.0,
        sum,
        e3,
        lt→ltb (suc q) len (omega arith),
      )
      refl

-- A length line that two packets share, the first ending with the digits and the second beginning with
-- the line's end: GetLength waits at the end of the first, and the second gives the part ten times
-- the length (as a 32-bit number) and marks it.
pub get_length-split :
    (first second : Memory) (len1 len2 cur n : ℕ) (p : Info)
    → p.len ≡ 0
    → Holds first cur (b'$' ∷ print_nat n)
    → cur + length (print_nat n) + 1 ≡ len1
    → Holds second 0 (13 ∷ 10 ∷ [])
    → 2 ≤ len2
    → (get_length first b'$' len1 cur p ≡ not_yet (record p { len = n % 2 ^ 32 }))
      × (get_length second b'$' len2 0 (record p { len = n % 2 ^ 32 })
          ≡ next 2 (validated (record p { len = n % 2 ^ 32 * 10 % 2 ^ 32 })))
unfolding get_length length_loop all_digits read_digits
get_length-split first second len1 len2 cur n p fresh h ends h2 room =
    let digits = print_nat-some n in
    let run =
      length_loop-end (print_nat n) (len1 - suc cur) first (suc cur) 0 len1 (print_nat-all_digits n)
        h.1 (omega arith) (omega arith) in
    let e1 : cur + 1 ≡ suc cur = omega arith in
    let v : read_digits 0 (print_nat n) % 2 ^ 32 ≡ n % 2 ^ 32 = rw (read_digits-print_nat n) refl in
    let sum : add32 (p.len * 10) (n % 2 ^ 32) ≡ n % 2 ^ 32 = omega arith in
    let at_end : length_loop (len2 - 0) second 0 0 ≡ (1, 0) =
      length_loop-line [] (len2 - 0) second 0 0 0 refl tt refl h2.0 (omega arith) in
    let kept : add32 (n % 2 ^ 32 * 10) 0 ≡ n % 2 ^ 32 * 10 % 2 ^ 32 = omega arith in
    let out : ltb len1 len1 ≡ false = ground arith in
    (
      rw
          (
            ==-ne cur len1 (omega arith),
            h.0,
            e1,
            ==-ne (suc cur) len1 (omega arith),
            run,
            v,
            sum,
            out,
          )
          refl,
      rw
          (
            ==-ne 0 len2 (omega arith),
            h2.0,
            ==-ne 0 len2 (omega arith),
            at_end,
            h2.1.0,
            lt→ltb 1 len2 (omega arith),
            kept,
          )
          refl,
    )
