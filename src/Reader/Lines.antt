-- ===== src/Reader/Lines.antt =====
-- A length line in the buffer: digits, a carriage return, a line feed.
use nohost_server.Base.{
  ℕ, zero, suc, ◌+◌, ◌-◌, ◌<◌, ◌≡◌, refl, List, [], ◌∷◌, ◌++◌, some, arith, length, Memory, Holds,
  Holds-append, view, view-Holds, ==-ne,
}
use nohost_server.Base.Int.{pos, atoi, print_nat, atoi-print_nat, Lacks, print_nat-Lacks}
use nohost_server.Scan.{find_byte}

abbrev pub crlf : List ℕ
crlf = 13 ∷ 10 ∷ []

-- The line feed behind digits and a carriage return is found.
find_byte-line :
    (n : ℕ) (m : Memory) (i : ℕ) (digits : List ℕ) (q : ℕ)
    → i + length digits ≡ q
    → Holds m i digits
    → Lacks 10 digits
    → m q ≡ 13
    → m (suc q) ≡ 10
    → length digits + 1 < n
    → find_byte n 10 m i ≡ some (suc q)
unfolding find_byte
find_byte-line zero m i ds q e h l cr lf room = absurd (omega arith)
find_byte-line (suc zero) m i ds q e h l cr lf room = absurd (omega arith)
find_byte-line (suc (suc n)) m i [] q e h l cr lf room =
    let e' : i ≡ q = omega arith in rw (e', cr, lf) refl
find_byte-line (suc (suc n)) m i (d ∷ ds) q e h l cr lf room =
    let skip =
      find_byte-line (suc n) m (suc i) ds q (omega arith) (h.1) (l.1) cr lf (omega arith) in
    rw (h.0, ==-ne d 10 (omega arith), skip) refl

-- Where the parts of a length line stand: the digits from `s`, their end at `q`.
pub record Line (m : Memory) (s q : ℕ) (n : ℕ) : Type 0 where
  pub ends : s + length (print_nat n) ≡ q
  pub digits : Holds m s (print_nat n)
  pub return : m q ≡ 13
  pub feed : m (suc q) ≡ 10

pub Line-split :
    (m : Memory) (s n : ℕ) (rest : List ℕ)
    → Holds m s (print_nat n ++ (crlf ++ rest))
    → Line m s (s + length (print_nat n)) n × Holds m (s + length (print_nat n) + 2) rest
Line-split m s n rest h =
    let (digits, behind) = Holds-append m s (print_nat n) (crlf ++ rest) h in
    let e : suc (suc (s + length (print_nat n))) ≡ s + length (print_nat n) + 2 = omega arith in
    (
      record { ends = refl; digits = digits; return = behind.0; feed = behind.1.0 },
      rw e at (behind.1.1),
    )

module _ {m : Memory} {s q n : ℕ} (l : Line m s q n) where
  pub Line-find : (f : ℕ) → length (print_nat n) + 1 < f → find_byte f 10 m s ≡ some (suc q)
  Line-find f room =
      find_byte-line f m s (print_nat n) q l.ends l.digits (print_nat-Lacks 10 n (omega arith))
        l.return l.feed room

  pub Line-atoi : atoi (view m s (q - s)) ≡ pos n
  Line-atoi =
      let size : q - s ≡ length (print_nat n) = omega (arith, l.ends) in
      rw (size, view-Holds m s (print_nat n) l.digits) (atoi-print_nat n)
