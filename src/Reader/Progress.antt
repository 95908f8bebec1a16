-- ===== src/Reader/Progress.antt =====
-- client.cc, client_read_command: the bytes that it takes off the buffer.
use nohost_server.Base.{
  ℕ, zero, suc, ◌+◌, ◌-◌, ◌≤◌, ◌<◌, ◌≡◌, refl, Bool, true, false, not, ◌&&◌, ◌||◌, ◌++◌, ◌∷◌,
  Option, none, some, arith, leb, ltb, ◌==◌, if◌then◌else◌, Bool-cases, inl, inr, view, codes, [],
}
use nohost_server.Base.Int.{ℤ, pos, negsuc, atoi}
use nohost_server.Client.{Client, Error, literal, client_append_arg, client_err_expected_got}
use nohost_server.Scan.{Outcome, find_byte}
use nohost_server.Telnet.Progress.{
  Took, shrunk, failed, Took-if, find_byte-le, consume-shrinks, client_parse_telnet_command-Took,
}
use nohost_server.Telnet.{client_parse_telnet_command}
use nohost_server.Reader.{
  Round, go_on, leave, expected_dollar, bulk_data, bulk_size, bulk_line, bulk_round, bulk_next,
  bulk_loop, read_bulks, rounds, array_size, array_line, not_positive, is_negative, stands_at,
  read_plus, client_read_command,
}

-- A round moves on in the same buffer, or returns an error.
data Moved (c : Client) (i : ℕ) : Round → Type 0 where
  moved :
      {c' : Client} {flag : Bool} {j : ℕ}
      → c'.buf_len ≡ c.buf_len
      → c'.buf_idx ≡ c.buf_idx
      → i < j
      → Moved c i (go_on c' flag j)
  left : {c' : Client} {e : Error} → Moved c i (leave c' (some e))

Moved-if :
    (b : Bool) {c : Client} {i : ℕ} {x y : Round}
    → Moved c i x
    → Moved c i y
    → Moved c i (if b then x else y)
Moved-if true hx hy = hx
Moved-if false hx hy = hy

bulk_data-Moved :
    (c : Client) (flag : Bool) (i k z n : ℕ) → k < i → Moved c k (bulk_data c flag i z n)
unfolding bulk_data client_append_arg
bulk_data-Moved c true i k z n h =
    let lt : k < i + n + 2 = omega arith in
    Moved-if (ltb (z - i) (n + 2)) left (
      Moved-if (not (c.buf (i + n) == 13)) left
        (Moved-if (not (c.buf (i + n + 1) == 10)) left (moved refl refl lt)))
bulk_data-Moved c false i k z n h =
    let lt : k < i + n + 2 = omega arith in
    Moved-if (ltb (z - i) (n + 2)) left (
      Moved-if (not (c.buf (i + n) == 13)) left
        (Moved-if (not (c.buf (i + n + 1) == 10)) left (moved refl refl lt)))

bulk_size-Moved :
    (c : Client) (v : ℤ) (flag : Bool) (s i k z : ℕ) → k < i → Moved c k (bulk_size c v flag s i z)
unfolding bulk_size client_append_arg
bulk_size-Moved c (negsuc zero) flag s i k z h =
    let lt : k < i + 1 = omega arith in moved refl refl lt
bulk_size-Moved c (negsuc (suc n)) flag s i k z h = left
bulk_size-Moved c (pos zero) flag s i k z h =
    Moved-if (not (i - s == 2)) left (bulk_data-Moved c flag (i + 1) k z 0 (omega arith))
bulk_size-Moved c (pos (suc n)) flag s i k z h =
    bulk_data-Moved c flag (i + 1) k z (suc n) (omega arith)

bulk_line-Moved :
    (c : Client) (flag : Bool) (s k z : ℕ) (found : Option ℕ)
    → k < z
    → ((i : ℕ) → found ≡ some i → k < i)
    → Moved c k (bulk_line c flag s z found)
unfolding bulk_line
bulk_line-Moved c flag s k z none h le = moved refl refl h
bulk_line-Moved c flag s k z (some i) h le =
    Moved-if (not (c.buf (i - 1) == 13)) left (bulk_size-Moved c _ flag s i k z (le i refl))

bulk_round-Moved : (c : Client) (flag : Bool) (i z : ℕ) → Moved c i (bulk_round c flag i z)
unfolding bulk_round expected_dollar client_err_expected_got
bulk_round-Moved c flag i z = elim (Bool-cases (leb z i)) [
  | inl done ↦ rw done left
  | inr more ↦ rw more (
      Moved-if (not (c.buf i == b'$')) left (
        bulk_line-Moved c flag (i + 1) i z _ (ground arith)
          (λ j e. omega (arith, find_byte-le (z - (i + 1)) 10 c.buf (i + 1) j e))))
]

Took-same : (c c' : Client) (o : Outcome) → c'.buf_len ≡ c.buf_len → Took c' o → Took c o
Took-same c c' (d, none) e (shrunk h) = shrunk (omega arith)
Took-same c c' (d, some err) e failed = failed

bulk_next-Took :
    (c : Client) (i : ℕ) (rest : Client → Bool → ℕ → Outcome) (r : Round)
    → ((c' : Client) (flag : Bool) (j : ℕ)
        → c'.buf_len ≡ c.buf_len
        → c'.buf_idx ≡ c.buf_idx
        → i < j
        → Took c' (rest c' flag j))
    → Moved c i r
    → Took c (bulk_next rest r)
unfolding bulk_next
bulk_next-Took c i rest (leave c' (some e)) h left = failed
bulk_next-Took c i rest (leave c' none) h m = elim m [ ]
bulk_next-Took c i rest (go_on c' flag j) h (moved same_len same_idx lt) =
    Took-same c c' _ same_len (h c' flag j same_len same_idx lt)

-- The loop, begun behind the command's first byte or with a round to go.
bulk_loop-Took :
    (n : ℕ) (c : Client) (flag : Bool) (i z : ℕ)
    → 0 < c.buf_len
    → c.buf_idx < i + n
    → c.buf_idx ≤ i
    → Took c (bulk_loop n c flag i z)
unfolding bulk_loop
bulk_loop-Took zero c flag i z some_left h le = shrunk (consume-shrinks c i some_left (omega arith))
bulk_loop-Took (suc n) c flag i z some_left h le =
    bulk_next-Took c i (λ c' flag i'. bulk_loop n c' flag i' z) (bulk_round c flag i z)
      (λ c' f j l x lt. bulk_loop-Took n c' f j z (omega arith) (omega arith) (omega arith))
      (bulk_round-Moved c flag i z)

read_bulks-Took :
    (c : Client) (v : ℤ) (flag : Bool) (i z : ℕ)
    → 0 < c.buf_len
    → c.buf_idx < i + rounds v
    → c.buf_idx ≤ i
    → Took c (read_bulks c v flag i z)
unfolding read_bulks
read_bulks-Took c v flag i z some_left h le =
    Took-if (leb z i) failed (bulk_loop-Took (rounds v) c flag i z some_left h le)

array_line-Took :
    (c : Client) (s z : ℕ) (found : Option ℕ)
    → 0 < c.buf_len
    → ((i : ℕ) → found ≡ some i → c.buf_idx ≤ i)
    → Took c (array_line c s z found)
unfolding array_line array_size
array_line-Took c s z none some_left le = failed
array_line-Took c s z (some i) some_left le =
    let v = atoi (view c.buf s (i - 1 - s)) in
    let from : c.buf_idx ≤ i = le i refl in
    Took-if (not (c.buf (i - 1) == 13)) failed (
      Took-if (not_positive v && (is_negative v || not (i - s == 2))) failed
        (read_bulks-Took c v false (i + 1) z some_left (omega arith) (omega arith)))

read_plus-Took :
    (garbage : ℤ) (c : Client) (i z : ℕ)
    → 0 < c.buf_len
    → c.buf_idx < i
    → Took c (read_plus garbage c i z)
unfolding read_plus client_append_arg
read_plus-Took garbage c i z some_left h =
    let ok = client_append_arg c (literal (codes "OK")) 2 in
    let ko = client_append_arg c (literal (codes "KO")) 2 in
    Took-if (leb z i) failed (
      Took-if (ltb c.buf_len 5) failed (
        Took-if (stands_at c.buf i (codes "OK" ++ 13 ∷ 10 ∷ []))
          (shrunk (consume-shrinks ok (i + 4) some_left (omega arith)))
          (Took-if (stands_at c.buf i (codes "KO" ++ 13 ∷ 10 ∷ []))
            (shrunk (consume-shrinks ko (i + 4) some_left (omega arith)))
            (read_bulks-Took c garbage false i z some_left (omega arith) (omega arith)))))

first_byte-Took :
    (garbage : ℤ) (c : Client)
    → 0 < c.buf_len
    → Took c (
        if not (c.buf c.buf_idx == b'*')
          && (not (c.buf c.buf_idx == b'$') && not (c.buf c.buf_idx == b'+'))
        then client_parse_telnet_command c
        else if c.buf c.buf_idx == b'$'
        then read_bulks c (pos 1) true c.buf_idx (c.buf_idx + c.buf_len)
        else if c.buf c.buf_idx == b'+'
        then read_plus garbage c (c.buf_idx + 1) (c.buf_idx + c.buf_len)
        else array_line c
            (c.buf_idx + 1)
            (c.buf_idx + c.buf_len)
            (find_byte (c.buf_idx + c.buf_len - (c.buf_idx + 1)) 10 c.buf (c.buf_idx + 1)))
first_byte-Took garbage c some_left =
    let b = c.buf c.buf_idx in
    let i = c.buf_idx in
    let z = c.buf_idx + c.buf_len in
    Took-if (not (b == b'*') && (not (b == b'$') && not (b == b'+')))
      (client_parse_telnet_command-Took c)
      (Took-if (b == b'$')
        (read_bulks-Took c (pos 1) true i z some_left (omega arith) (omega arith))
        (Took-if (b == b'+') (read_plus-Took garbage c (i + 1) z some_left (omega arith)) (
          array_line-Took c (i + 1) z (find_byte (z - (i + 1)) 10 c.buf (i + 1)) some_left
            (λ j e. omega (arith, find_byte-le (z - (i + 1)) 10 c.buf (i + 1) j e)))))

Took-unless :
    (b : Bool) {c : Client} {x y : Outcome}
    → Took c x
    → (b ≡ false → Took c y)
    → Took c (if b then x else y)
Took-unless true hx hy = hx
Took-unless false hx hy = hy refl

-- A command that client_read_command returns without an error has taken at least one byte off the
-- input buffer.
pub client_read_command-Took : (garbage : ℤ) (c : Client) → Took c (client_read_command garbage c)
unfolding client_read_command
client_read_command-Took garbage c =
    Took-unless (leb (c.buf_idx + c.buf_len) c.buf_idx) failed (λ more.
      Took-same c (record c { args = [] }) _ refl
        (first_byte-Took garbage (record c { args = [] }) (ground arith)))
