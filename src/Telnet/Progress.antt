-- ===== src/Telnet/Progress.antt =====
-- client.cc, client_parse_telnet_command: the bytes that it takes off the buffer.
use nohost_server.Base.{
  ℕ, zero, suc, ◌+◌, ◌-◌, ◌≤◌, ◌<◌, ◌≡◌, refl, Bool, true, false, not, ◌||◌, [], Option, none, some,
  arith, Memory, leb, ltb, ◌==◌, if◌then◌else◌, Bool-cases, inl, inr,
}
use nohost_server.Client.{Client, Error, client_append_arg}
use nohost_server.Scan.{Outcome, find_byte, consume}
use nohost_server.Telnet.{
  Round, go_on, leave, quoted, line, telnet_round, telnet_next, telnet_loop,
  client_parse_telnet_command,
}

pub data Took (c : Client) : Outcome → Type 0 where
  shrunk : {c' : Client} → c'.buf_len < c.buf_len → Took c (c', none)
  failed : {c' : Client} {e : Error} → Took c (c', some e)

pub find_byte-le : (n b : ℕ) (m : Memory) (i j : ℕ) → find_byte n b m i ≡ some j → i ≤ j
unfolding find_byte
find_byte-le zero b m i j e = cc
find_byte-le (suc n) b m i j e = ground (arith, find_byte-le n b m (suc i) j)

pub consume-shrinks :
    (c : Client) (i : ℕ) → 0 < c.buf_len → c.buf_idx < i → (consume c i).buf_len < c.buf_len
unfolding consume
consume-shrinks c i pos h = omega arith

pub Took-if :
    (b : Bool) {c : Client} {x y : Outcome} → Took c x → Took c y → Took c (if b then x else y)
Took-if true hx hy = hx
Took-if false hx hy = hy

-- A round moves on in the same buffer, leaves with an error, or has the command.
data Moved (c : Client) (i : ℕ) : Round → Type 0 where
  moved :
      {c' : Client} {s j : ℕ} {first : Bool}
      → c'.buf_len ≡ c.buf_len
      → c'.buf_idx ≡ c.buf_idx
      → i < j
      → Moved c i (go_on c' j s first)
  refused : {c' : Client} {e : Error} → Moved c i (leave c' (some e))
  ended : {c' : Client} → c'.buf_len < c.buf_len → Moved c i (leave c' none)

Moved-if :
    (b : Bool) {c : Client} {i : ℕ} {x y : Round}
    → Moved c i x
    → Moved c i y
    → Moved c i (if b then x else y)
Moved-if true hx hy = hx
Moved-if false hx hy = hy

line-same :
    (c : Client) (i s : ℕ) (first : Bool)
    → ((line c i s first).buf_len ≡ c.buf_len) × ((line c i s first).buf_idx ≡ c.buf_idx)
unfolding line client_append_arg
line-same c i s true = (refl, refl)
line-same c i s false = (refl, refl)

quoted-Moved :
    (c : Client) (s i z : ℕ) (first : Bool) (found : Option ℕ)
    → i < z
    → ((j : ℕ) → found ≡ some j → i < j)
    → Moved c i (quoted c s z first found)
unfolding quoted client_append_arg
quoted-Moved c s i z first none h le = let lt : i < z + 2 = omega arith in moved refl refl lt
quoted-Moved c s i z first (some j) h le =
    let from : i < j = le j refl in
    let lt : i < j + 1 = omega arith in
    let b = c.buf (j + 1) in
    Moved-if (leb z (j + 1) || (b == b' ' || (b == 13 || b == 10))) (moved refl refl lt) refused

telnet_round-Moved :
    (c : Client) (i z s : ℕ) (first : Bool)
    → 0 < c.buf_len
    → c.buf_idx ≤ i
    → i < z
    → Moved c i (telnet_round c i z s first)
unfolding telnet_round client_append_arg
telnet_round-Moved c i z s first some_left le h =
    let b = c.buf i in
    let lt : i < i + 1 = omega arith in
    let (same_len, same_idx) = line-same c i s first in
    let less : (consume (line c i s first) (i + 1)).buf_len < (line c i s first).buf_len =
      consume-shrinks (line c i s first) (i + 1) (omega arith) (omega arith) in
    Moved-if (b == 39 || b == 34)
      (Moved-if (not first) refused (
        quoted-Moved c (i + 1) i z first _ h
          (λ j e. omega (arith, find_byte-le (z - (i + 1)) b c.buf (i + 1) j e))))
      (Moved-if (b == 10) (ended (omega arith)) (
        Moved-if (b == b' ') (Moved-if (not first) (moved refl refl lt) (moved refl refl lt))
          (Moved-if first (moved refl refl lt) (moved refl refl lt))))

Took-same : (c c' : Client) (o : Outcome) → c'.buf_len ≡ c.buf_len → Took c' o → Took c o
Took-same c c' (d, none) e (shrunk h) = shrunk (omega arith)
Took-same c c' (d, some err) e failed = failed

telnet_next-Took :
    (c : Client) (i : ℕ) (rest : Client → ℕ → ℕ → Bool → Outcome) (r : Round)
    → ((c' : Client) (j s : ℕ) (first : Bool)
        → c'.buf_len ≡ c.buf_len
        → c'.buf_idx ≡ c.buf_idx
        → i < j
        → Took c' (rest c' j s first))
    → Moved c i r
    → Took c (telnet_next rest r)
unfolding telnet_next
telnet_next-Took c i rest (leave c' (some e)) h refused = failed
telnet_next-Took c i rest (leave c' none) h (ended less) = shrunk less
telnet_next-Took c i rest (go_on c' j s first) h (moved same_len same_idx lt) =
    Took-same c c' _ same_len (h c' j s first same_len same_idx lt)

telnet_loop-Took :
    (n : ℕ) (c : Client) (i z s : ℕ) (first : Bool)
    → 0 < c.buf_len
    → c.buf_idx ≤ i
    → Took c (telnet_loop n c i z s first)
unfolding telnet_loop
telnet_loop-Took zero c i z s first some_left le = failed
telnet_loop-Took (suc n) c i z s first some_left le = elim (Bool-cases (ltb i z)) [
  | inr over ↦ rw over failed
  | inl inside ↦ rw inside (
      telnet_next-Took c i (λ c' i' s' first'. telnet_loop n c' i' z s' first')
        (telnet_round c i z s first)
        (λ c' j s' f l x lt. telnet_loop-Took n c' j z s' f (omega arith) (omega arith))
        (telnet_round-Moved c i z s first some_left le (ground arith)))
]

pub client_parse_telnet_command-Took : (c : Client) → Took c (client_parse_telnet_command c)
unfolding client_parse_telnet_command
client_parse_telnet_command-Took c = elim (Bool-cases (leb (c.buf_len + c.buf_idx) c.buf_idx)) [
  | inl empty ↦ rw empty failed
  | inr more ↦
      let some_left : 0 < c.buf_len = ground arith in
      let z = c.buf_len + c.buf_idx in
      rw more (
        Took-same c (record c { args = [] }) _ refl
          (telnet_loop-Took (z - c.buf_idx) (record c { args = [] }) c.buf_idx z c.buf_idx true
            some_left (omega arith)))
]
