-- ===== src/Reader.antt =====
-- client.cc: client_read_command and client_parse_telnet_command, which cut the next command out of
-- the input buffer. The `buf[i-1] = 0; atoi(buf+s); buf[i-1] = '\r'` of the source leaves the buffer
-- as it was, and hands atoi the bytes from `s` to `i - 1`.
pub mod Progress
pub mod Lines
pub mod Stands
pub mod RoundTrip
pub mod Split
mod Tests
use nohost_server.Base.{
  ℕ, zero, suc, ◌+◌, ◌-◌, Bool, true, false, not, ◌&&◌, ◌||◌, List, [], ◌∷◌, ◌++◌, Option, none,
  some, ltb, leb, ◌==◌, if◌then◌else◌, codes, Memory, view,
}
use nohost_server.Base.Int.{ℤ, pos, negsuc, atoi}
use nohost_server.Scan.{Outcome, find_byte, consume, protocol}
use nohost_server.Telnet.{client_parse_telnet_command}
use nohost_server.Client.{
  Client, Error, incomplete, message, literal, at, client_append_arg, client_err_expected_got,
}

abbrev pub bad_multibulk_length : Option Error
bad_multibulk_length = protocol (codes "Protocol error: invalid multibulk length")

abbrev pub bad_bulk_length : Option Error
bad_bulk_length = protocol (codes "Protocol error: invalid bulk length")

abbrev pub bad_bulk_data : Option Error
bad_bulk_data = protocol (codes "Protocol error: invalid bulk data")

abbrev pub not_positive : ℤ → Bool
not_positive (pos zero) = true
not_positive (pos (suc n)) = false
not_positive (negsuc n) = true

abbrev pub is_negative : ℤ → Bool
is_negative (pos n) = false
is_negative (negsuc n) = true

-- How many rounds `for (j = 0; j < n; j++)` makes.
abbrev pub rounds : ℤ → ℕ
rounds (pos n) = n
rounds (negsuc n) = 0

-- What the body of the bulk loop does: go on at an index, or return.
pub data Round : Type 0 where
  go_on : Client → Bool → ℕ → Round
  leave : Client → Option Error → Round

-- The bytes after the length line, which ends before `i`.
bulk_data : Client → Bool → ℕ → ℕ → ℕ → Round
bulk_data c bulk_flag i z nsiz =
    if ltb (z - i) (nsiz + 2)
    then leave c (some incomplete)
    else if not (c.buf (i + nsiz) == 13)
    then leave c bad_bulk_data
    else if not (c.buf (i + nsiz + 1) == 10)
    then leave c bad_bulk_data
    else let c1 = if bulk_flag then client_append_arg c (literal (codes "BULK")) 4 else c in
      go_on (client_append_arg c1 (at i) nsiz) false (i + nsiz + 2)

-- The length line from `s`, whose line feed is at `i`; the second argument is what atoi reads.
bulk_size : Client → ℤ → Bool → ℕ → ℕ → ℕ → Round
bulk_size c (negsuc zero) bulk_flag s i z =
    go_on (client_append_arg c (literal (codes "NOT")) 3) false (i + 1)
bulk_size c (negsuc (suc n)) bulk_flag s i z = leave c bad_bulk_length
bulk_size c (pos zero) bulk_flag s i z =
    if not (i - s == 2) then leave c bad_bulk_length else bulk_data c bulk_flag (i + 1) z 0
bulk_size c (pos (suc n)) bulk_flag s i z = bulk_data c bulk_flag (i + 1) z (suc n)

-- Where the inner loop meets no line feed it ends at `z`, and the outer loop goes on.
bulk_line : Client → Bool → ℕ → ℕ → Option ℕ → Round
bulk_line c bulk_flag s z none = go_on c bulk_flag z
bulk_line c bulk_flag s z (some i) =
    if not (c.buf (i - 1) == 13)
    then leave c bad_bulk_length
    else bulk_size c (atoi (view c.buf s (i - 1 - s))) bulk_flag s i z

expected_dollar : Client × Error → Round
expected_dollar (c, e) = leave c (some e)

pub bulk_round : Client → Bool → ℕ → ℕ → Round
bulk_round c bulk_flag i z =
    if leb z i
    then leave c (some incomplete)
    else if not (c.buf i == b'$')
    then expected_dollar (client_err_expected_got c b'$' (c.buf i))
    else bulk_line c bulk_flag (i + 1) z (find_byte (z - (i + 1)) 10 c.buf (i + 1))

bulk_next : (Client → Bool → ℕ → Outcome) → Round → Outcome
bulk_next rest (leave c e) = (c, e)
bulk_next rest (go_on c bulk_flag i) = rest c bulk_flag i

-- The loop over the bulk strings that are left, and the end of client_read_command.
pub bulk_loop : ℕ → Client → Bool → ℕ → ℕ → Outcome
bulk_loop zero c bulk_flag i z = (consume c i, none)
bulk_loop (suc n) c bulk_flag i z =
    bulk_next (λ c' flag i'. bulk_loop n c' flag i' z) (bulk_round c bulk_flag i z)

-- `if (i >= z) return ERR_INCOMPLETE;` and the loop.
read_bulks : Client → ℤ → Bool → ℕ → ℕ → Outcome
read_bulks c args_len bulk_flag i z =
    if leb z i then (c, some incomplete) else bulk_loop (rounds args_len) c bulk_flag i z

-- The first byte is `*`: the number of arguments, in the line from `s`.
array_size : Client → ℤ → ℕ → ℕ → ℕ → Outcome
array_size c args_len s i z =
    if not_positive args_len && (is_negative args_len || not (i - s == 2))
    then (c, bad_multibulk_length)
    else read_bulks c args_len false (i + 1) z

array_line : Client → ℕ → ℕ → Option ℕ → Outcome
array_line c s z none = (c, some incomplete)
array_line c s z (some i) =
    if not (c.buf (i - 1) == 13)
    then (c, bad_multibulk_length)
    else array_size c (atoi (view c.buf s (i - 1 - s))) s i z

-- `strncmp(&buf[i], text, 4) == 0` for a text of four characters.
stands_at : Memory → ℕ → List ℕ → Bool
stands_at m i [] = true
stands_at m i (b ∷ bs) = m i == b && stands_at m (suc i) bs

-- The first byte is `+`. If no reply that is known follows, the source goes on with `args_len`
-- uninitialised: its value is the parameter `garbage`.
read_plus : ℤ → Client → ℕ → ℕ → Outcome
read_plus garbage c i z =
    if leb z i
    then (c, some incomplete)
    else if ltb c.buf_len 5
    then (c, some incomplete)
    else if stands_at c.buf i (codes "OK" ++ 13 ∷ 10 ∷ [])
    then (consume (client_append_arg c (literal (codes "OK")) 2) (i + 4), none)
    else if stands_at c.buf i (codes "KO" ++ 13 ∷ 10 ∷ [])
    then (consume (client_append_arg c (literal (codes "KO")) 2) (i + 4), none)
    else read_bulks c garbage false i z

pub client_read_command : ℤ → Client → Outcome
unfolding read_plus array_line array_size read_bulks bulk_loop bulk_next bulk_round expected_dollar
    bulk_line bulk_size bulk_data stands_at
client_read_command garbage c0 =
    let c = record c0 { args = [] } in
    let i = c.buf_idx in
    let z = c.buf_idx + c.buf_len in
    let b = c.buf i in
    if leb z i
    then (c, some incomplete)
    else if not (b == b'*') && (not (b == b'$') && not (b == b'+'))
    then client_parse_telnet_command c
    else if b == b'$'
    then read_bulks c (pos 1) true i z
    else if b == b'+'
    then read_plus garbage c (i + 1) z
    else array_line c (i + 1) z (find_byte (z - (i + 1)) 10 c.buf (i + 1))
