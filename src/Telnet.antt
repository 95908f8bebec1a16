-- ===== src/Telnet.antt =====
-- client.cc: client_parse_telnet_command, for a command on a line of its own.
pub mod Progress
use nohost_server.Base.{
  ℕ, zero, suc, ◌+◌, ◌-◌, Bool, true, false, not, ◌&&◌, ◌||◌, List, [], Option, none, some, leb,
  ltb, ◌==◌, if◌then◌else◌, codes,
}
use nohost_server.Client.{Client, Error, incomplete, at, client_append_arg}
use nohost_server.Scan.{Outcome, find_byte, consume, protocol}

abbrev pub unbalanced : Option Error
unbalanced = protocol (codes "Protocol error: unbalanced quotes in request")

-- What the body of the outer loop does: go on at an index with `s` and `first`, or return.
pub data Round : Type 0 where
  go_on : Client → ℕ → ℕ → Bool → Round
  leave : Client → Option Error → Round

-- A quoted argument from `s`, whose closing quote is at `i`: `none` if the inner loop met none.
-- After `i--`, `i++` and the outer `i++` the loop is behind the quote; at the end it is behind `z`.
quoted : Client → ℕ → ℕ → Bool → Option ℕ → Round
quoted c s z first none = go_on c (z + 2) s first
quoted c s z first (some i) =
    if leb z (i + 1) || (c.buf (i + 1) == b' ' || (c.buf (i + 1) == 13 || c.buf (i + 1) == 10))
    then go_on (client_append_arg c (at s) (i - s)) (i + 1) s first
    else leave c unbalanced

-- The line ends at `i`.
line : Client → ℕ → ℕ → Bool → Client
line c i s first =
    let e = if ltb s i && c.buf (i - 1) == 13 then i - 1 else i in
    if not first then client_append_arg c (at s) (e - s) else c

telnet_round : Client → ℕ → ℕ → ℕ → Bool → Round
telnet_round c i z s first =
    let b = c.buf i in
    if b == 39 || b == 34
    then if not first
      then leave c unbalanced
      else quoted c (i + 1) z first (find_byte (z - (i + 1)) b c.buf (i + 1))
    else if b == 10
    then leave (consume (line c i s first) (i + 1)) none
    else if b == b' '
    then if not first
      then go_on (client_append_arg c (at s) (i - s)) (i + 1) s true
      else go_on c (i + 1) s first
    else if first
    then go_on c (i + 1) i false
    else go_on c (i + 1) s first

telnet_next : (Client → ℕ → ℕ → Bool → Outcome) → Round → Outcome
telnet_next rest (leave c e) = (c, e)
telnet_next rest (go_on c i s first) = rest c i s first

-- Each round moves on, so `z - i` rounds lead to `z`.
telnet_loop : ℕ → Client → ℕ → ℕ → ℕ → Bool → Outcome
telnet_loop zero c i z s first = (c, some incomplete)
telnet_loop (suc n) c i z s first =
    let round =
      telnet_next (λ c' i' s' first'. telnet_loop n c' i' z s' first')
        (telnet_round c i z s first) in
    if ltb i z then round else (c, some incomplete)

pub client_parse_telnet_command : Client → Outcome
unfolding telnet_loop telnet_next telnet_round line quoted
client_parse_telnet_command c =
    let i = c.buf_idx in
    let z = c.buf_len + c.buf_idx in
    if leb z i
    then (c, some incomplete)
    else telnet_loop (z - i) (record c { args = [] }) i z i true
