-- ===== src/Command/Send.antt =====
-- command.c, the functions that send replies. The answers of write(2) and sendto(2) are arguments. The
-- arrays on the stack hold what they hold at first, a parameter. Numbers that are printed are not
-- negative here.
pub mod Bulk
pub mod Fields
mod Tests
use nohost_server.Base.{
  ℕ, zero, suc, ◌+◌, ◌^◌, ◌≤◌, ◌<◌, ◌≡◌, refl, ap, sym, ◌∙◌, Bool, true, false, List, [], ◌∷◌, ◌++◌,
  Option, none, some, take, length, length-append, codes, ltb, if◌then◌else◌, Memory, blit, view,
  view-blit, view-blit_end, view-add, view-agree, blit_below, append_assoc, arith,
}
use nohost_server.Base.Int.{pos, atoi, print_nat}
use nohost_server.Base.Int.Padded.{padded, length-padded, atoi-padded}

-- What a function returns, 0 (`ok`) or -1, the bytes that the system took, and whether `send_ok` was
-- called, which ENABLE_LIBFTL compiles in.
pub record Sending : Type 0 where
  pub ok : Bool
  pub sent : List ℕ
  pub told : Bool

-- A write in which the system takes the number of bytes given, or which returns -1. A write that
-- takes fewer bytes than it was given counts as one that took all.
then_write : Option ℕ → List ℕ → Sending → Sending
then_write none text s = record s { ok = false }
then_write (some n) text s = if s.ok then record s { sent = s.sent ++ take n text } else s

abbrev nothing_sent : Sending
nothing_sent = record { ok = true; sent = []; told = false }

pub master_send_ok : Option ℕ → Sending
master_send_ok answer = elim answer [
  | none ↦ record { ok = false; sent = []; told = false }
  | some n ↦ record { ok = true; sent = take n (codes "+OK" ++ 13 ∷ 10 ∷ []); told = true }
]

-- strlen of the message is its length.
pub send_err_command : Option ℕ → Option ℕ → Option ℕ → List ℕ → Sending
unfolding then_write
send_err_command a b c err_msg =
    then_write c (13 ∷ (10 ∷ [])) (then_write b err_msg (then_write a (codes "-ERR ") nothing_sent))

pub send_del_command : Option ℕ → Sending
unfolding then_write
send_del_command answer = then_write answer (codes ":1" ++ 13 ∷ 10 ∷ []) nothing_sent

-- What is written into an array: offsets and bytes. sprintf writes a NUL behind its text.
abbrev pub Writes : Type 0
Writes = List (ℕ × List ℕ)

abbrev pub written : Memory → Writes → Memory
written m [] = m
written m ((p, bytes) ∷ rest) = written (blit m p bytes) rest

-- How much of the array the writes need.
abbrev pub extent : Writes → ℕ
extent [] = 0
extent ((p, bytes) ∷ rest) =
    let more = extent rest in if ltb more (p + length bytes) then p + length bytes else more

-- `header` of master_SendBulkValue, an array of 8201 bytes; `value` are the 8192 bytes that are
-- copied, whatever `len` is.
pub bulk_writes : List ℕ → Writes
bulk_writes value =
    (0, (b'$' ∷ print_nat 8192 ++ (13 ∷ (10 ∷ []))) ++ 0 ∷ [])
    ∷ ((7, value) ∷ ((8199, 13 ∷ (10 ∷ (0 ∷ []))) ∷ []))

pub master_send_bulk_value : Option ℕ → Memory → List ℕ → Sending
unfolding then_write bulk_writes
master_send_bulk_value answer header value =
    then_write answer (view (written header (bulk_writes value)) 0 8201) nothing_sent

-- sendto takes a datagram whole or fails.
send_datagram : Bool → List ℕ → Sending
send_datagram true bytes = record { ok = true; sent = bytes; told = false }
send_datagram false bytes = record { ok = false; sent = []; told = false }

-- `buf` of udp_SendOkCommand, an array of 6 bytes.
pub ok_writes : ℕ → ℕ → Writes
ok_writes target_fd kind = (0, (padded 4 target_fd ++ padded 2 kind) ++ 0 ∷ []) ∷ []

pub udp_send_ok_command : Bool → Memory → ℕ → ℕ → Sending
unfolding send_datagram ok_writes
udp_send_ok_command answer buf target_fd kind =
    send_datagram answer (view (written buf (ok_writes target_fd kind)) 0 6)

-- `header` of udp_SendBulkValue, an array of 8202 bytes; its sprintf stands there twice.
pub udp_bulk_writes : ℕ → ℕ → List ℕ → Writes
udp_bulk_writes target_fd kind value =
    let text = ((padded 4 target_fd ++ padded 2 kind) ++ padded 4 8192) ++ 0 ∷ [] in
    (0, text) ∷ ((0, text) ∷ ((10, value) ∷ []))

pub udp_send_bulk_value : Bool → Memory → ℕ → ℕ → List ℕ → Sending
unfolding send_datagram udp_bulk_writes
udp_send_bulk_value answer header target_fd kind value =
    send_datagram answer (view (written header (udp_bulk_writes target_fd kind value)) 0 8202)
