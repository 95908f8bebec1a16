-- ===== src/Server.antt =====
-- poll_server.cpp and multi_server.cpp: what a server does when a connection has data. The answers of
-- recv(2), and those of write(2) to the flush, are arguments; the measuring of time and the messages
-- on the console are left out.
pub mod Reads
pub mod Talk
pub mod Multi
pub mod Handler
pub mod Table
pub mod Poll
pub mod MultiPoll
mod Tests
use nohost_server.Base.{
  ℕ, zero, suc, ◌+◌, ◌-◌, Bool, true, false, ◌&&◌, List, [], ◌∷◌, length, ltb, ◌==◌, if◌then◌else◌,
  blit, view,
}
use nohost_server.Base.Int.{ℤ}
use nohost_server.Client.{
  Client, Answer, Sent, returned, exited, waiting, client_clear, client_flush_offset,
}
use nohost_server.Request.{Library}
use nohost_server.Session.{Session, buf_size}
use nohost_server.Dispatch.{Ended, returned, exited, out_of_fuel, client_exec_commands}

-- `received []` is the answer 0.
pub data Recv : Type 0 where
  received : List ℕ → Recv
  nothing_yet : Recv
  recv_failed : Recv

-- How on_read ends: it returns TRUE or another value, with the bytes that the system took; the
-- process exits, in make_req or in a flush, or a value was copied over what stands behind its block; the flush waits for an answer; `buf_len`, an `int`,
-- becomes -1, which the model has no number for; the model's fuel is used up.
pub data Read : Type 0 where
  answered : Bool → Session → List ℕ → Read
  stopped : List ℕ → Read
  unfinished : List ℕ → Read
  below_zero : Read
  no_fuel : Read

-- `get_buffer(c) - c->buf`
pub get_buffer : Client → ℕ
get_buffer c = c.buf_idx + c.buf_len

-- `recv(c->fd, buffer, …)` of some bytes, and `c->buf_len += nread`.
pub filled : Client → List ℕ → Client
unfolding get_buffer
filled c bytes = record c {
  buf = blit c.buf (get_buffer c) bytes;
  buf_len = c.buf_len + length bytes;
}

-- Where little room is left behind the bytes, they are moved to the front. The regions of the memcpy
-- may overlap, which C leaves undefined; the model copies the bytes that were there.
pub compact : Client → Client
compact c =
    if ltb (buf_size - c.buf_idx - c.buf_len) 100000
    then record c { buf = blit c.buf 0 (view c.buf c.buf_idx c.buf_len); buf_idx = 0 }
    else c

after_send : Bool → Session → Client × Sent → Read
after_send result s (c, returned w) =
    answered result
      (record s { client = record (client_clear c) { time_valid = true; output_valid = false } }) w
after_send result s (c, exited w) = stopped w
after_send result s (c, waiting w) = unfinished w

pub send_output : List Answer → Bool → Session → Read
unfolding after_send
send_output answers result s =
    after_send result s (client_flush_offset answers s.client s.client.output_offset)

-- The part behind client_exec_commands. If the connection is kept there is no `return`: what the
-- caller gets then is the parameter `garbage`.
pub finish_read : List Answer → Bool → Bool → Session → Read
unfolding compact send_output
finish_read answers garbage keep_alive s =
    let s1 : Session = record s { client = compact s.client } in
    let result = if keep_alive then garbage else true in
    if s1.client.output_valid then send_output answers result s1 else answered result s1 []

after_commands : (Bool → Session → Read) → Ended → Read
after_commands finish (returned keep_alive s) = finish keep_alive s
after_commands finish exited = stopped []
after_commands finish out_of_fuel = no_fuel

-- EWOULDBLOCK is not told from data: `nread` is -1.
pub receive : (Client → Read) → Session → Recv → Read
unfolding filled
receive run s recv_failed = answered true s []
receive run s nothing_yet = elim s.client.buf_len [
  | zero ↦ below_zero
  | suc n ↦ run (record (s.client) { buf_len = n })
]
receive run s (received []) = answered true s []
receive run s (received (b ∷ bytes)) = run (filled s.client (b ∷ bytes))

-- on_read of poll_server.cpp. `garbage_len` is what client_read_command finds in a variable that it
-- does not initialise.
pub on_read : Library → ℤ → Bool → List Answer → Recv → Session → Read
unfolding receive after_commands finish_read
on_read l garbage_len garbage answers recv s =
    receive
      (λ c.
        after_commands (finish_read answers garbage)
          (client_exec_commands l garbage_len (record s { client = c })))
      s recv

-- The end of on_read of multi_server.cpp, which sends only when all of the input was used.
pub finish_multi : List Answer → Bool → Bool → Session → Read
unfolding send_output
finish_multi answers garbage keep_alive s =
    let c = s.client in
    let result = if keep_alive then garbage else true in
    if c.output_valid && (c.buf_idx + c.buf_len == 0)
    then send_output answers result s
    else answered result (record s { client = record c { output_valid = false } }) []

pub on_read_multi : Library → ℤ → Bool → List Answer → Recv → Session → Read
unfolding receive after_commands finish_multi
on_read_multi l garbage_len garbage answers recv s =
    receive
      (λ c.
        after_commands (finish_multi answers garbage)
          (client_exec_commands l garbage_len (record s { client = c })))
      s recv
