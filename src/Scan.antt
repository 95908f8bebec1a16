-- ===== src/Scan.antt =====
-- client.cc: what the two parsers of the input buffer share.
use nohost_server.Base.{ℕ, zero, suc, ◌-◌, List, Option, none, some, ◌==◌, if◌then◌else◌, Memory}
use nohost_server.Client.{Client, Error, message}

abbrev pub Outcome : Type 0
Outcome = Client × Option Error

-- `for (; i < z; i++) if (buf[i] == b) …`: where the loop meets `b`; the first argument is `z - i`.
unfoldable pub find_byte : ℕ → ℕ → Memory → ℕ → Option ℕ
find_byte zero b m i = none
find_byte (suc n) b m i = let rest = find_byte n b m (suc i) in if m i == b then some i else rest

-- The command's bytes are taken off the front of the buffer.
unfoldable pub consume : Client → ℕ → Client
consume c i =
    let left = c.buf_len - (i - c.buf_idx) in
    record c { buf_len = left; buf_idx = if left == 0 then 0 else i }

abbrev pub protocol : List ℕ → Option Error
protocol m = some (message m)
