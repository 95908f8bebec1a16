-- ===== src/Command/Halves.antt =====
-- GetValue on a value that comes in one packet, and on the same value cut into two.
use nohost_server.Base.{ℕ, List, Memory, blit, add32, length}
use nohost_server.Command.{Req}

-- The request with some bytes more of its value.
abbrev pub with_bytes : Req → List ℕ → Req
with_bytes r bytes = record r {
  value_info = record (r.value_info) { offset = add32 r.value_info.offset (length bytes) };
  value = blit r.value (r.value_info.offset) bytes;
}

abbrev pub complete : Req → Req
complete r = record r { value_info = record (r.value_info) { valid = add32 r.value_info.valid 1 } }

-- A completed value, by its end and its bytes.
value_done : Req → ℕ → Memory → Req
value_done r offset value = record r {
  value_info = record (r.value_info) { offset = offset; valid = add32 r.value_info.valid 1 };
  value = value;
}
