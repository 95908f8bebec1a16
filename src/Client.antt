-- ===== src/Client.antt =====
-- client.cc: a connection's state, what is put in its output buffer and how that is sent.
-- `buf` and `output` are memories addressed from the start of the array; the arrays have BUFSIZE
-- and OUTPUT_BUFSIZE bytes, which no function here checks (the body of client_output_require is a
-- comment). Allocation does not fail in the model. A field that no code reads is left out.
pub mod Output
pub mod Flush
mod Tests
use Prim.Native.String.{String}
use nohost_server.Base.{
  ℕ, zero, suc, ◌+◌, ◌-◌, ◌*◌, ◌^◌, Bool, true, false, List, [], ◌∷◌, ◌++◌, Option, none, some, ltb,
  leb, ◌==◌, if◌then◌else◌, length, take, codes, Memory, store, blit, view, add32, sub32, add64,
}
use nohost_server.Base.Int.{ℤ, pos, print_nat, print_int}

-- Where an argument's bytes are: a literal of the program, or an offset in the input buffer.
pub data Pointer : Type 0 where
  literal : List ℕ → Pointer
  at : ℕ → Pointer

-- An entry of `args` with its entry of `args_size`.
pub record Arg : Type 0 where
  pub pointer : Pointer
  pub size : ℕ

-- `error`: ERR_INCOMPLETE and ERR_QUIT are told by their addresses, all else is text.
pub data Error : Type 0 where
  incomplete : Error
  quit : Error
  message : List ℕ → Error

-- The first `args_len` entries of the arrays are the list `args`.
pub record Client : Type 0 where
  pub buf : Memory
  pub buf_len : ℕ
  pub buf_idx : ℕ
  pub args : List Arg
  pub args_cap : ℕ
  pub tmp_err : List ℕ
  pub output : Memory
  pub output_len : ℕ
  pub output_offset : ℕ
  pub output_valid : Bool
  pub current_items : ℕ
  pub fd : ℕ
  pub time_valid : Bool
  pub which_queue : ℕ

-- calloc zeroes the fields; what malloc leaves in the buffers is a parameter.
unfoldable pub client_new : Memory → Memory → Client
client_new buf output = record {
  buf = buf;
  buf_len = 0;
  buf_idx = 0;
  args = [];
  args_cap = 0;
  tmp_err = [];
  output = output;
  output_len = 0;
  output_offset = 0;
  output_valid = false;
  current_items = 0;
  fd = 0;
  time_valid = false;
  which_queue = 0;
}

-- client_write_data is the same function under a second name.
unfoldable pub client_write : Client → List ℕ → ℕ → Client
client_write c bytes n = record c {
  output = blit c.output c.output_len (take n bytes);
  output_len = c.output_len + n;
}

unfoldable pub client_clear : Client → Client
client_clear c = record c { output_len = 0; output_offset = 0 }

unfoldable pub client_write_byte : Client → ℕ → Client
client_write_byte c b = record c {
  output = store c.output c.output_len b;
  output_len = c.output_len + 1;
}

abbrev line_end : List ℕ
line_end = 13 ∷ 10 ∷ []

-- sprintf of a `%d` between a first character and the line's end, then client_write of it.
write_header : Client → ℕ → List ℕ → Client
unfolding client_write
write_header c first digits = let h = first ∷ digits ++ line_end in client_write c h (length h)

unfoldable pub client_write_bulk : Client → List ℕ → ℕ → Client
unfolding write_header client_write client_write_byte
client_write_bulk c bytes n =
    client_write_byte
      (client_write_byte (client_write (write_header c b'$' (print_nat n)) bytes n) 13) 10

unfoldable pub client_write_multibulk : Client → ℤ → Client
unfolding write_header
client_write_multibulk c n = write_header c b'*' (print_int n)

unfoldable pub client_write_int : Client → ℤ → Client
unfolding write_header
client_write_int c n = write_header c b':' (print_int n)

-- The text of an error, for strlen: the two that are told by address have texts too.
abbrev pub text : Error → List ℕ
text incomplete = codes "incomplete"
text quit = codes "quit"
text (message m) = m

-- What strlen and strncat see of a text: they stop at a NUL.
unfoldable pub up_to_nul : List ℕ → List ℕ
up_to_nul [] = []
up_to_nul (b ∷ bs) = if b == 0 then [] else b ∷ up_to_nul bs

unfoldable pub client_write_error : Client → Error → Client
unfolding client_write client_write_byte up_to_nul
client_write_error c err =
    let c1 = client_write c (codes "-ERR ") 5 in
    let shown = up_to_nul (text err) in
    let c2 = client_write c1 shown (length shown) in client_write_byte (client_write_byte c2 13) 10

-- The answers of the system to write(2): bytes taken, EWOULDBLOCK, or another error.
pub data Answer : Type 0 where
  wrote : ℕ → Answer
  would_block : Answer
  failed : Answer

-- How a flush ends: it returns, the process exits, or it still waits for an answer; with the bytes
-- that the system took.
pub data Sent : Type 0 where
  returned : List ℕ → Sent
  exited : List ℕ → Sent
  waiting : List ℕ → Sent

-- The loop. A `ret` of -1 is added to the unsigned `sent` and to the `int` offset.
flush_loop : List Answer → Memory → ℕ → ℕ → ℕ → ℕ → List ℕ → Sent
flush_loop [] output len offset sent size wire =
    if ltb sent size then waiting wire else returned wire
flush_loop (wrote ret ∷ rest) output len offset sent size wire =
    let more =
      flush_loop rest output len (add32 offset ret) (add64 sent ret) size
        (wire ++ view output offset ret) in
    if ltb sent size then more else returned wire
flush_loop (would_block ∷ rest) output len offset sent size wire =
    let more =
      flush_loop rest output len (add32 offset (2 ^ 32 - 1)) (add64 sent (2 ^ 64 - 1)) size wire in
    if ltb sent size then more else returned wire
flush_loop (failed ∷ rest) output len offset sent size wire =
    if ltb sent size then exited wire else returned wire

-- `c->output_len = 0`, if the loop is left.
after_flush : Sent → Client → Client × Sent
after_flush (returned w) c = (record c { output_len = 0 }, returned w)
after_flush (exited w) c = (c, exited w)
after_flush (waiting w) c = (c, waiting w)

-- The client after the call, and what was sent.
unfoldable pub client_flush_offset : List Answer → Client → ℕ → Client × Sent
unfolding flush_loop after_flush
client_flush_offset answers c offset =
    if leb c.output_len offset
    then (c, returned [])
    else after_flush (flush_loop answers c.output c.output_len offset 0 (c.output_len - offset) [])
        c

unfoldable pub client_flush : List Answer → Client → Client × Sent
unfolding client_flush_offset
client_flush answers c = client_flush_offset answers c 0

-- The formatted text takes the place of what `tmp_err` held.
unfoldable pub client_err_expected_got : Client → ℕ → ℕ → Client × Error
client_err_expected_got c c1 c2 =
    let m = codes "Protocol error: expected '" ++ c1 ∷ codes "', got '" ++ c2 ∷ codes "'" in
    (record c { tmp_err = m }, message m)

unfoldable pub client_err_unknown_command : Client → List ℕ → ℕ → Client × Error
unfolding up_to_nul
client_err_unknown_command c name count =
    let m = codes "unknown command '" ++ (up_to_nul (take count name) ++ codes "'") in
    (record c { tmp_err = m }, message m)

unfoldable pub client_append_arg : Client → Pointer → ℕ → Client
client_append_arg c pointer nbyte = record c {
  args = c.args ++ (record { pointer = pointer; size = nbyte } ∷ []);
  args_cap =
      if c.args_cap == length c.args
      then (if c.args_cap == 0 then 1 else c.args_cap * 2)
      else c.args_cap;
}

-- The bytes of an argument, as the commands read them.
unfoldable pub arg_bytes : Memory → Arg → List ℕ
arg_bytes buf a = elim a.pointer [ literal bytes ↦ take a.size bytes | at p ↦ view buf p a.size ]

unfoldable pub arg_texts : Memory → List Arg → List (List ℕ)
unfolding arg_bytes
arg_texts buf [] = []
arg_texts buf (a ∷ args) = arg_bytes buf a ∷ arg_texts buf args
