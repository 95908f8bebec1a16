-- ===== src/Server/Handler/Replies.antt =====
-- poll_server.cpp, end_req_q_handler: what the client gets.
use nohost_server.Base.{
  length-replicate, ℕ, ◌-◌, ◌^◌, ◌<◌, ◌≡◌, refl, ap, sym, ◌∙◌, inl, inr, false, List, [], ◌∷◌, ◌++◌,
  length, length-append, length-view, arith, ◌==◌, append_assoc, append-nil, Bool-cases, view,
}
use nohost_server.Base.Int.{print_nat}
use nohost_server.Client.{
  Client, Answer, client_write, client_write_bulk, client_clear, client_flush_offset,
}
use nohost_server.Client.Output.{
  pending, pending-client_write, pending-client_write_bulk, Undisturbed, Undisturbed-trans,
  write-Undisturbed, bulk-Undisturbed,
}
use nohost_server.Client.Flush.{Takes, client_flush_offset-sends}
use nohost_server.Reader.Lines.{crlf}
use nohost_server.Request.{Request, World, free_req}
use nohost_server.Session.{ok_line}
use nohost_server.Server.Handler.{
  Handled, handled, zero_block, nil_line, after_reply, handle_with, handle, next_request,
  handle_each, handle_all, answer_with, answer_to, left_behind_with, left_behind,
}

pub length-zero_block : length zero_block ≡ 8192
unfolding zero_block
length-zero_block = length-replicate {A = ℕ} 8192 0

pub length-answer_with :
    (block : List ℕ) → length block ≡ 8192 → length (answer_with block 2) ≡ 8201
unfolding print_nat
length-answer_with block size = omega (
  arith,
  size,
  length-append {0} (print_nat 8192 ++ crlf ++ block) crlf,
  length-append {0} (print_nat 8192 ++ crlf) block,
)

pub length-block_answer : length (answer_to 2) ≡ 8201
length-block_answer = length-answer_with zero_block length-zero_block

pending-block :
    (c : Client) (block : List ℕ)
    → length block ≡ 8192
    → pending (client_write_bulk c block 8192)
      ≡ pending c ++ (b'$' ∷ print_nat 8192 ++ crlf ++ block ++ crlf)
pending-block c block size = rw size at (pending-client_write_bulk c block)

-- What a flush sends, if the system takes all.
after_reply-sends :
    (answers : List Answer) (c : Client) (w : World) (out : List ℕ)
    → pending c ≡ out
    → length out < 2 ^ 31
    → Takes answers (length out)
    → after_reply w (client_flush_offset answers c 0)
      ≡ handled (record c { output_len = 0; output_offset = 0 }) w out
unfolding after_reply client_clear
after_reply-sends answers c w out e short taken =
    let size : c.output_len ≡ length out =
      sym (length-view c.output 0 c.output_len) ∙ ap length e in
    let all : c.output_len - 0 ≡ length out = omega (arith, size) in
    let sends =
      client_flush_offset-sends answers c 0 (omega arith) (omega (arith, size, short))
        (rw all taken) in
    let whole : c.output_len - 0 ≡ c.output_len = omega arith in
    ap (after_reply w) sends ∙ rw (whole, e) refl

-- How a request of the connection `c` is handled whose reply is `out`.
pub record Replied (c : Client) (w : World) (out : List ℕ) (h : Handled) : Type 0 where
  pub after : Client
  pub ended : h ≡ handled after w out
  pub sent_all : after.output_len ≡ 0
  pub from_start : after.output_offset ≡ 0
  pub undisturbed : Undisturbed c after

replied :
    (answers : List Answer) (c d : Client) (w : World) (out : List ℕ)
    → Undisturbed c d
    → pending d ≡ out
    → length out < 2 ^ 31
    → Takes answers (length out)
    → Replied c w out (after_reply w (client_flush_offset answers d 0))
replied answers c d w out kept e short taken = record {
  after = record d { output_len = 0; output_offset = 0 };
  ended = after_reply-sends answers d w out e short taken;
  sent_all = refl;
  from_start = refl;
  undisturbed = record {
    buf = kept.buf;
    buf_len = kept.buf_len;
    buf_idx = kept.buf_idx;
    marked = kept.marked;
    fd = kept.fd;
  };
}

-- If the system takes the output, the handler of a request that is done sends what waited on the
-- connection, and behind it the reply to its kind; it empties the output, leaves the input and the
-- descriptor of the connection as they are, and lets a request go that is no write.
pub handle_with-replies :
    (block : List ℕ) (free : World → Request → World) (answers : List Answer) (c : Client)
    → (w : World) (r : Request) → length block ≡ 8192
    → length (pending c ++ answer_with block r.kind) < 2 ^ 31
    → Takes answers (length (pending c ++ answer_with block r.kind))
    → Replied c
        (left_behind_with free w r)
        (pending c ++ answer_with block r.kind)
        (handle_with block free answers c w r)
unfolding handle_with
handle_with-replies block free answers c w r size short taken = elim (Bool-cases (r.kind == 2)) [
  | inl two ↦
      let not_one : (r.kind == 1) ≡ false = ground arith in
      rw (two, not_one)
        (replied answers c (client_write_bulk c block 8192) (free w r) _
          (bulk-Undisturbed c block 8192) (pending-block c block size) (rw two at short)
          (rw two at taken))
  | inr not_two ↦ elim (Bool-cases (r.kind == 1)) [
    | inl one ↦
        rw (not_two, one)
          (replied answers c (client_write c ok_line 5) w _ (write-Undisturbed c ok_line 5)
            (pending-client_write c ok_line) (rw (not_two, one) at short)
            (rw (not_two, one) at taken))
    | inr other ↦
        rw (not_two, other)
          (replied answers c (client_write c nil_line 5) (free w r) _
            (write-Undisturbed c nil_line 5) (pending-client_write c nil_line)
            (rw (not_two, other) at short) (rw (not_two, other) at taken))
  ]
]

-- On poll_server.cpp: a block of 8192 zeros for a read, `+OK` for a write and `$-1` for all else,
-- whatever the block of the request holds; a request that is no write is freed.
pub handle-replies :
    (answers : List Answer) (c : Client) (w : World) (r : Request)
    → length (pending c ++ answer_to r.kind) < 2 ^ 31
    → Takes answers (length (pending c ++ answer_to r.kind))
    → Replied c (left_behind w r) (pending c ++ answer_to r.kind) (handle answers c w r)
unfolding handle
handle-replies answers c w r short taken =
    handle_with-replies zero_block free_req answers c w r length-zero_block short taken

-- The replies to some requests, and the state behind them.
abbrev pub answers_with : List ℕ → List (Request × List Answer) → List ℕ
answers_with block [] = []
answers_with block ((r, answers) ∷ rest) = answer_with block r.kind ++ answers_with block rest

abbrev pub answers_to : List (Request × List Answer) → List ℕ
answers_to requests = answers_with zero_block requests

abbrev pub all_left_with : (World → Request → World) → World → List (Request × List Answer) → World
all_left_with free w [] = w
all_left_with free w ((r, answers) ∷ rest) = all_left_with free (left_behind_with free w r) rest

abbrev pub all_left : World → List (Request × List Answer) → World
all_left w requests = all_left_with free_req w requests

-- The system takes each reply.
abbrev pub AllTakenWith : List ℕ → List (Request × List Answer) → Type 0
AllTakenWith block [] = Unit
AllTakenWith block ((r, answers) ∷ rest) =
    (length (answer_with block r.kind) < 2 ^ 31)
    × Takes answers (length (answer_with block r.kind))
    × AllTakenWith block rest

abbrev pub AllTaken : List (Request × List Answer) → Type 0
AllTaken requests = AllTakenWith zero_block requests

pending-none : (c : Client) → c.output_len ≡ 0 → pending c ≡ []
unfolding view
pending-none c e = rw e refl

module _ (block : List ℕ) (size : length block ≡ 8192) (free : World → Request → World) where
  abbrev pub body : List Answer → Client → World → Request → Handled
  body answers c w r = handle_with block free answers c w r

  -- The handler on requests that are done one after the other, if the system takes the output: from a
  -- connection with no output on, the client gets the reply to each of them, in their order and
  -- whole, and each that is no write is let go.
  pub handle_each-replies :
      (requests : List (Request × List Answer)) (c : Client) (w : World) (sent : List ℕ)
      → c.output_len ≡ 0
      → c.output_offset ≡ 0
      → AllTakenWith block requests
      → Replied c
          (all_left_with free w requests)
          (sent ++ answers_with block requests)
          (handle_each body requests c w sent)
  unfolding handle_each next_request
  handle_each-replies [] c w sent empty start taken = record {
    after = c;
    ended = rw append-nil refl;
    sent_all = empty;
    from_start = start;
    undisturbed = record { buf = refl; buf_len = refl; buf_idx = refl; marked = refl; fd = refl };
  }
  handle_each-replies ((r, answers) ∷ rest) c w sent empty start (short, takes, taken) =
      let no_output = pending-none c empty in
      let one =
        handle_with-replies block free answers c w r size (rw no_output short)
          (rw no_output takes) in
      let w' = left_behind_with free w r in
      let reply = answer_with block r.kind in
      let more =
        handle_each-replies rest one.after w' (sent ++ reply) one.sent_all one.from_start taken in
      record {
        after = more.after;
        ended =
            ap (next_request (handle_each body rest) sent) one.ended
            ∙ ap (λ t. handle_each body rest one.after w' (sent ++ (t ++ reply))) no_output
            ∙ more.ended
            ∙ ap (handled more.after (all_left_with free w' rest))
                (append_assoc sent reply (answers_with block rest));
        sent_all = more.sent_all;
        from_start = more.from_start;
        undisturbed = Undisturbed-trans c one.after more.after one.undisturbed more.undisturbed;
      }

-- The handler on requests that are done one after the other, if the system takes the output: from a
-- connection with no output on, the client gets the reply to each of them, in their order and whole,
-- and each that is no write is freed.
pub handle_all-replies :
    (requests : List (Request × List Answer)) (c : Client) (w : World) (sent : List ℕ)
    → c.output_len ≡ 0
    → c.output_offset ≡ 0
    → AllTaken requests
    → Replied c (all_left w requests) (sent ++ answers_to requests) (handle_all requests c w sent)
unfolding handle_all handle
handle_all-replies requests c w sent empty start taken =
    handle_each-replies zero_block length-zero_block free_req requests c w sent empty start taken
