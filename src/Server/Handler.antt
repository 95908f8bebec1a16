-- ===== src/Server/Handler.antt =====
-- poll_server.cpp, end_req_q_handler: the replies to requests that the store has done.
pub mod Replies
pub mod Variants
use nohost_server.Base.{
  ℕ, ◌-◌, ◌^◌, ◌<◌, ◌≡◌, refl, ap, sym, ◌∙◌, inl, inr, false, List, [], ◌∷◌, ◌++◌, codes, length,
  length-append, length-view, replicate, zero, suc, arith, ◌==◌, if◌then◌else◌, append_assoc,
  append-nil, Bool-cases, view,
}
use nohost_server.Base.Int.{print_nat}
use nohost_server.Client.{
  Client, Answer, Sent, returned, exited, waiting, client_write, client_write_bulk, client_clear,
  client_flush_offset,
}
use nohost_server.Client.Output.{
  pending, pending-client_write, pending-client_write_bulk, Undisturbed, Undisturbed-trans,
  write-Undisturbed, bulk-Undisturbed,
}
use nohost_server.Client.Flush.{Takes, client_flush_offset-sends}
use nohost_server.Reader.Lines.{crlf}
use nohost_server.Request.{Request, World, free_req}
use nohost_server.Session.{ok_line}

-- The connection and the global state after a request, and the bytes that the system took; or the
-- process exits in the flush, or the flush waits for an answer.
pub data Handled : Type 0 where
  handled : Client → World → List ℕ → Handled
  exits : List ℕ → Handled
  waits : List ℕ → Handled

-- `char data[8192] = {0,};`
pub zero_block : List ℕ
zero_block = replicate 8192 0

abbrev pub nil_line : List ℕ
nil_line = codes "$-1" ++ 13 ∷ 10 ∷ []

after_reply : World → Client × Sent → Handled
after_reply w (c, returned sent) = handled (client_clear c) w sent
after_reply w (c, exited sent) = exits sent
after_reply w (c, waiting sent) = waits sent

-- The body of the loop, for a request of the connection `c`, with the block that is sent for a read
-- and what is done with a request behind its reply. A write is not freed.
unfoldable pub handle_with :
    List ℕ → (World → Request → World) → List Answer → Client → World → Request → Handled
unfolding after_reply
handle_with block free answers c w r =
    if r.kind == 2
    then after_reply (free w r) (client_flush_offset answers (client_write_bulk c block 8192) 0)
    else if r.kind == 1
    then after_reply w (client_flush_offset answers (client_write c ok_line 5) 0)
    else after_reply (free w r) (client_flush_offset answers (client_write c nil_line 5) 0)

-- poll_server.cpp. What the store read, `r.value`, is not sent: the line that would is a comment.
unfoldable pub handle : List Answer → Client → World → Request → Handled
unfolding handle_with
handle answers c w r = handle_with zero_block free_req answers c w r

next_request : (Client → World → List ℕ → Handled) → List ℕ → Handled → Handled
next_request again sent (handled c w bytes) = again c w (sent ++ bytes)
next_request again sent (exits bytes) = exits (sent ++ bytes)
next_request again sent (waits bytes) = waits (sent ++ bytes)

-- The loop, on the requests that it takes off its queue, each with the answers to its flush, for a
-- body of the loop.
unfoldable pub handle_each :
    (List Answer → Client → World → Request → Handled)
    → List (Request × List Answer)
    → Client
    → World
    → List ℕ
    → Handled
unfolding next_request
handle_each body [] c w sent = handled c w sent
handle_each body ((r, answers) ∷ rest) c w sent =
    next_request (λ c' w' sent'. handle_each body rest c' w' sent') sent (body answers c w r)

pub handle_all : List (Request × List Answer) → Client → World → List ℕ → Handled
unfolding handle_each handle
handle_all requests c w sent = handle_each handle requests c w sent

-- What a client sees for a request of a kind: the block, `+OK`, or no value.
abbrev pub answer_with : List ℕ → ℕ → List ℕ
answer_with block kind =
    if kind == 2
    then b'$' ∷ print_nat 8192 ++ crlf ++ block ++ crlf
    else if kind == 1
    then ok_line
    else nil_line

abbrev pub answer_to : ℕ → List ℕ
answer_to kind = answer_with zero_block kind

abbrev pub left_behind_with : (World → Request → World) → World → Request → World
left_behind_with free w r = if r.kind == 1 then w else free w r

abbrev pub left_behind : World → Request → World
left_behind w r = left_behind_with free_req w r
