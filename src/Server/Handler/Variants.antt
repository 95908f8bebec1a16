-- ===== src/Server/Handler/Variants.antt =====
-- poll_server_buse.cpp and poll_server_busefs.cpp, end_req_q_handler: the copies of the handler.
use nohost_server.Base.{
  length-replicate, ℕ, ◌≡◌, refl, ◌∙◌, List, [], ◌∷◌, ◌++◌, replicate, ◌==◌, Bool-cases, inl, inr,
}
use nohost_server.Client.{Client, Answer}
use nohost_server.Request.{Request, World, free_req}
use nohost_server.Server.Handler.{Handled, zero_block, handle_with, handle_each}
use nohost_server.Server.Handler.Replies.{
  length-zero_block, Replied, answers_with, answers_to, all_left, all_left_with, AllTaken,
  AllTakenWith, handle_each-replies,
}

-- `memset(data,'c',8192);`
abbrev pub c_block : List ℕ
c_block = replicate 8192 b'c'

-- poll_server_buse.cpp
pub handle_buse : List Answer → Client → World → Request → Handled
unfolding handle_with
handle_buse answers c w r = handle_with c_block free_req answers c w r

-- poll_server_busefs.cpp, where both calls of free_req are comments.
pub handle_busefs : List Answer → Client → World → Request → Handled
unfolding handle_with
handle_busefs answers c w r = handle_with zero_block (λ w' r'. w') answers c w r

all_left-same :
    (requests : List (Request × List Answer)) (w : World)
    → all_left_with (λ w' r'. w') w requests ≡ w
all_left-same [] w = refl
all_left-same ((r, answers) ∷ rest) w = elim (Bool-cases (r.kind == 1)) [
  | inl one ↦ all_left-same rest _ ∙ rw one refl
  | inr other ↦ all_left-same rest _ ∙ rw other refl
]

-- The handlers of the two other servers on requests that are done one after the other, if the system
-- takes the output, from a connection with no output on: that of poll_server_buse.cpp replies to
-- each in their order, to a read with a block of 8192 letters `c`, and frees each that is no write;
-- that of poll_server_busefs.cpp sends what that of poll_server.cpp sends, and asks nothing of the
-- libraries: it frees no request.
pub variants-reply :
    (requests : List (Request × List Answer)) (c : Client) (w : World) (sent : List ℕ)
    → c.output_len ≡ 0
    → c.output_offset ≡ 0
    → AllTakenWith c_block requests
    → AllTaken requests
    → Replied c
        (all_left w requests)
        (sent ++ answers_with c_block requests)
        (handle_each handle_buse requests c w sent)
      × Replied c w (sent ++ answers_to requests) (handle_each handle_busefs requests c w sent)
unfolding handle_buse handle_busefs
variants-reply requests c w sent empty start taken_c taken = (
  handle_each-replies c_block (length-replicate {A = ℕ} 8192 b'c') free_req requests c w sent empty
      start taken_c,
  rw (all_left-same requests w) at (
      handle_each-replies zero_block length-zero_block (λ w' r'. w') requests c w sent empty start
        taken),
)
