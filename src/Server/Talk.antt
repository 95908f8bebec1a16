-- ===== src/Server/Talk.antt =====
-- poll_server.cpp: the calls of on_read that polling_worker makes for one connection, as long as the
-- client sends its commands in pieces that hold whole commands.
use nohost_server.Base.{
  ◌≡◌, refl, ap, sym, ◌∙◌, true, false, List, [], ◌∷◌, ◌++◌, ℕ, append_assoc, append-nil,
}
use nohost_server.Base.Int.{ℤ}
use nohost_server.Client.{Answer}
use nohost_server.Request.{Library, World}
use nohost_server.Session.{Session}
use nohost_server.Exec.Replies.{TakesAll}
use nohost_server.Dispatch.Pipeline.{Cmd, wire, serve, replies, reply_to, serve_one}
use nohost_server.Server.{
  Recv, received, Read, answered, stopped, unfinished, below_zero, no_fuel, on_read,
}
use nohost_server.Server.Reads.{IsIdle, IsBatch, on_read-Turn}

-- Whether there is a next call, and what the client has got by then.
next_call : (Session → List ℕ → Read) → List ℕ → Read → Read
next_call again sent (answered true s w) = answered true s (sent ++ w)
next_call again sent (answered false s w) = again s (sent ++ w)
next_call again sent (stopped w) = stopped (sent ++ w)
next_call again sent (unfinished w) = unfinished (sent ++ w)
next_call again sent below_zero = below_zero
next_call again sent no_fuel = no_fuel

-- Calls with these answers of recv and of write, one after the other, until one returns TRUE or does
-- not return; `sent` is what the client has got. The value that on_read returns without a `return`
-- is taken to be FALSE.
pub calls : Library → ℤ → List (Recv × List Answer) → Session → List ℕ → Read
unfolding next_call
calls l garbage_len [] s sent = answered false s sent
calls l garbage_len ((recv, answers) ∷ rest) s sent =
    next_call (λ s' sent'. calls l garbage_len rest s' sent') sent
      (on_read l garbage_len false answers recv s)

-- A piece: a command or more, and the answers to the flush behind it.
pub record Piece : Type 0 where
  pub cmd : Cmd
  pub cmds : List Cmd
  pub answers : List Answer

abbrev pub in_piece : Piece → List Cmd
in_piece p = p.cmd ∷ p.cmds

abbrev pub inputs : List Piece → List (Recv × List Answer)
inputs [] = []
inputs (p ∷ pieces) = (received (wire (in_piece p)), p.answers) ∷ inputs pieces

abbrev pub all_cmds : List Piece → List Cmd
all_cmds [] = []
all_cmds (p ∷ pieces) = in_piece p ++ all_cmds pieces

abbrev pub AllBatches : List Piece → Type 0
AllBatches [] = Unit
AllBatches (p ∷ pieces) = IsBatch (in_piece p) p.answers × AllBatches pieces

serve-append :
    (l : Library) (fd : ℕ) (w : World) (xs ys : List Cmd)
    → serve l fd w (xs ++ ys) ≡ serve l fd (serve l fd w xs) ys
serve-append l fd w [] ys = refl
serve-append l fd w (cmd ∷ xs) ys = serve-append l fd (serve_one l fd w cmd) xs ys

replies-append : (xs ys : List Cmd) → replies (xs ++ ys) ≡ replies xs ++ replies ys
replies-append [] ys = refl
replies-append (cmd ∷ xs) ys =
    ap (λ t. reply_to cmd ++ t) (replies-append xs ys)
    ∙ sym (append_assoc (reply_to cmd) (replies xs) (replies ys))

-- What the calls come to, behind what was `sent` before.
pub record Talked (l : Library) (s : Session) (sent : List ℕ) (cmds : List Cmd) (r : Read)
    : Type 0 where
  pub final : Session
  pub ended : r ≡ answered false final (sent ++ replies cmds)
  pub world : final.world ≡ serve l s.client.fd s.world cmds
  pub idle : IsIdle final.client

-- On an idle connection, with a store that takes all and a system that takes what is flushed, the
-- calls of on_read on pieces of whole SET and GET commands, each piece no longer than the buffer,
-- each key's number an `int` and each value of at most 8192 bytes, all keep the connection if the value that on_read leaves undefined is
-- FALSE: the client has got `+OK` for each SET, in order and nothing else, the store one request for
-- each command in their order, and nothing is left waiting, however the commands are spread over
-- the pieces.
pub calls-serve :
    (pieces : List Piece) (l : Library) (garbage_len : ℤ) (s : Session) (sent : List ℕ)
    → TakesAll l
    → IsIdle s.client
    → AllBatches pieces
    → Talked l s sent (all_cmds pieces) (calls l garbage_len (inputs pieces) s sent)
unfolding calls next_call
calls-serve [] l garbage_len s sent all idle batches = record {
  final = s;
  ended = rw append-nil refl;
  world = refl;
  idle = idle;
}
calls-serve (p ∷ pieces) l garbage_len s sent all idle (batch, batches) =
    let turn = on_read-Turn l garbage_len false p.answers s p.cmd p.cmds all idle batch in
    let more =
      calls-serve pieces l garbage_len turn.final (sent ++ replies (in_piece p)) all turn.idle
        batches in
    record {
      final = more.final;
      ended =
          ap (next_call (calls l garbage_len (inputs pieces)) sent) turn.ended
          ∙ more.ended
          ∙ ap (answered false more.final) (
              append_assoc sent (replies (in_piece p)) (replies (all_cmds pieces))
              ∙ ap (λ t. sent ++ t) (sym (replies-append (in_piece p) (all_cmds pieces))));
      world =
          more.world
          ∙ rw (turn.same_fd, turn.world)
              (sym (serve-append l s.client.fd s.world (in_piece p) (all_cmds pieces)));
      idle = more.idle;
    }
