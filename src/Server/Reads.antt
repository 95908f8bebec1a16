-- ===== src/Server/Reads.antt =====
-- poll_server.cpp, on_read, on the commands that a client sends in one piece, and a conversation of
-- such pieces.
use nohost_server.Base.{
  ℕ, ◌+◌, ◌-◌, ◌^◌, ◌≤◌, ◌<◌, ◌≡◌, refl, ap, sym, ◌∙◌, Bool, true, false, List, [], ◌∷◌, length,
  arith, ltb, if◌then◌else◌, Bool-cases, inl, inr, view, length-view, Holds-blit,
}
use nohost_server.Base.Int.{ℤ}
use nohost_server.Client.{Client, Answer, client_clear, client_flush_offset}
use nohost_server.Client.Output.{pending}
use nohost_server.Client.Flush.{Takes, client_flush_offset-sends}
use nohost_server.Request.{Library}
use nohost_server.Session.{Session, buf_size}
use nohost_server.Exec.Replies.{TakesAll}
use nohost_server.Dispatch.{Ended}
use nohost_server.Dispatch.Pipeline.{
  Cmd, set_key, get_key, wire, serve, replies, any_set, AllValid, InBuffer, Served,
}
use nohost_server.Dispatch.Pipeline.Loop.{client_exec_commands-serves}
use nohost_server.Server.{
  received, Read, answered, filled, get_buffer, compact, after_send, send_output, finish_read,
  after_commands, receive, on_read,
}

-- Nothing waits on the connection.
pub record IsIdle (c : Client) : Type 0 where
  pub read_all : c.buf_len ≡ 0
  pub at_start : c.buf_idx ≡ 0
  pub sent_all : c.output_len ≡ 0
  pub from_start : c.output_offset ≡ 0
  pub unmarked : c.output_valid ≡ false

-- What the client may send in one piece.
pub record IsBatch (cmds : List Cmd) (answers : List Answer) : Type 0 where
  pub valid : AllValid cmds
  pub fits : length (wire cmds) ≤ buf_size
  pub short : length (replies cmds) < 2 ^ 31
  pub taken : Takes answers (length (replies cmds))

-- How a call ends that serves all of these commands.
pub record Turn (l : Library) (garbage : Bool) (s : Session) (cmds : List Cmd) (r : Read)
    : Type 0 where
  pub final : Session
  pub ended : r ≡ answered garbage final (replies cmds)
  pub world : final.world ≡ serve l s.client.fd s.world cmds
  pub idle : IsIdle final.client
  pub same_fd : final.client.fd ≡ s.client.fd

pub filled-InBuffer :
    (c : Client) (cmds : List Cmd)
    → IsIdle c
    → length (wire cmds) ≤ buf_size
    → InBuffer (filled c (wire cmds)) cmds
unfolding filled get_buffer
filled-InBuffer c cmds idle fits =
    let here : c.buf_idx + c.buf_len ≡ c.buf_idx = omega (arith, idle.read_all) in
    record {
      holds = rw here (Holds-blit c.buf c.buf_idx (wire cmds));
      whole = omega (arith, idle.read_all);
      room = omega (arith, idle.read_all, idle.at_start);
      start = λ e. idle.at_start;
    }

any_set-true : (cmds : List Cmd) → any_set true cmds ≡ true
any_set-true [] = refl
any_set-true (cmd ∷ cmds) = any_set-true cmds

any_set-silent : (cmds : List Cmd) → any_set false cmds ≡ false → replies cmds ≡ []
any_set-silent [] e = refl
any_set-silent (set_key k value ∷ cmds) e = let t = any_set-true cmds in cc
any_set-silent (get_key k ∷ cmds) e = any_set-silent cmds e

pub compact-start : (c : Client) → c.buf_len ≡ 0 → c.buf_idx ≡ 0 → compact c ≡ c
unfolding compact
compact-start c e e' =
    let much : ltb (buf_size - c.buf_idx - c.buf_len) 100000 ≡ false = ground arith in rw much refl

-- What is sent if the output is marked.
send_output-sends :
    (answers : List Answer) (garbage : Bool) (s : Session) (out : List ℕ)
    → pending s.client ≡ out
    → s.client.output_offset ≡ 0
    → length out < 2 ^ 31
    → Takes answers (length out)
    → send_output answers garbage s
      ≡ answered garbage
          (record s {
            client = record (s.client) {
              output_len = 0;
              output_offset = 0;
              time_valid = true;
              output_valid = false;
            };
          })
          out
unfolding send_output after_send client_clear
send_output-sends answers garbage s out e start short taken =
    let c = s.client in
    let size : c.output_len ≡ length out =
      sym (length-view c.output 0 c.output_len) ∙ ap length e in
    let all : c.output_len - 0 ≡ length out = omega (arith, size) in
    let sends =
      client_flush_offset-sends answers c 0 (omega arith) (omega (arith, size, short))
        (rw all taken) in
    let whole : c.output_len - 0 ≡ c.output_len = omega arith in
    ap (λ o. after_send garbage s (client_flush_offset answers c o)) start
    ∙ ap (after_send garbage s) sends
    ∙ rw (whole, e) refl

pub if_true : {A : Type 0} (b : Bool) (x y : A) → b ≡ true → (if b then x else y) ≡ x
if_true true x y e = refl
if_true false x y e = cc

pub if_false : {A : Type 0} (b : Bool) (x y : A) → b ≡ false → (if b then x else y) ≡ y
if_false true x y e = cc
if_false false x y e = refl

module _ (answers : List Answer) (garbage : Bool) (s : Session)
    (stays : compact s.client ≡ s.client) where
  ends_with : Client → Read
  ends_with c =
      let t : Session = record s { client = c } in
      if c.output_valid then send_output answers garbage t else answered garbage t []

  pub finish-marked :
      s.client.output_valid ≡ true
      → finish_read answers garbage true s ≡ send_output answers garbage s
  unfolding finish_read ends_with
  finish-marked e = ap ends_with stays ∙ if_true s.client.output_valid _ _ e

  pub finish-unmarked :
      s.client.output_valid ≡ false → finish_read answers garbage true s ≡ answered garbage s []
  unfolding finish_read ends_with
  finish-unmarked e = ap ends_with stays ∙ if_false s.client.output_valid _ _ e

-- The marked and the unmarked end of a call that kept the connection.
finish-Turn :
    (l : Library) (garbage : Bool) (answers : List Answer) (s : Session) (c : Client)
    → IsIdle s.client
    → (cmds : List Cmd) → IsBatch cmds answers
    → (e : Ended) → Served l (record s { client = c }) cmds e
    → pending c ≡ []
    → c.output_offset ≡ 0
    → c.output_valid ≡ false
    → c.output_len ≡ 0
    → c.fd ≡ s.client.fd
    → Turn l garbage s cmds (after_commands (finish_read answers garbage) e)
unfolding after_commands finish_read
finish-Turn l garbage answers s c idle cmds batch e served empty start clear none_left fd =
    let f = served.final in
    let out : pending f.client ≡ replies cmds = served.output ∙ rw empty refl in
    let in_place = compact-start f.client served.is_empty served.from_start in
    let at_start : f.client.output_offset ≡ 0 = served.offset ∙ start in
    let run = ap (after_commands (finish_read answers garbage)) served.ended in
    elim (Bool-cases (any_set false cmds)) [
      | inl some_set ↦
          let mark : f.client.output_valid ≡ true = served.marked ∙ rw clear some_set in
          record {
            final = record f {
              client = record (f.client) {
                output_len = 0;
                output_offset = 0;
                time_valid = true;
                output_valid = false;
              };
            };
            ended =
                run
                ∙ finish-marked answers garbage f in_place mark
                ∙ send_output-sends answers garbage f (replies cmds) out at_start batch.short
                    batch.taken;
            world = served.world ∙ rw fd refl;
            idle = record {
              read_all = served.is_empty;
              at_start = served.from_start;
              sent_all = refl;
              from_start = refl;
              unmarked = refl;
            };
            same_fd = served.same_fd ∙ fd;
          }
      | inr no_set ↦
          let silent = any_set-silent cmds no_set in
          let mark : f.client.output_valid ≡ false = served.marked ∙ rw clear no_set in
          let size : f.client.output_len ≡ 0 =
            sym (length-view f.client.output 0 f.client.output_len) ∙ ap length (out ∙ silent) in
          record {
            final = f;
            ended = run ∙ finish-unmarked answers garbage f in_place mark ∙ rw silent refl;
            world = served.world ∙ rw fd refl;
            idle = record {
              read_all = served.is_empty;
              at_start = served.from_start;
              sent_all = size;
              from_start = at_start;
              unmarked = mark;
            };
            same_fd = served.same_fd ∙ fd;
          }
    ]

-- on_read of a batch on an idle connection.
pub on_read-Turn :
    (l : Library) (garbage_len : ℤ) (garbage : Bool) (answers : List Answer) (s : Session)
    → (cmd : Cmd) (cmds : List Cmd) → TakesAll l
    → IsIdle s.client
    → IsBatch (cmd ∷ cmds) answers
    → Turn l garbage s
        (cmd ∷ cmds)
        (on_read l garbage_len garbage answers (received (wire (cmd ∷ cmds))) s)
unfolding on_read receive filled view
on_read-Turn l garbage_len garbage answers s cmd cmds all idle batch =
    let c = filled s.client (wire (cmd ∷ cmds)) in
    let served =
      client_exec_commands-serves l garbage_len (record s { client = c }) (cmd ∷ cmds) all
        batch.valid (filled-InBuffer s.client (cmd ∷ cmds) idle batch.fits) in
    finish-Turn l garbage answers s c idle (cmd ∷ cmds) batch _ served (rw idle.sent_all refl)
      idle.from_start idle.unmarked idle.sent_all refl
