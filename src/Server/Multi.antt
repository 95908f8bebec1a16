-- ===== src/Server/Multi.antt =====
-- multi_server.cpp, on_read, next to on_read of poll_server.cpp.
use nohost_server.Base.{
  ◌+◌, ◌≤◌, ◌≡◌, length, ap, sym, ◌∙◌, Bool, true, false, ◌&&◌, List, [], ◌∷◌, arith, ◌==◌,
  Bool-cases, inl, inr,
}
use nohost_server.Base.Int.{ℤ}
use nohost_server.Client.{Answer}
use nohost_server.Request.{Library}
use nohost_server.Session.{Session, buf_size}
use nohost_server.Exec.Replies.{TakesAll}
use nohost_server.Dispatch.Pipeline.{Cmd, wire, AllValid}
use nohost_server.Dispatch.Pipeline.Loop.{client_exec_commands-serves}
use nohost_server.Server.{
  received, Read, answered, filled, send_output, finish_read, finish_multi, after_commands, receive,
  on_read, on_read_multi,
}
use nohost_server.Server.Reads.{
  IsIdle, compact-start, filled-InBuffer, if_true, if_false, finish-marked, finish-unmarked,
}

module _ (answers : List Answer) (garbage : Bool) (s : Session) where
  multi-marked :
      s.client.output_valid ≡ true
      → s.client.buf_idx + s.client.buf_len ≡ 0
      → finish_multi answers garbage true s ≡ send_output answers garbage s
  unfolding finish_multi
  multi-marked e empty =
      if_true (s.client.output_valid && (s.client.buf_idx + s.client.buf_len == 0)) _ _
        (ground (arith, e))

  unmarked_again : Bool → Read
  unmarked_again b =
      answered garbage (record s { client = record (s.client) { output_valid = b } }) []

  multi-unmarked :
      s.client.output_valid ≡ false → finish_multi answers garbage true s ≡ answered garbage s []
  unfolding finish_multi unmarked_again
  multi-unmarked e =
      if_false (s.client.output_valid && (s.client.buf_idx + s.client.buf_len == 0)) _ _
        (ground (arith, e))
      ∙ ap unmarked_again (sym e)

  -- With nothing left in the input buffer the two servers go on alike.
  finish-same :
      s.client.buf_len ≡ 0
      → s.client.buf_idx ≡ 0
      → finish_multi answers garbage true s ≡ finish_read answers garbage true s
  finish-same len idx =
      let stays = compact-start s.client len idx in
      elim (Bool-cases s.client.output_valid) [
        | inl e ↦ multi-marked e (omega arith) ∙ sym (finish-marked answers garbage s stays e)
        | inr e ↦ multi-unmarked e ∙ sym (finish-unmarked answers garbage s stays e)
      ]

-- On an idle connection that gets whole SET and GET commands, no longer than the buffer, with keys
-- whose number is an `int` and values of at most 8192 bytes, and with a store that takes all, on_read of multi_server.cpp does the
-- same as on_read of poll_server.cpp, whatever the system answers to the flush.
pub on_read_multi-on_read :
    (l : Library) (garbage_len : ℤ) (garbage : Bool) (answers : List Answer) (s : Session)
    → (cmd : Cmd) (cmds : List Cmd) → TakesAll l
    → IsIdle s.client
    → AllValid (cmd ∷ cmds)
    → length (wire (cmd ∷ cmds)) ≤ buf_size
    → on_read_multi l garbage_len garbage answers (received (wire (cmd ∷ cmds))) s
      ≡ on_read l garbage_len garbage answers (received (wire (cmd ∷ cmds))) s
unfolding on_read on_read_multi receive filled
on_read_multi-on_read l garbage_len garbage answers s cmd cmds all idle valid fits =
    let c = filled s.client (wire (cmd ∷ cmds)) in
    let served =
      client_exec_commands-serves l garbage_len (record s { client = c }) (cmd ∷ cmds) all valid
        (filled-InBuffer s.client (cmd ∷ cmds) idle fits) in
    ap (after_commands (finish_multi answers garbage)) served.ended
    ∙ finish-same answers garbage served.final served.is_empty served.from_start
    ∙ sym (ap (after_commands (finish_read answers garbage)) served.ended)
